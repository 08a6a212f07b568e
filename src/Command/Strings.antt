-- ===== src/Command/Strings.antt =====
-- command/string.go: the commands on strings.
pub mod Read
pub mod Write
pub mod Set
pub mod SetRange
pub mod Counter
