-- ===== src/Command/Hash.antt =====
-- command/hash.go: the commands on hashes. A field is an entry below the UUID of the hash.
pub mod Read
pub mod Write
pub mod Get
pub mod Delete
pub mod All
