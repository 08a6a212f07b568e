-- ===== src/Command/Set.antt =====
-- command/set.go: the commands on sets. A member is an entry below the UUID of the set.
pub mod Read
pub mod Write
pub mod Pop
pub mod Algebra
pub mod Merged
pub mod Results
pub mod Member
pub mod Contains
pub mod Union
