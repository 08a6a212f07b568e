-- ===== src/Command.antt =====
-- Package command.
pub mod Object
pub mod Count
pub mod Access
pub mod Reply
pub mod Elements
pub mod Hash
pub mod Set
pub mod Strings
pub mod Bits
pub mod Generic
pub mod Session
