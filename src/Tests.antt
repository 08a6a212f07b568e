-- ===== src/Tests.antt =====
-- A transaction in memory, and each result at a concrete input.
mod Memory
mod Utils
mod Objects
mod Strings
mod Generic
mod Sessions
mod Elements
mod Bits
mod Iterators
