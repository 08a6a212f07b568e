-- ===== src/Store.antt =====
-- Package store: what it takes from the client library, and the transaction that commands run in.
pub mod Kv
pub mod Error
pub mod Txn
pub mod Scan
pub mod Merge
