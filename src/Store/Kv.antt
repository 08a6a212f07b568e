-- ===== src/Store/Kv.antt =====
-- The transaction of the TiKV client library, which store/txn.go calls: an interface, and what the
-- commands rely on. `Store` is one open transaction: its snapshot, its write buffer and its locks.
use lancelot.Base.{ℕ, ◌≡◌, ◌≢◌, Bool, Option, none, some, Bytes}
use lancelot.Base.Int.{ℤ}

-- What a read returns: a value, "not found", or an error.
pub data Found (F : Type 0) : Type 0 where
  found : Bytes → Found F
  missing : Found F
  failed : F → Found F

-- An iterator, by what its `Next` calls bring: an entry and the rest, the end, or an error.
pub data Cursor (F : Type 0) : Type 0 where
  ended : Cursor F
  broken : F → Cursor F
  item : Bytes → Bytes → Cursor F → Cursor F

pub record Kv : Type 1 where
  pub Store : Type 0
  pub Fault : Type 0
  pub get : Store → Bytes → Found Fault
  pub put : Store → Bytes → Bytes → Option Fault × Store
  pub delete : Store → Bytes → Option Fault × Store
  pub lock : Store → Bytes → Option Fault × Store
  -- `Iter(start, end)`, where `broken` stands for an error of the call too
  pub iter : Store → Bytes → Bytes → Cursor Fault
  -- `IterReverse(end)`, downwards from the entry before `end`
  pub iter_reverse : Store → Bytes → Cursor Fault
  pub is_write_conflict : Fault → Bool
  pub is_lock_no_wait : Fault → Bool
  pub is_lock_timeout : Fault → Bool
  pub message : Fault → Bytes
  -- `oracle.ExtractPhysical`
  pub extract_physical : ℕ → ℤ

-- Reads see the transaction's own writes; a write concerns its key alone; a lock changes no value.
pub record KvLaws (kv : Kv) : Type 0 where
  pub get-put :
      (s : kv.Store) (k v : Bytes) → (kv.put s k v).0 ≡ none → kv.get (kv.put s k v).1 k ≡ found v
  pub get-put_ne : (s : kv.Store) (k v j : Bytes) → j ≢ k → kv.get (kv.put s k v).1 j ≡ kv.get s j
  pub get-put_failed :
      (s : kv.Store) (k v : Bytes) (f : kv.Fault)
      → (kv.put s k v).0 ≡ some f
      → kv.get (kv.put s k v).1 k ≡ kv.get s k
  pub get-delete :
      (s : kv.Store) (k : Bytes) → (kv.delete s k).0 ≡ none → kv.get (kv.delete s k).1 k ≡ missing
  pub get-delete_ne : (s : kv.Store) (k j : Bytes) → j ≢ k → kv.get (kv.delete s k).1 j ≡ kv.get s j
  pub get-delete_failed :
      (s : kv.Store) (k : Bytes) (f : kv.Fault)
      → (kv.delete s k).0 ≡ some f
      → kv.get (kv.delete s k).1 k ≡ kv.get s k
  pub get-lock : (s : kv.Store) (k j : Bytes) → kv.get (kv.lock s k).1 j ≡ kv.get s j
