-- ===== src/Store/Txn/Laws.antt =====
-- What Put and Del of store/txn.go do to later reads, over the laws of the client library.
use lancelot.Base.{◌≡◌, ◌≢◌, Bytes, arith}
use lancelot.Store.Kv.{Kv, KvLaws, found, missing}
use lancelot.Store.Error.{ok}
use lancelot.Store.Txn.{Txn, put, del, lock_first}

-- `t'` is `t` up to what is stored.
abbrev pub SameSession : {kv : Kv} → Txn kv → Txn kv → Type 0
SameSession t t' = t' ≡ record t { store = t'.store }

module _ {kv : Kv} where
  lock_first-SameSession : (key : Bytes) (t : Txn kv) → SameSession t (lock_first key t).1
  unfolding lock_first
  lock_first-SameSession key t = ground arith

  pub put-SameSession : (key val : Bytes) (t : Txn kv) → SameSession t (put key val t).1
  unfolding put
  put-SameSession key val t = ground arith

  pub del-SameSession : (key : Bytes) (t : Txn kv) → SameSession t (del key t).1
  unfolding del
  del-SameSession key t = ground arith

module _ {kv : Kv} (laws : KvLaws kv) where
  -- After a Put that succeeds, a read of the key gives the value.
  pub put-ok :
      (key val : Bytes) (t : Txn kv)
      → (put key val t).0 ≡ ok tt
      → kv.get (put key val t).1.store key ≡ found val
  unfolding put
  put-ok key val t h =
      ground (arith, laws.get-put t.store key val, laws.get-put (kv.lock t.store key).1 key val)

  -- A Put changes no other key, whether it succeeds or not.
  pub put_ne :
      (key val j : Bytes) (t : Txn kv)
      → j ≢ key
      → kv.get (put key val t).1.store j ≡ kv.get t.store j
  unfolding put
  put_ne key val j t h = ground (
    arith,
    laws.get-put_ne t.store key val j h,
    laws.get-put_ne (kv.lock t.store key).1 key val j h,
    laws.get-lock t.store key j,
  )

  -- After a Del that succeeds, a read of the key finds nothing.
  pub del-ok :
      (key : Bytes) (t : Txn kv) → (del key t).0 ≡ ok tt → kv.get (del key t).1.store key ≡ missing
  unfolding del
  del-ok key t h =
      ground (arith, laws.get-delete t.store key, laws.get-delete (kv.lock t.store key).1 key)

  pub del_ne :
      (key j : Bytes) (t : Txn kv) → j ≢ key → kv.get (del key t).1.store j ≡ kv.get t.store j
  unfolding del
  del_ne key j t h = ground (
    arith,
    laws.get-delete_ne t.store key j h,
    laws.get-delete_ne (kv.lock t.store key).1 key j h,
    laws.get-lock t.store key j,
  )
