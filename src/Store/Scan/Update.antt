-- ===== src/Store/Scan/Update.antt =====
-- What a Put or a Del does to a later List.
use lancelot.Base.{◌≡◌, true, false, none, Bytes, arith}
use lancelot.Store.Kv.{Kv}
use lancelot.Store.Error.{ok}
use lancelot.Store.Txn.{Txn, put, del}
use lancelot.Store.Scan.Laws.{entries, ending, in_range, upsert, remove, ScanLaws}

module _ {kv : Kv} (scan : ScanLaws kv) where
  pub iter-put_out :
      (t : Txn kv) (k v a b : Bytes)
      → in_range a b k ≡ false
      → kv.iter (put k v t).1.store a b ≡ kv.iter t.store a b
  unfolding put
  iter-put_out t k v a b h = ground (
    arith,
    scan.iter-put_out t.store a b k v h,
    scan.iter-put_out (kv.lock t.store k).1 a b k v h,
    scan.iter-lock t.store a b k,
  )

  pub iter-del_out :
      (t : Txn kv) (k a b : Bytes)
      → in_range a b k ≡ false
      → kv.iter (del k t).1.store a b ≡ kv.iter t.store a b
  unfolding del
  iter-del_out t k a b h = ground (
    arith,
    scan.iter-delete_out t.store a b k h,
    scan.iter-delete_out (kv.lock t.store k).1 a b k h,
    scan.iter-lock t.store a b k,
  )

  pub iter-put :
      (t : Txn kv) (k v a b : Bytes)
      → in_range a b k ≡ true
      → (put k v t).0 ≡ ok tt
      → ending (kv.iter t.store a b) ≡ none
      → ending (kv.iter (put k v t).1.store a b) ≡ none
      → entries (kv.iter (put k v t).1.store a b) ≡ upsert k v (entries (kv.iter t.store a b))
  unfolding put
  iter-put t k v a b i h e e' = ground (
    arith,
    scan.iter-put t.store a b k v i,
    scan.iter-put (kv.lock t.store k).1 a b k v i,
    scan.iter-lock t.store a b k,
  )

  pub iter-del :
      (t : Txn kv) (k a b : Bytes)
      → in_range a b k ≡ true
      → (del k t).0 ≡ ok tt
      → ending (kv.iter t.store a b) ≡ none
      → ending (kv.iter (del k t).1.store a b) ≡ none
      → entries (kv.iter (del k t).1.store a b) ≡ remove k (entries (kv.iter t.store a b))
  unfolding del
  iter-del t k a b i h e e' = ground (
    arith,
    scan.iter-delete t.store a b k i,
    scan.iter-delete (kv.lock t.store k).1 a b k i,
    scan.iter-lock t.store a b k,
  )
