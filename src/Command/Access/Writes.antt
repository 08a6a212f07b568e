-- ===== src/Command/Access/Writes.antt =====
-- What storing and deleting an object does to later reads.
use lancelot.Base.{
  ◌-◌, ◌≡◌, refl, Bool, true, not, ◌&&◌, ◌||◌, none, some, [], ◌∷◌, ◌⊎◌, ◌==◌, inl, inr, Bool-cases,
  Bytes, arith, get_or, ltb, if◌then◌else◌, length,
}
use lancelot.Base.Int.{ℤ, pos, ltb_ℤ, wrap_int64, ◌+ℤ◌}
use lancelot.Store.Kv.{Kv, KvLaws, Found, found, missing}
use lancelot.Store.Error.{ok}
use lancelot.Store.Txn.{Txn, Exec, del, ◌>>◌, pure}
use lancelot.Store.Txn.Frame.{
  Touches, Touches-pure, Touches-weaken, Touches-if, Touches-if_true, Touches-state,
  Touches-unchanged, Touches-bind, Touches-bind_ok, Touches-put, Touches-del,
}
use lancelot.Store.Txn.Laws.{put-ok, del-ok}
use lancelot.Command.Object.{
  Object, is_simple, bytes_of, object_encode, get_key_bytes, count_prefix, ttl_key, ttl_value_key,
  get_ttl_bytes, count_general, data_prefix, ttl_prefix,
}
use lancelot.Command.Count.{Count}
use lancelot.Command.Count.Laws.{get_count-unchanged, get_count-key, set_count-Touches}
use lancelot.Command.Access.{
  Change, keysize, size_count, add_to_count, count_change, write_object, set_txn_object, delta_of,
  counts, when, clean_apart, clean_key, delete_key,
}

abbrev pub IsCountKey : Bytes → Type 0
IsCountKey j = get_or j 0 0 ≡ count_prefix

abbrev pub IsTtlKey : Bytes → Type 0
IsTtlKey j = get_or j 0 0 ≡ ttl_prefix

-- The keys that storing an object under `key` may change.
abbrev pub KeyOrCount : Bytes → Bytes → Type 0
KeyOrCount key j = (j ≡ key) ⊎ IsCountKey j

-- What a key holds after its object has been written or deleted.
abbrev pub outcome : (F : Type 0) → Object → Change → Found F
outcome F o change = if change.delete then missing else found (object_encode o)

module _ {kv : Kv} (laws : KvLaws kv) where
  -- What count_change reads is the key of a count.
  size_count-key :
      (o : Object) (change : Change) (t : Txn kv) (p : Bool × Count)
      → (size_count o change t).0 ≡ ok p
      → IsCountKey p.1.key
  unfolding size_count
  size_count-key o change t (b, c) h = ground (
    arith,
    get_count-key o.user_id o.db t.config.db_size_hash count_general keysize none t b c,
    get_count-key o.user_id o.db (t.config.db_size_hash - 1) count_general keysize (some o.key) t b
        c,
  )

  size_count-unchanged : (o : Object) (change : Change) (t : Txn kv) → (size_count o change t).1 ≡ t
  unfolding size_count
  size_count-unchanged o change t = ground (
    arith,
    get_count-unchanged o.user_id o.db t.config.db_size_hash count_general keysize none t,
    get_count-unchanged o.user_id o.db (t.config.db_size_hash - 1) count_general keysize
        (some o.key) t,
  )

  module _ {Q : Bytes → Type 0} (q : (j : Bytes) → IsCountKey j → Q j) where
    add_to_count-Touches :
        (d : ℤ) (p : Bool × Count) → IsCountKey p.1.key → Touches {kv = kv} Q (add_to_count d p)
    unfolding add_to_count
    add_to_count-Touches d (b, c) h =
        set_count-Touches laws (record c { value = wrap_int64 (c.value +ℤ d) }) (q c.key h)

    pub count_change-Touches :
        (o : Object) (change : Change) → Touches {kv = kv} Q (count_change o change)
    unfolding count_change
    count_change-Touches o change =
        let body =
          Touches-bind_ok (size_count o change) (add_to_count (delta_of change))
            (Touches-unchanged _ (size_count-unchanged o change))
            (λ t p e. add_to_count-Touches (delta_of change) p (size_count-key o change t p e)) in
        Touches-state (λ t. _)
          (λ t.
            Touches-if (not (t.config.db_size_hash == 0) && counts change) _ (pure tt) body
              (Touches-pure tt))

  write_object-Touches :
      {Q : Bytes → Type 0} (key : Bytes) (o : Object) (change : Change)
      → Q key
      → Touches {kv = kv} Q (write_object key o change)
  unfolding write_object
  write_object-Touches key o change q =
      Touches-if change.delete _ _ (Touches-del laws key q)
        (Touches-put laws key (object_encode o) q)

  -- Storing or deleting an object changes its key and counts, and nothing else, whether it succeeds
  -- or fails.
  pub set_txn_object-Touches :
      (key : Bytes) (o : Object) (change : Change)
      → Touches {kv = kv} (KeyOrCount key) (set_txn_object key o change)
  unfolding set_txn_object
  set_txn_object-Touches key o change =
      Touches-bind (write_object key o change) (λ _. count_change o change)
        (write_object-Touches key o change (inl refl))
        (λ _. count_change-Touches (λ j h. inr h) o change)

  write_object-ok :
      (key : Bytes) (o : Object) (change : Change) (t : Txn kv)
      → (write_object key o change t).0 ≡ ok tt
      → kv.get (write_object key o change t).1.store key ≡ outcome kv.Fault o change
  unfolding write_object
  write_object-ok key o change t h =
      ground (arith, put-ok laws key (object_encode o) t, del-ok laws key t)

  -- After setTxnObject has succeeded at a key that is not the key of a count, the key holds the
  -- encoded object, or nothing if it deletes.
  pub set_txn_object-ok :
      (key : Bytes) (o : Object) (change : Change) (t : Txn kv)
      → ¬ IsCountKey key
      → (set_txn_object key o change t).0 ≡ ok tt
      → kv.get (set_txn_object key o change t).1.store key ≡ outcome kv.Fault o change
  unfolding set_txn_object
  set_txn_object-ok key o change t n h = ground (
    arith,
    write_object-ok key o change t,
    (count_change-Touches {Q = IsCountKey} (λ j k. k) o change).others
        (write_object key o change t).1 key n,
  )

-- The keys that deleting the object of `key` may change.
abbrev pub DeletedKeys : Bytes → Bytes → Type 0
DeletedKeys key j = KeyOrCount key j ⊎ IsTtlKey j

ttl_key-IsTtlKey :
    (o : Object) → ltb 0 (length (bytes_of (ttl_key o))) ≡ true → IsTtlKey (bytes_of (ttl_key o))
unfolding ttl_key get_ttl_bytes get_key_bytes
ttl_key-IsTtlKey o h = ground arith

ttl_value_key-IsTtlKey :
    (o : Object) → ltb_ℤ (pos 0) o.ttl ≡ true → IsTtlKey (bytes_of (ttl_value_key o))
unfolding ttl_value_key get_ttl_bytes get_key_bytes
ttl_value_key-IsTtlKey o h = ground arith

first_byte-pos : (key : Bytes) → get_or key 0 0 ≡ data_prefix → ltb 0 (length key) ≡ true
first_byte-pos [] h = ground arith
first_byte-pos (k ∷ ks) h = ground arith

module _ {kv : Kv} (laws : KvLaws kv) where
  -- With a time to collect it at, or with no value stored apart, the counts stay.
  abbrev pub NoCountSweep : Object → ℤ → Type 0
  NoCountSweep o at = (ltb_ℤ (pos 0) at ≡ true) ⊎ (length (bytes_of o.value) ≡ 0)

  clean_apart-Touches :
      (o : Object) (at : ℤ) → NoCountSweep o at → Touches {kv = kv} IsTtlKey (clean_apart o at)
  unfolding clean_apart
  clean_apart-Touches o at (inl later) =
      Touches-if (is_simple o || length (bytes_of o.value) == 0) _ _ (Touches-pure tt) (
        Touches-if_true (ltb_ℤ (pos 0) at) _ _ later (
          Touches-put laws (bytes_of (ttl_value_key (record o { ttl = at }))) (1 ∷ [])
            (ttl_value_key-IsTtlKey (record o { ttl = at }) later)))
  clean_apart-Touches o at (inr empty) =
      let whole : (is_simple o || length (bytes_of o.value) == 0) ≡ true = ground arith in
      Touches-if_true (is_simple o || length (bytes_of o.value) == 0) (pure tt) _ whole
        (Touches-pure tt)

  del_ttl-Touches :
      (o : Object)
      → Touches {kv = kv} IsTtlKey
          (when (ltb 0 (length (bytes_of (ttl_key o)))) (del (bytes_of (ttl_key o))))
  del_ttl-Touches o = elim (Bool-cases (ltb 0 (length (bytes_of (ttl_key o))))) [
    | inl there ↦ rw there (Touches-del laws (bytes_of (ttl_key o)) (ttl_key-IsTtlKey o there))
    | inr absent ↦ rw absent (Touches-pure tt)
  ]

  -- What CleanKey does after the key itself.
  clear_rest : Object → ℤ → Exec kv (Unit {0})
  clear_rest o at =
      when (ltb 0 (length (bytes_of (ttl_key o)))) (del (bytes_of (ttl_key o))) >> clean_apart o at

  clear_rest-Touches :
      (o : Object) (at : ℤ) → NoCountSweep o at → Touches {kv = kv} IsTtlKey (clear_rest o at)
  unfolding clear_rest
  clear_rest-Touches o at h = Touches-bind _ _ (del_ttl-Touches o) (λ _. clean_apart-Touches o at h)

  -- With a time at which the collector may take the value, or with no value stored apart, deleting
  -- an object changes its key, counts and expiry keys, and nothing else, whether it succeeds or
  -- fails.
  pub delete_key-Touches :
      (key : Bytes) (o : Object) (at : ℤ) (change : Change)
      → NoCountSweep o at
      → Touches {kv = kv} (DeletedKeys key) (delete_key key o at change)
  unfolding delete_key clean_key clear_rest
  delete_key-Touches key o at change h =
      Touches-bind _ _
        (Touches-if (ltb 0 (length key)) _ _
          (Touches-weaken (set_txn_object-Touches laws key o (record change { delete = true }))
            (λ j q. inl q))
          (Touches-pure tt))
        (λ _. Touches-weaken (clear_rest-Touches o at h) (λ j q. inr q))

  delete_key-eq :
      (key : Bytes) (o : Object) (at : ℤ) (change : Change) (t : Txn kv)
      → ltb 0 (length key) ≡ true
      → delete_key key o at change t
        ≡ (set_txn_object key o (record change { delete = true }) >> clear_rest o at) t
  unfolding delete_key clean_key clear_rest
  delete_key-eq key o at change t h = rw h refl

  -- After DeleteKey of the key of an object has succeeded, with a time at which the collector may
  -- take the value or with no value stored apart, the key is gone.
  pub delete_key-ok :
      (key : Bytes) (o : Object) (at : ℤ) (change : Change) (t : Txn kv)
      → get_or key 0 0 ≡ data_prefix
      → NoCountSweep o at
      → (delete_key key o at change t).0 ≡ ok tt
      → kv.get (delete_key key o at change t).1.store key ≡ missing
  delete_key-ok key o at change t d h e =
      let del_it : Change = record change { delete = true } in
      ground (
        arith,
        delete_key-eq key o at change t (first_byte-pos key d),
        set_txn_object-ok laws key o del_it t,
        (clear_rest-Touches o at h).others (set_txn_object key o del_it t).1 key,
      )
