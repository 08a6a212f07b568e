-- ===== src/Command/Strings/Write/Laws.antt =====
-- What setString stores.
use lancelot.Base.{
  ℕ, ◌<◌, ◌≡◌, refl, sym, true, false, some, inl, inr, Bool-cases, Bytes, arith, length, get_or,
}
use lancelot.Base.Int.{ℤ, pos, ltb_ℤ}
use lancelot.Store.Kv.{Kv, KvLaws, found}
use lancelot.Store.Error.{ok}
use lancelot.Store.Txn.{Txn, Exec, del, max_key_size, ◌>>◌}
use lancelot.Store.Txn.Frame.{
  Touches, Touches-eq, Touches-pure, Touches-weaken, Touches-state, Touches-bind, Touches-del,
}
use lancelot.Command.Object.{
  Object, bytes_of, object_encode, object_key, ttl_key, get_ttl_bytes, get_key_bytes, string_type,
  data_prefix,
}
use lancelot.Command.Object.Codec.{decoded}
use lancelot.Command.Access.{
  Change, when, no_change, plus_count, new_object, set_txn_object, with_object,
}
use lancelot.Command.Access.Reads.{Content, absent, present, Stored, IsLive, get_txn_object-live}
use lancelot.Command.Access.Writes.{
  IsTtlKey, DeletedKeys, set_txn_object-Touches, set_txn_object-ok,
}
use lancelot.Command.Strings.Write.{
  no_check, set_string, store_string, store_if_found, store_if_missing,
}

-- The object with the value and the time of writing that setString gives it.
abbrev pub rewritten : Bytes → ℕ → Object → Object
rewritten value timestamp o = record o { value = some value; timestamp = timestamp }

live_ttl_key-IsTtlKey : (o : Object) → ltb_ℤ (pos 0) o.ttl ≡ true → IsTtlKey (bytes_of (ttl_key o))
unfolding ttl_key get_ttl_bytes get_key_bytes
live_ttl_key-IsTtlKey o h = ground arith

pub object_key-first : (o : Object) → get_or (object_key o) 0 0 ≡ data_prefix
unfolding object_key get_key_bytes
object_key-first o = refl

module _ {kv : Kv} (draw : ℤ → ℤ) where
  -- Without an expiry to set, setString deletes the old expiry key, if there is one, and stores the
  -- object with its expiry unchanged.
  store_string-eq :
      (key value : Bytes) (create : Change) (o : Object) (t : Txn kv)
      → store_string draw key value (pos 0) create o t
        ≡ (when (ltb_ℤ (pos 0) o.ttl) (del (bytes_of (ttl_key o)))
              >> set_txn_object key (rewritten value t.timestamp o) create)
            t
  unfolding store_string
  store_string-eq key value create o t = ground arith

module _ {kv : Kv} (laws : KvLaws kv) (draw : ℤ → ℤ) where
  -- The deletion of the old expiry key, where there is one.
  drop_ttl : Object → Exec kv (Unit {0})
  drop_ttl o = when (ltb_ℤ (pos 0) o.ttl) (del (bytes_of (ttl_key o)))

  drop_ttl-Touches : (o : Object) → Touches {kv = kv} IsTtlKey (drop_ttl o)
  unfolding drop_ttl
  drop_ttl-Touches o = elim (Bool-cases (ltb_ℤ (pos 0) o.ttl)) [
    | inl there ↦ rw there (Touches-del laws (bytes_of (ttl_key o)) (live_ttl_key-IsTtlKey o there))
    | inr gone ↦ rw gone (Touches-pure tt)
  ]

  -- Storing a string without an expiry to set changes its key, counts and expiry keys only.
  pub store_string-Touches :
      (key value : Bytes) (create : Change) (o : Object)
      → Touches {kv = kv} (DeletedKeys key) (store_string draw key value (pos 0) create o)
  unfolding drop_ttl
  store_string-Touches key value create o =
      Touches-eq _
        (λ t. (drop_ttl o >> set_txn_object key (rewritten value t.timestamp o) create) t)
        (λ t. sym (store_string-eq draw key value create o t))
        (Touches-state
          (λ t. drop_ttl o >> set_txn_object key (rewritten value t.timestamp o) create)
          (λ t.
            Touches-bind {Q = DeletedKeys key} (drop_ttl o)
              (λ _. set_txn_object key (rewritten value t.timestamp o) create)
              (Touches-weaken (drop_ttl-Touches o) (λ j q. inr q))
              (λ _.
                Touches-weaken
                  (set_txn_object-Touches laws key (rewritten value t.timestamp o) create)
                  (λ j q. inl q))))

  pub store_string-ok :
      (key value : Bytes) (create : Change) (o : Object) (t : Txn kv)
      → get_or key 0 0 ≡ data_prefix
      → create.delete ≡ false
      → (store_string draw key value (pos 0) create o t).0 ≡ ok tt
      → kv.get (store_string draw key value (pos 0) create o t).1.store key
        ≡ found (object_encode (rewritten value t.timestamp o))
  unfolding drop_ttl
  store_string-ok key value create o t d c h = ground (
    arith,
    store_string-eq draw key value create o t,
    set_txn_object-ok laws key (rewritten value t.timestamp o) create (drop_ttl o t).1,
  )

-- What a string command may find at a key: nothing, or a string.
abbrev pub IsStringContent : Content → Type 0
IsStringContent absent = Unit
IsStringContent (present o) = o.typo ≡ string_type

-- The object that setString goes on with, and the change of count.
abbrev pub found_object : Content → Object → Object
found_object absent into = into
found_object (present o) into = decoded o into

abbrev pub set_change : Content → Change
set_change absent = plus_count
set_change (present o) = no_change

module _ {kv : Kv} (draw : ℤ → ℤ) where
  -- At a key that holds no expired object, and a string if any, setString stores without clearing.
  pub set_string-eq :
      (key value : Bytes) (expire : ℤ) (c : Content) (t : Txn kv)
      → length (object_key (new_object t string_type key)) < max_key_size
      → Stored t (object_key (new_object t string_type key)) c
      → IsLive t.now c
      → IsStringContent c
      → set_string draw key value expire no_check t
        ≡ store_string draw
            (object_key (new_object t string_type key))
            value
            expire
            (set_change c)
            (found_object c (new_object t string_type key))
            t
  unfolding set_string with_object store_if_found store_if_missing
  set_string-eq key value expire absent t hk s l i =
      let into = new_object t string_type key in
      ground (arith, get_txn_object-live (object_key into) into true absent t hk s l)
  set_string-eq key value expire (present o) t hk s l i =
      let into = new_object t string_type key in
      ground (arith, get_txn_object-live (object_key into) into true (present o) t hk s l)
