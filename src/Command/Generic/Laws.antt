-- ===== src/Command/Generic/Laws.antt =====
-- What EXPIRE and DEL store, and the overflow of EXPIRE.
use lancelot.Base.{
  ℕ, ◌+◌, ◌*◌, ◌<◌, ◌≡◌, refl, true, false, [], ◌∷◌, inl, inr, Bytes, arith, length, get_or,
}
use lancelot.Base.Int.{
  ℤ, pos, ◌+ℤ◌, leb_ℤ, ltb_ℤ, ◌<ℤ◌, IsInt64, max_int64, wrap_int64, int64_of, uint64_of,
}
use lancelot.Store.Kv.{Kv, KvLaws, found, missing}
use lancelot.Store.Error.{ok}
use lancelot.Store.Txn.{Txn, put, max_key_size}
use lancelot.Store.Txn.Laws.{put-ok}
use lancelot.Command.Object.{
  Object, bytes_of, object_key, object_encode, ttl_key, get_ttl_bytes, get_key_bytes, unknown_type,
  data_prefix,
}
use lancelot.Command.Object.Codec.{decoded}
use lancelot.Command.Access.{new_object, no_change, delete_key, minus_count, with_object}
use lancelot.Command.Access.Reads.{Stored, present, IsLive, get_txn_object-live}
use lancelot.Command.Access.Writes.{
  IsTtlKey, set_txn_object-ok, set_txn_object-Touches, delete_key-ok,
}
use lancelot.Base.{some, ◌∙◌}
use lancelot.Store.Txn.{◌>>◌, pure}
use lancelot.Base.Decimal.{parse_int}
use lancelot.Command.Reply.{simple_int}
use lancelot.Command.Generic.Options.{no_option, expire_options, get_check_option}
use lancelot.Command.Generic.Expire.{expire, expire_object, expire_handle, expire_reply}
use lancelot.Command.Generic.{touch_or_delete}
use lancelot.Command.Generic.Expire.{set_expiry, ttl_entry, millis, bad_seconds}

pub live_ttl_key : (o : Object) → ltb_ℤ (pos 0) o.ttl ≡ true → IsTtlKey (bytes_of (ttl_key o))
unfolding ttl_key get_ttl_bytes get_key_bytes
live_ttl_key o h = ground arith

module _ {kv : Kv} (laws : KvLaws kv) where
  -- After EXPIRE has stored a new expiry that is positive, at a key of an object, the key holds the
  -- object with the new expiry, and the expiry key that belongs to it, which the collector reads,
  -- holds the entry of the object.
  pub set_expiry-ok :
      (key : Bytes) (new : ℤ) (o : Object) (t : Txn kv) (n : ℤ)
      → get_or key 0 0 ≡ data_prefix
      → pos 0 <ℤ new
      → (set_expiry key new o t).0 ≡ ok n
      → (kv.get (set_expiry key new o t).1.store key
          ≡ found (object_encode (record o { ttl = new; timestamp = t.timestamp })))
        × (kv.get
              (set_expiry key new o t).1.store
              (bytes_of (ttl_key (record o { ttl = new; timestamp = t.timestamp })))
            ≡ found (ttl_entry (record o { ttl = new; timestamp = t.timestamp })))
  unfolding set_expiry
  set_expiry-ok key new o t n d p h =
      let o' : Object = record o { ttl = new; timestamp = t.timestamp } in
      let entry = bytes_of (ttl_key o') in
      let first = put entry (ttl_entry o') t in
      let ttl_first = live_ttl_key o' (ground (arith, p)) in
      ground (
        arith,
        put-ok laws entry (ttl_entry o') t,
        set_txn_object-ok laws key o' no_change first.1 (λ c. absurd (ground (arith, c, d))),
        (set_txn_object-Touches laws key o' no_change).others first.1 entry (λ q. elim q [
          | inl e ↦ absurd (ground (arith, e, d, ttl_first))
          | inr c ↦ absurd (ground (arith, c, ttl_first))
        ]),
      )

-- For a number of seconds that is not negative and passes its guard, EXPIRE computes the time of
-- expiry exactly, if that is an int64 value.
pub expire_time-exact :
    (now n : ℕ)
    → bad_seconds (pos n) ≡ false
    → IsInt64 (pos (now + n * 1000))
    → wrap_int64 (pos now +ℤ millis (pos n)) ≡ pos (now + n * 1000)
unfolding wrap_int64 int64_of uint64_of
expire_time-exact now n g h = ground (arith, h.below)

-- A number of seconds that passes the guard of EXPIRE and whose time of expiry is past the largest
-- int64 value gives a time that is not after now, so that EXPIRE deletes the key.
expire_time-wrapped :
    (now n : ℕ)
    → IsInt64 (pos now)
    → bad_seconds (pos n) ≡ false
    → max_int64 <ℤ pos (now + n * 1000)
    → leb_ℤ (wrap_int64 (pos now +ℤ millis (pos n))) (pos now) ≡ true
unfolding wrap_int64 int64_of uint64_of
expire_time-wrapped now n i g h = ground (arith, i.below)

pub object_key-data : (o : Object) → get_or (object_key o) 0 0 ≡ data_prefix
unfolding object_key get_key_bytes
object_key-data o = refl

new_object-unknown :
    {kv : Kv} (t : Txn kv) (arg : Bytes) → (new_object t unknown_type arg).typo ≡ unknown_type
unfolding new_object
new_object-unknown t arg = refl

module _ {kv : Kv} (laws : KvLaws kv) where
  -- DEL of one key that holds an object that has not expired: if the deletion succeeds, the count is 1
  -- and the key is gone.
  pub touch_or_delete-gone :
      (arg : Bytes) (o : Object) (t : Txn kv)
      → length (object_key (new_object t unknown_type arg)) < max_key_size
      → Stored t (object_key (new_object t unknown_type arg)) (present o)
      → IsLive t.now (present o)
      → pos 0 <ℤ t.now
      → (delete_key
          (object_key (new_object t unknown_type arg))
          (decoded o (new_object t unknown_type arg))
          t.now
          minus_count
          t).0
        ≡ ok tt
      → ((touch_or_delete true 0 (arg ∷ []) t).0 ≡ ok 1)
        × (kv.get
              (touch_or_delete true 0 (arg ∷ []) t).1.store
              (object_key (new_object t unknown_type arg))
            ≡ missing)
  unfolding touch_or_delete with_object
  touch_or_delete-gone arg o t hk s l p h =
      let into = new_object t unknown_type arg in
      ground (
        arith,
        h,
        new_object-unknown t arg,
        get_txn_object-live (object_key into) into false (present o) t hk s l,
        delete_key-ok laws (object_key into) (decoded o into) t.now minus_count t
            (object_key-data into) (inl (ground (arith, p))) h,
      )

no_options-ok : {F : Type 0} → expire_options {F = F} [] ≡ ok no_option
unfolding expire_options get_check_option
no_options-ok = refl

module _ {kv : Kv} (draw : ℤ → ℤ) where
  expire-eq :
      (arg : Bytes) (new : ℤ) (o : Object) (t : Txn kv)
      → length (object_key (new_object t unknown_type arg)) < max_key_size
      → Stored t (object_key (new_object t unknown_type arg)) (present o)
      → IsLive t.now (present o)
      → expire draw arg [] new false t
        ≡ expire_object draw no_option new
            (object_key (new_object t unknown_type arg))
            (decoded o (new_object t unknown_type arg))
            t
  unfolding expire with_object
  expire-eq arg new o t hk s l =
      let into = new_object t unknown_type arg in
      ground (
        arith,
        no_options-ok {F = kv.Fault},
        new_object-unknown t arg,
        get_txn_object-live (object_key into) into true (present o) t hk s l,
      )

  expire_object-past :
      (new : ℤ) (key : Bytes) (o : Object) (t : Txn kv)
      → leb_ℤ new t.now ≡ true
      → expire_object draw no_option new key o t
        ≡ (delete_key key o t.now minus_count >> pure (pos 1)) t
  unfolding expire_object
  expire_object-past new key o t h = rw h refl

  expire_handle-eq :
      (arg seconds : Bytes) (n : ℤ) (t : Txn kv)
      → parse_int seconds ≡ some n
      → bad_seconds n ≡ false
      → expire_handle draw (arg ∷ seconds ∷ []) t
        ≡ expire_reply (expire draw arg [] (wrap_int64 (t.now +ℤ millis n)) false) t
  unfolding expire_handle
  expire_handle-eq arg seconds n t p g = ground (arith, p, g)

module _ {kv : Kv} (laws : KvLaws kv) (draw : ℤ → ℤ) where
  -- EXPIRE of a key that has not expired, by a number of seconds that passes its guard but gives a time
  -- past the largest int64 value: if the deletion succeeds, it replies 1 and the key is gone.
  pub expire_handle-gone :
      (arg seconds : Bytes) (now n : ℕ) (o : Object) (t : Txn kv)
      → t.now ≡ pos now
      → 0 < now
      → IsInt64 (pos now)
      → parse_int seconds ≡ some (pos n)
      → bad_seconds (pos n) ≡ false
      → max_int64 <ℤ pos (now + n * 1000)
      → length (object_key (new_object t unknown_type arg)) < max_key_size
      → Stored t (object_key (new_object t unknown_type arg)) (present o)
      → IsLive t.now (present o)
      → (delete_key
          (object_key (new_object t unknown_type arg))
          (decoded o (new_object t unknown_type arg))
          t.now
          minus_count
          t).0
        ≡ ok tt
      → ((expire_handle draw (arg ∷ seconds ∷ []) t).0 ≡ simple_int (pos 1))
        × (kv.get
              (expire_handle draw (arg ∷ seconds ∷ []) t).1.store
              (object_key (new_object t unknown_type arg))
            ≡ missing)
  unfolding expire_reply
  expire_handle-gone arg seconds now n o t e z i p g m hk s l h =
      let into = new_object t unknown_type arg in
      let k = object_key into in
      let new = wrap_int64 (t.now +ℤ millis (pos n)) in
      let past : leb_ℤ new t.now ≡ true = rw e (expire_time-wrapped now n i g m) in
      let same = expire_handle-eq draw arg seconds (pos n) t p g in
      let run =
        expire-eq draw arg new o t hk s l ∙ expire_object-past draw new k (decoded o into) t past in
      let gone =
        delete_key-ok laws k (decoded o into) t.now minus_count t (object_key-data into)
          (inl (ground (arith, e, z))) h in
      ground (arith, same, run, gone, h)
