-- ===== src/Command/Strings/Write/Get.antt =====
-- GET after setString with no expiry and no check, which is what MSET does for each of its pairs.
use lancelot.Base.{
  ℕ, subst, ◌<◌, ◌^◌, ◌≡◌, ◌≢◌, refl, sym, ap, ◌∙◌, false, some, inl, inr, Bytes, arith, length,
}
use lancelot.Base.Int.{ℤ, pos}
use lancelot.Store.Kv.{Kv, KvLaws, found}
use lancelot.Store.Error.{ok}
use lancelot.Store.Txn.{Txn, max_key_size}
use lancelot.Store.Txn.Laws.{SameSession}
use lancelot.Command.Object.{
  Object, bytes_of, object_encode, object_key, is_simple, get_key_bytes, string_type,
}
use lancelot.Command.Object.Keys.{object_key-injective}
use lancelot.Command.Object.Codec.{IsEncodable, decoded}
use lancelot.Command.Access.{new_object, with_object}
use lancelot.Command.Access.Reads.{
  Content, absent, present, Stored, IsLive, is_expired, get_txn_object-live,
}
use lancelot.Command.Access.Writes.{DeletedKeys}
use lancelot.Command.Strings.Read.{get_string}
use lancelot.Command.Strings.Write.{no_check, set_string, store_string}
use lancelot.Command.Strings.Write.Laws.{
  rewritten, IsStringContent, found_object, set_change, store_string-Touches, store_string-ok,
  set_string-eq, object_key-first,
}

module _ {kv : Kv} where
  pub get_string-present :
      (key : Bytes) (o : Object) (t : Txn kv)
      → length (object_key (new_object t string_type key)) < max_key_size
      → Stored t (object_key (new_object t string_type key)) (present o)
      → IsLive t.now (present o)
      → o.typo ≡ string_type
      → get_string key t ≡ (ok (some (bytes_of o.value)), t)
  unfolding get_string with_object decoded
  get_string-present key o t hk s l i =
      let into = new_object t string_type key in
      ground (arith, get_txn_object-live (object_key into) into false (present o) t hk s l)

  found_object-IsEncodable :
      (value : Bytes) (key k : Bytes) (c : Content) (t : Txn kv)
      → Stored t k c
      → IsStringContent c
      → t.timestamp < 2 ^ 64
      → t.config.object_hash < 2 ^ 16
      → IsEncodable (rewritten value t.timestamp (found_object c (new_object t string_type key)))
  unfolding new_object is_simple decoded
  found_object-IsEncodable value key k absent t s i ht hh = record {
    ttl_range = ground arith;
    timestamp_range = ht;
    hash_range = ground arith;
    no_extra = λ e. refl;
    uuid = λ e. absurd (ground arith);
  }
  found_object-IsEncodable value key k (present o) t (s, e) i ht hh = record {
    ttl_range = e.ttl_range;
    timestamp_range = ht;
    hash_range = e.hash_range;
    no_extra = λ p. ground arith;
    uuid = λ p. absurd (ground arith);
  }

set_change-delete : (c : Content) → (set_change c).delete ≡ false
set_change-delete absent = refl
set_change-delete (present o) = refl

module _ {kv : Kv} where
  found_object-typo :
      (key : Bytes) (c : Content) (t : Txn kv)
      → IsStringContent c
      → (found_object c (new_object t string_type key)).typo ≡ string_type
  unfolding decoded new_object
  found_object-typo key absent t i = refl
  found_object-typo key (present o) t i = i

  found_object-live :
      (key : Bytes) (c : Content) (t : Txn kv)
      → IsLive t.now c
      → is_expired (found_object c (new_object t string_type key)).ttl t.now ≡ false
  unfolding decoded new_object
  found_object-live key absent t i = refl
  found_object-live key (present o) t i = i

  new_object-SameSession :
      (typo : ℕ) (key : Bytes) (t t' : Txn kv)
      → SameSession t t'
      → new_object t' typo key ≡ new_object t typo key
  unfolding new_object
  new_object-SameSession typo key t t' h = ap (λ (x : Txn kv). new_object x typo key) h

module _ {kv : Kv} (laws : KvLaws kv) (draw : ℤ → ℤ) where
  -- At a key below the size limit that holds nothing or a string that has not expired, with the
  -- timestamp and the configured hash in the range of their fields, after a setString with no expiry
  -- and no check, as MSET calls it, that succeeds, getString, which is what GET does, gives the value
  -- in the same transaction.
  pub get_string-set_string :
      (key value : Bytes) (c : Content) (t : Txn kv)
      → length (object_key (new_object t string_type key)) < max_key_size
      → t.timestamp < 2 ^ 64
      → t.config.object_hash < 2 ^ 16
      → Stored t (object_key (new_object t string_type key)) c
      → IsLive t.now c
      → IsStringContent c
      → (set_string draw key value (pos 0) no_check t).0 ≡ ok tt
      → get_string key (set_string draw key value (pos 0) no_check t).1
        ≡ (ok (some value), (set_string draw key value (pos 0) no_check t).1)
  get_string-set_string key value c t hk ht hh s l i done =
      let into = new_object t string_type key in
      let o = found_object c into in
      let k = object_key into in
      let t' = (store_string draw k value (pos 0) (set_change c) o t).1 in
      let same = set_string-eq draw key value (pos 0) c t hk s l i in
      let stored =
        store_string-ok laws draw k value (set_change c) o t (object_key-first into)
          (set_change-delete c) (ap (λ x. x.0) (sym same) ∙ done) in
      let session = (store_string-Touches laws draw k value (set_change c) o).session t in
      let e = found_object-IsEncodable value key k c t s i ht hh in
      let here = ap object_key (sym (new_object-SameSession string_type key t t' session)) in
      let live : is_expired o.ttl t'.now ≡ false =
        ap (λ (x : Txn kv). is_expired o.ttl x.now) session ∙ found_object-live key c t l in
      subst (λ x. get_string key x.1 ≡ (ok (some value), x.1)) (sym same)
        (get_string-present key (rewritten value t.timestamp o) t'
          (subst (λ x. length x < max_key_size) here hk)
          (
            subst (λ x. kv.get t'.store x ≡ found (object_encode (rewritten value t.timestamp o)))
                here stored,
            e,
          )
          live (found_object-typo key c t i))

  -- At a key below the size limit that holds nothing or a string that has not expired, for a user
  -- whose number is in the range of its field, a setString with no expiry and no check, as MSET calls
  -- it, leaves the object of every other key of the user and the database as it was, whether it
  -- succeeds or fails.
  pub set_string-others :
      (key other value : Bytes) (c : Content) (t : Txn kv)
      → length (object_key (new_object t string_type key)) < max_key_size
      → t.user_id < 2 ^ 16
      → Stored t (object_key (new_object t string_type key)) c
      → IsLive t.now c
      → IsStringContent c
      → other ≢ key
      → kv.get
          (set_string draw key value (pos 0) no_check t).1.store
          (object_key (new_object t string_type other))
        ≡ kv.get t.store (object_key (new_object t string_type other))
  unfolding new_object object_key get_key_bytes
  set_string-others key other value c t hk hu s l i ne =
      let into = new_object t string_type key in
      let j = object_key (new_object t string_type other) in
      let differ : ¬ DeletedKeys (object_key into) j = λ d. elim d [
        | inl (inl e) ↦
            (let (_, _, same) =
                object_key-injective (new_object t string_type other) into hu hu e in
              ne same)
        | inl (inr e) ↦ absurd (ground (arith, e))
        | inr e ↦ absurd (ground (arith, e))
      ] in
      subst (λ x. kv.get x.1.store j ≡ kv.get t.store j)
        (sym (set_string-eq draw key value (pos 0) c t hk s l i))
        ((store_string-Touches laws draw (object_key into) value (set_change c)
            (found_object c into)).others
          t j differ)
