-- ===== src/Command/Hash/Get.antt =====
-- HGET after HSET and after HDEL, on one transaction.
use lancelot.Base.{
  ℕ, ◌^◌, ◌<◌, ◌≡◌, refl, sym, ap, ◌∙◌, subst, false, none, some, List, inl, inr, Bytes, arith,
  length,
}
use lancelot.Store.Kv.{Kv, KvLaws, Found, found, missing}
use lancelot.Store.Error.{Result, ok, Result-cases}
use lancelot.Store.Txn.{Txn, pure, max_key_size}
use lancelot.Store.Txn.Laws.{SameSession}
use lancelot.Command.Object.{Object, Slice, object_key, object_value_key, hash_type, is_simple}
use lancelot.Command.Object.Codec.{IsEncodable, decoded}
use lancelot.Command.Access.Reads.{Content, absent, present}
use lancelot.Command.Elements.{find}
use lancelot.Command.Elements.Codec.{decode_value-encode_value}
use lancelot.Command.Elements.Laws.{left_at, find-get, find-left_at}
use lancelot.Command.Elements.Open.{
  Holds, HasObject, IsShortKey, opened, new_object-SameSession, with_object-present,
  with_object-absent,
}
use lancelot.Command.Elements.Create.{Fits, stored_object}
use lancelot.Command.Elements.Run.{element_key, element_key-short, get_or_create-Ran, Ran-HasObject}
use lancelot.Command.Hash.Read.{hget, get_field, value_slice}
use lancelot.Command.Hash.Write.{element, hset, hset_loop}
use lancelot.Command.Hash.Write.Laws.{
  element-SameSession, given, updated, hset_loop-get, hset_loop-Touches,
}

-- What HGET makes of an element.
abbrev pub shown : Slice → Slice
shown none = none
shown (some raw) = value_slice raw

hash-not_simple : (p : Object) → p.typo ≡ hash_type → is_simple p ≡ false
unfolding is_simple
hash-not_simple p i = ground (arith, i)

module _ {kv : Kv} where
  -- HGET of a live hash reads the element.
  pub hget-eq :
      (key f : Bytes) (p : Object) (t : Txn kv)
      → IsShortKey t hash_type key
      → HasObject t hash_type key p
      → hget key f t ≡ get_field f (opened t hash_type key p) t
  unfolding hget
  hget-eq key f p t hk h =
      with_object-present t hash_type key p false (λ _. pure none) (get_field f) hk h

  pub hget-absent :
      (key f : Bytes) (t : Txn kv)
      → IsShortKey t hash_type key
      → Holds t hash_type key absent
      → hget key f t ≡ (ok none, t)
  unfolding hget
  hget-absent key f t hk h =
      with_object-absent t hash_type key false (λ _. pure none) (get_field f) hk h

  pub get_field-shown :
      (f : Bytes) (o : Object) (s : Slice) (t : Txn kv)
      → length (object_value_key o f) < max_key_size
      → kv.get t.store (object_value_key o f) ≡ left_at kv.Fault s
      → get_field f o t ≡ (ok (shown s), t)
  unfolding get_field
  get_field-shown f o none t hf h = rw (find-left_at (object_value_key o f) t none hf h) refl
  get_field-shown f o (some raw) t hf h =
      rw (find-left_at (object_value_key o f) t (some raw) hf h) refl

  -- What a HGET of a live hash that succeeds tells of the element.
  pub get_field-ok :
      (f : Bytes) (o : Object) (old : Slice) (t : Txn kv)
      → (get_field f o t).0 ≡ ok old
      → (s : Slice) × (kv.get t.store (object_value_key o f) ≡ left_at kv.Fault s) × (old ≡ shown s)
  unfolding get_field
  get_field-ok f o old t h = elim (Result-cases (find (object_value_key o f) t).0) [
    | inl (none, e) ↦ (none, (find-get _ t none e).0, ground (arith, h, e))
    | inl (some raw, e) ↦ (some raw, (find-get _ t (some raw) e).0, ground (arith, h, e))
    | inr (x, e) ↦ absurd (ground (arith, h, e))
  ]

  pub field_key-short :
      (t : Txn kv) (key f : Bytes) (p : Object)
      → IsEncodable p
      → p.typo ≡ hash_type
      → length f < 4075
      → length (object_value_key (opened t hash_type key p) f) < max_key_size
  field_key-short t key f p e i hf =
      element_key-short hash_type t key f p e (hash-not_simple p i) hf

  -- The key of a field of the hash that HSET works on.
  abbrev pub field_key : Bytes → Txn kv → Bytes → Content → Bytes → Bytes
  field_key id t key c f = element_key hash_type id t key c f

  -- A UUID that is new: where HSET makes the hash, there is no element below its UUID yet.
  abbrev pub IsFresh : Bytes → Txn kv → Bytes → Content → Type 0
  IsFresh id t key absent = (f : Bytes) → kv.get t.store (field_key id t key absent f) ≡ missing
  IsFresh id t key (present p) = Unit

  -- What HGET has answered, and the element that it has read.
  record Before (id : Bytes) (t : Txn kv) (key f : Bytes) (c : Content) (old : Slice) : Type 0 where
    raw : Slice
    holds_raw : kv.get t.store (field_key id t key c f) ≡ left_at kv.Fault raw
    old_shown : old ≡ shown raw

  hget-Before :
      (id key f : Bytes) (c : Content) (old : Slice) (t : Txn kv)
      → IsShortKey t hash_type key
      → Holds t hash_type key c
      → IsFresh id t key c
      → (hget key f t).0 ≡ ok old
      → Before id t key f c old
  hget-Before id key f absent old t hk s new h = record {
    raw = none;
    holds_raw = new f;
    old_shown = ground (arith, h, hget-absent key f t hk s);
  }
  hget-Before id key f (present p) old t hk s new h =
      let (raw, e, same) =
        get_field-ok f (opened t hash_type key p) old t
          (ap (λ x. x.0) (sym (hget-eq key f p t hk s)) ∙ h) in
      record { raw = raw; holds_raw = e; old_shown = same }

module _ {kv : Kv} (laws : KvLaws kv) where
  -- A HSET that succeeds: the key has the hash, and its elements have the values that are given.
  record AfterSet (id key f : Bytes) (args : List Bytes) (c : Content) (t u : Txn kv) : Type 0 where
    session : SameSession t u
    has : HasObject u hash_type key (stored_object id t hash_type key c)
    element_is :
        kv.get u.store (field_key id t key c f)
        ≡ updated (given f args) (kv.get t.store (field_key id t key c f)) t

  updated-SameSession :
      (v : Slice) (b : Found kv.Fault) (t t' : Txn kv)
      → SameSession t t'
      → updated v b t' ≡ updated v b t
  updated-SameSession none b t t' h = refl
  updated-SameSession (some v) b t t' h = ap (λ x. found x) (element-SameSession v t t' h)

  hset-AfterSet :
      (id key f : Bytes) (args : List Bytes) (c : Content) (t : Txn kv) (n : ℕ)
      → Fits t hash_type key id
      → Holds t hash_type key c
      → (hset (ok id) key args false t).0 ≡ ok n
      → AfterSet id key f args c t (hset (ok id) key args false t).1
  unfolding hset
  hset-AfterSet id key f args c t n fits s h =
      let loop = λ (o : Object). hset_loop {kv = kv} o false args 0 in
      let r = get_or_create-Ran laws hash_type id key c t loop n fits s h in
      let (session, has) =
        Ran-HasObject laws hash_type id key c t loop n (λ o. hset_loop-Touches laws o false args 0)
          r in
      let k = field_key id t key c f in
      subst (λ (x : Result kv.Fault ℕ × Txn kv). AfterSet id key f args c t x.1) (sym r.run)
        (record {
          session = session;
          has = has;
          element_is =
              ap (kv.get (loop r.object r.mid).1.store) (sym (r.same_key f))
              ∙ hset_loop-get laws r.object args 0 n f r.mid r.done
              ∙ ap (λ x. updated (given f args) (kv.get r.mid.store x) r.mid) (r.same_key f)
              ∙ ap (λ x. updated (given f args) x r.mid) (r.before f)
              ∙ updated-SameSession (given f args) (kv.get t.store k) t r.mid r.session;
        })

  value_slice-element :
      (v : Bytes) (t : Txn kv) → t.timestamp < 2 ^ 64 → value_slice (element v t) ≡ some v
  unfolding element
  value_slice-element v t ht =
      rw (value_slice, decode_value-encode_value (record { timestamp = t.timestamp; value = v }) ht)
        refl

  get_field-updated :
      (f : Bytes) (o : Object) (raw v : Slice) (u t : Txn kv)
      → length (object_value_key o f) < max_key_size
      → t.timestamp < 2 ^ 64
      → kv.get u.store (object_value_key o f) ≡ updated v (left_at kv.Fault raw) t
      → (get_field f o u).0 ≡ ok (elim v [ none ↦ shown raw | some w ↦ some w ])
  get_field-updated f o raw none u t hf ht e =
      ap (λ (x : Result kv.Fault Slice × Txn kv). x.0) (get_field-shown f o raw u hf e)
  get_field-updated f o raw (some w) u t hf ht e =
      ap (λ (x : Result kv.Fault Slice × Txn kv). x.0)
        (get_field-shown f o (some (element w t)) u hf e)
      ∙ ap ok (value_slice-element w t ht)

  -- At a key below the size limit that holds nothing or a hash that has not expired, with a UUID of
  -- 16 bytes below which nothing is stored yet where a hash is made, and the timestamp and the
  -- configured hash in the range of their fields: after a HSET that succeeds, HGET of a field of less
  -- than 4075 bytes gives the last value that HSET gave the field, and what HGET gave before if it
  -- gave none.
  pub hget-hset :
      (id key f : Bytes) (args : List Bytes) (c : Content) (t : Txn kv) (n : ℕ) (old : Slice)
      → Fits t hash_type key id
      → Holds t hash_type key c
      → IsFresh id t key c
      → length f < 4075
      → (hget key f t).0 ≡ ok old
      → (hset (ok id) key args false t).0 ≡ ok n
      → (hget key f (hset (ok id) key args false t).1).0
        ≡ ok (elim (given f args) [ none ↦ old | some v ↦ some v ])
  hget-hset id key f args c t n old fits s new hf hold h =
      let u = (hset (ok id) key args false t).1 in
      let p = stored_object id t hash_type key c in
      let after = hset-AfterSet id key f args c t n fits s h in
      let before = hget-Before id key f c old t fits.short_key s new hold in
      let here = new_object-SameSession hash_type key t u after.session in
      let short = subst (λ x. length (object_key x) < max_key_size) (sym here) fits.short_key in
      let same : object_value_key (opened u hash_type key p) f ≡ field_key id t key c f =
        ap (λ x. object_value_key (decoded p x) f) here in
      let small =
        subst (λ x. length x < max_key_size) (sym same)
          (field_key-short t key f p after.has.0.1 after.has.2 hf) in
      ap (λ (x : Result kv.Fault Slice × Txn kv). x.0) (hget-eq key f p u short after.has)
      ∙ get_field-updated f (opened u hash_type key p) before.raw (given f args) u t small
          fits.timestamp_range
          (ap (kv.get u.store) same
            ∙ after.element_is
            ∙ ap (λ x. updated (given f args) x t) before.holds_raw)
      ∙ ap (λ x. ok (elim (given f args) [ none ↦ x | some v ↦ some v ])) (sym before.old_shown)
