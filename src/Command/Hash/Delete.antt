-- ===== src/Command/Hash/Delete.antt =====
-- HGET after HDEL, on one transaction.
use lancelot.Base.{
  ℕ, ◌<◌, ◌≡◌, sym, ap, ◌∙◌, subst, Bool, true, false, none, List, ◌∷◌, inl, inr, Bytes, arith,
  length, if◌then◌else◌,
}
use lancelot.Base.Int.{ℤ, pos}
use lancelot.Store.Kv.{Kv, KvLaws, missing}
use lancelot.Store.Error.{Result, ok, Result-cases}
use lancelot.Store.Txn.{Txn, Exec, pure, max_key_size, ◌>>=◌}
use lancelot.Command.Object.{Object, Slice, object_key, object_value_key, hash_type}
use lancelot.Command.Object.Codec.{decoded}
use lancelot.Command.Access.Reads.{Content, absent, present}
use lancelot.Command.Elements.Laws.{left_at}
use lancelot.Command.Elements.Open.{
  Holds, HasObject, IsShortKey, opened, new_object-SameSession, HasObject-Touches,
  with_object-present, with_object-absent,
}
use lancelot.Command.Reply.{
  Reply, simple_int, respond, reply_of, respond-eq, respond-pure, set_error,
}
use lancelot.Command.Hash.Read.{hget, get_field}
use lancelot.Command.Hash.Write.{hdel_handle, remove_loop}
use lancelot.Command.Hash.Write.Laws.{is_named, remove_loop-get, remove_loop-Touches}
use lancelot.Command.Hash.Get.{
  shown, hget-eq, hget-absent, get_field-ok, get_field-shown, field_key-short,
}

module _ {kv : Kv} where
  abbrev removed : Object → List Bytes → Exec kv (Reply kv.Fault)
  removed o fields = remove_loop o fields 0 >>= λ n. pure (simple_int (pos n))

  hdel-present :
      (key f : Bytes) (fs : List Bytes) (p : Object) (t : Txn kv)
      → IsShortKey t hash_type key
      → HasObject t hash_type key p
      → hdel_handle (key ∷ f ∷ fs) t ≡ respond (removed (opened t hash_type key p) (f ∷ fs)) t
  unfolding hdel_handle
  hdel-present key f fs p t hk h = respond-eq _ _ t t (
      with_object-present t hash_type key p false (λ _. pure (simple_int (pos 0)))
        (λ o. removed o (f ∷ fs)) hk h)

  hdel-absent :
      (key f : Bytes) (fs : List Bytes) (t : Txn kv)
      → IsShortKey t hash_type key
      → Holds t hash_type key absent
      → hdel_handle (key ∷ f ∷ fs) t ≡ (simple_int (pos 0), t)
  unfolding hdel_handle
  hdel-absent key f fs t hk h =
      respond-eq _ _ t t (
        with_object-absent t hash_type key false (λ _. pure (simple_int (pos 0)))
          (λ o. removed o (f ∷ fs)) hk h)
      ∙ respond-pure (simple_int (pos 0)) t

  -- A HDEL that answers with a number has run its loop.
  removed-ok :
      (o : Object) (fields : List Bytes) (n : ℤ) (t : Txn kv)
      → (respond (removed o fields) t).0 ≡ simple_int n
      → ((respond (removed o fields) t).1 ≡ (remove_loop o fields 0 t).1)
        × ((m : ℕ) × ((remove_loop o fields 0 t).0 ≡ ok m))
  unfolding respond reply_of set_error
  removed-ok o fields n t h = elim (Result-cases (remove_loop o fields 0 t).0) [
    | inl (m, e) ↦ (ground (arith, e), (m, e))
    | inr (x, e) ↦ absurd (ground (arith, h, e))
  ]

module _ {kv : Kv} where
  get_field-removed :
      (j : Bytes) (o : Object) (raw : Slice) (gone : Bool) (u : Txn kv)
      → length (object_value_key o j) < max_key_size
      → kv.get u.store (object_value_key o j) ≡ (if gone then missing else left_at kv.Fault raw)
      → (get_field j o u).0 ≡ ok (if gone then none else shown raw)
  get_field-removed j o raw true u hf e =
      ap (λ (x : Result kv.Fault Slice × Txn kv). x.0) (get_field-shown j o none u hf e)
  get_field-removed j o raw false u hf e =
      ap (λ (x : Result kv.Fault Slice × Txn kv). x.0) (get_field-shown j o raw u hf e)

module _ {kv : Kv} (laws : KvLaws kv) where
  -- At a key below the size limit that holds nothing or a hash that has not expired: after a HDEL
  -- that answers with a number, HGET of a field of less than 4075 bytes finds nothing if HDEL named
  -- the field, and what it found before otherwise.
  pub hget-hdel_handle :
      (key f j : Bytes) (fs : List Bytes) (c : Content) (t : Txn kv) (n : ℤ) (old : Slice)
      → IsShortKey t hash_type key
      → Holds t hash_type key c
      → length j < 4075
      → (hget key j t).0 ≡ ok old
      → (hdel_handle (key ∷ f ∷ fs) t).0 ≡ simple_int n
      → (hget key j (hdel_handle (key ∷ f ∷ fs) t).1).0
        ≡ ok (if is_named j (f ∷ fs) then none else old)
  hget-hdel_handle key f j fs absent t n old hk s hf hold h =
      let same = hdel-absent key f fs t hk s in
      let nothing = hget-absent key j t hk s in ground (arith, same, nothing, hold)
  hget-hdel_handle key f j fs (present p) t n old hk s hf hold h =
      let o = opened t hash_type key p in
      let u = (remove_loop o (f ∷ fs) 0 t).1 in
      let whole = hdel-present key f fs p t hk s in
      let (after, (m, done)) =
        removed-ok o (f ∷ fs) n t (ap (λ (x : Reply kv.Fault × Txn kv). x.0) (sym whole) ∙ h) in
      let frame = remove_loop-Touches laws o (f ∷ fs) 0 in
      let has = HasObject-Touches t hash_type key p (remove_loop o (f ∷ fs) 0) frame s in
      let here = new_object-SameSession hash_type key t u (frame.session t) in
      let short = subst (λ x. length (object_key x) < max_key_size) (sym here) hk in
      let same : object_value_key (opened u hash_type key p) j ≡ object_value_key o j =
        ap (λ x. object_value_key (decoded p x) j) here in
      let small =
        subst (λ x. length x < max_key_size) (sym same)
          (field_key-short t key j p has.0.1 has.2 hf) in
      let (raw, e, shows) =
        get_field-ok j o old t (
          ap (λ (x : Result kv.Fault Slice × Txn kv). x.0) (sym (hget-eq key j p t hk s)) ∙ hold) in
      ap (λ (x : Reply kv.Fault × Txn kv). (hget key j x.1).0) whole
      ∙ ap (λ (x : Txn kv). (hget key j x).0) after
      ∙ ap (λ (x : Result kv.Fault Slice × Txn kv). x.0) (hget-eq key j p u short has)
      ∙ get_field-removed j (opened u hash_type key p) raw (is_named j (f ∷ fs)) u small (
          ap (kv.get u.store) same
          ∙ remove_loop-get laws o (f ∷ fs) 0 m j t done
          ∙ ap (λ x. if is_named j (f ∷ fs) then missing else x) e)
      ∙ ap (λ x. ok (if is_named j (f ∷ fs) then none else x)) (sym shows)
