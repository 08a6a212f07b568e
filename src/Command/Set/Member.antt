-- ===== src/Command/Set/Member.antt =====
-- SISMEMBER after SADD and SREM, on one transaction.
use lancelot.Base.{
  ℕ, ◌+◌, ◌<◌, ◌≡◌, refl, sym, ap, ◌∙◌, subst, Bool, true, false, ◌||◌, none, some, List, [], ◌∷◌,
  inl, inr, Bool-cases, Bytes, arith, length, bytes_eq, bytes_eq→eq,
}
use lancelot.Base.Int.{ℤ, pos}
use lancelot.Store.Kv.{Kv, KvLaws, Found, found, missing}
use lancelot.Store.Error.{Result, ok, Result-cases}
use lancelot.Store.Txn.{Txn, pure, max_key_size}
use lancelot.Store.Txn.Frame.{
  Touches, Touches-pure, Touches-state, Touches-unchanged, Touches-bind, bind_ok,
}
use lancelot.Command.Object.{Object, Slice, object_value_key, set_type}
use lancelot.Command.Access.Reads.{Content, absent, present}
use lancelot.Command.Access.Writes.{KeyOrCount}
use lancelot.Command.Elements.{find, put_or_delete_kv}
use lancelot.Command.Elements.Laws.{
  left_at, find-unchanged, find-get, find-left_at, put_or_delete_kv-Touches, put_or_delete_kv-ok,
  object_value_key-not_count,
}
use lancelot.Command.Elements.Open.{
  Holds, HasObject, IsShortKey, opened, ElementOrCount, with_object-present, with_object-absent,
}
use lancelot.Command.Elements.Run.{element_key}
use lancelot.Command.Hash.Write.{element}
use lancelot.Command.Hash.Write.Laws.{is_named, at-field, vk-differ}
use lancelot.Command.Set.Read.{sismember, is_member, flag_of}
use lancelot.Command.Set.Write.{add_old, add_member, sadd_loop}

module _ {kv : Kv} (laws : KvLaws kv) where
  add_old-Touches :
      (o : Object) (m : Bytes) (old : Slice)
      → Touches {kv = kv} (KeyOrCount (object_value_key o m)) (add_old o m old)
  unfolding add_old
  add_old-Touches o m none =
      Touches-state (λ t. _)
        (λ t.
          Touches-bind _ _
            (put_or_delete_kv-Touches laws o (object_value_key o m) (some (element [] t)) (pos 1))
            (λ _. Touches-pure 1))
  add_old-Touches o m (some raw) = Touches-pure 0

  add_member-Touches :
      (o : Object) (m : Bytes)
      → Touches {kv = kv} (KeyOrCount (object_value_key o m)) (add_member o m)
  unfolding add_member
  add_member-Touches o m =
      Touches-bind _ _ (Touches-unchanged _ (find-unchanged (object_value_key o m)))
        (add_old-Touches o m)

  -- The loop of SADD changes elements and counts, and nothing else.
  pub sadd_loop-Touches :
      (o : Object) (ms : List Bytes) (n : ℕ) → Touches {kv = kv} ElementOrCount (sadd_loop o ms n)
  unfolding sadd_loop
  sadd_loop-Touches o [] n = Touches-pure n
  sadd_loop-Touches o (m ∷ ms) n =
      Touches-bind _ _ (at-field laws o m _ (add_member-Touches o m))
        (λ k. sadd_loop-Touches o ms (n + k))

  -- The element of a member is there.
  abbrev pub IsThere : Found kv.Fault → Type 0
  IsThere g = (raw : Bytes) × (g ≡ found raw)

  add_member-ok :
      (o : Object) (m : Bytes) (n : ℕ) (t : Txn kv)
      → (add_member o m t).0 ≡ ok n
      → IsThere (kv.get (add_member o m t).1.store (object_value_key o m))
  unfolding add_member add_old
  add_member-ok o m n t h =
      let k = object_value_key o m in
      let same = find-unchanged k t in
      elim (Result-cases (find k t).0) [
        | inl (none, e) ↦
            elim (Result-cases (put_or_delete_kv o k (some (element [] t)) (pos 1) t).0) [
              | inl (c, d) ↦ (
                element [] t,
                ground (
                  arith,
                  h,
                  e,
                  same,
                  d,
                  put_or_delete_kv-ok laws o k (some (element [] t)) (pos 1) t c
                      (object_value_key-not_count o m) d,
                ),
              )
              | inr (x, d) ↦ absurd (ground (arith, h, e, same, d))
            ]
        | inl (some raw, e) ↦ (raw, ground (arith, h, e, same, find-get k t (some raw) e))
        | inr (x, e) ↦ absurd (ground (arith, h, e))
      ]

  -- A member that SADD names is there afterwards, and any other is as it was.
  abbrev pub Added : Bool → Found kv.Fault → Found kv.Fault → Type 0
  Added true before after = IsThere after
  Added false before after = after ≡ before

  add_member-Added :
      (o : Object) (m j : Bytes) (n : ℕ) (t : Txn kv)
      → (add_member o m t).0 ≡ ok n
      → Added
          (bytes_eq m j)
          (kv.get t.store (object_value_key o j))
          (kv.get (add_member o m t).1.store (object_value_key o j))
  add_member-Added o m j n t h = elim (Bool-cases (bytes_eq m j)) [
    | inl e ↦ rw e (
        subst (λ x. IsThere (kv.get (add_member o m t).1.store (object_value_key o x)))
          (bytes_eq→eq m j e) (add_member-ok o m n t h))
    | inr e ↦
        rw e ((add_member-Touches o m).others t (object_value_key o j) (vk-differ laws o m j e))
  ]

  Added-trans :
      (a b : Bool) (x y z : Found kv.Fault) → Added a x y → Added b y z → Added (a || b) x z
  Added-trans true true x y z h k = k
  Added-trans true false x y z (raw, e) k = (raw, k ∙ e)
  Added-trans false true x y z h k = k
  Added-trans false false x y z h k = k ∙ h

  pub sadd_loop-Added :
      (o : Object) (ms : List Bytes) (n r : ℕ) (j : Bytes) (t : Txn kv)
      → (sadd_loop o ms n t).0 ≡ ok r
      → Added
          (is_named j ms)
          (kv.get t.store (object_value_key o j))
          (kv.get (sadd_loop o ms n t).1.store (object_value_key o j))
  unfolding sadd_loop
  sadd_loop-Added o [] n r j t h = refl
  sadd_loop-Added o (m ∷ ms) n r j t h = elim (Result-cases (add_member o m t).0) [
    | inr (x, e) ↦ absurd (ground (arith, h, e))
    | inl (c, e) ↦
        (let u = (add_member o m t).1 in
          let step = bind_ok (add_member o m) (λ k. sadd_loop o ms (n + k)) t c e in
          let k = object_value_key o j in
          subst
            (λ (x : Result kv.Fault ℕ × Txn kv).
              Added (is_named j (m ∷ ms)) (kv.get t.store k) (kv.get x.1.store k))
            (sym step)
            (Added-trans (bytes_eq m j) (is_named j ms) _ (kv.get u.store k) _
              (add_member-Added o m j c t e)
              (sadd_loop-Added o ms (n + c) r j u
                (ap (λ (x : Result kv.Fault ℕ × Txn kv). x.0) (sym step) ∙ h))))
  ]

module _ {kv : Kv} where
  -- SISMEMBER of a live set looks for the element.
  pub sismember-eq :
      (key m : Bytes) (p : Object) (t : Txn kv)
      → IsShortKey t set_type key
      → HasObject t set_type key p
      → sismember key m t ≡ is_member m (opened t set_type key p) t
  unfolding sismember
  sismember-eq key m p t hk h =
      with_object-present t set_type key p false (λ _. pure (pos 0)) (is_member m) hk h

  pub sismember-absent :
      (key m : Bytes) (t : Txn kv)
      → IsShortKey t set_type key
      → Holds t set_type key absent
      → sismember key m t ≡ (ok (pos 0), t)
  unfolding sismember
  sismember-absent key m t hk h =
      with_object-absent t set_type key false (λ _. pure (pos 0)) (is_member m) hk h

  pub is_member-flag_of :
      (m : Bytes) (o : Object) (raw : Slice) (t : Txn kv)
      → length (object_value_key o m) < max_key_size
      → kv.get t.store (object_value_key o m) ≡ left_at kv.Fault raw
      → is_member m o t ≡ (ok (flag_of raw), t)
  unfolding is_member
  is_member-flag_of m o raw t hm h = rw (find-left_at (object_value_key o m) t raw hm h) refl

  pub is_member-ok :
      (m : Bytes) (o : Object) (n : ℤ) (t : Txn kv)
      → (is_member m o t).0 ≡ ok n
      → (raw : Slice) × (kv.get t.store (object_value_key o m) ≡ left_at kv.Fault raw)
        × (n ≡ flag_of raw)
  unfolding is_member
  is_member-ok m o n t h = elim (Result-cases (find (object_value_key o m) t).0) [
    | inl (raw, e) ↦ (raw, (find-get _ t raw e).0, ground (arith, h, e))
    | inr (x, e) ↦ absurd (ground (arith, h, e))
  ]

  -- The UUID is new: where SADD makes the set, there is no element below its UUID yet.
  abbrev pub IsFreshSet : Bytes → Txn kv → Bytes → Content → Type 0
  IsFreshSet id t key absent =
      (m : Bytes) → kv.get t.store (element_key set_type id t key absent m) ≡ missing
  IsFreshSet id t key (present p) = Unit

  -- What SISMEMBER has answered, and the element that it has looked for.
  pub record Before (id : Bytes) (t : Txn kv) (key m : Bytes) (c : Content) (n : ℤ) : Type 0 where
    pub raw : Slice
    pub holds_raw : kv.get t.store (element_key set_type id t key c m) ≡ left_at kv.Fault raw
    pub flag : n ≡ flag_of raw

  pub sismember-Before :
      (id key m : Bytes) (c : Content) (n : ℤ) (t : Txn kv)
      → IsShortKey t set_type key
      → Holds t set_type key c
      → IsFreshSet id t key c
      → (sismember key m t).0 ≡ ok n
      → Before id t key m c n
  sismember-Before id key m absent n t hk s new h = record {
    raw = none;
    holds_raw = new m;
    flag = ground (arith, h, sismember-absent key m t hk s);
  }
  sismember-Before id key m (present p) n t hk s new h =
      let (raw, e, same) =
        is_member-ok m (opened t set_type key p) n t
          (ap (λ x. x.0) (sym (sismember-eq key m p t hk s)) ∙ h) in
      record { raw = raw; holds_raw = e; flag = same }
