-- ===== src/Command/Hash/Write/Laws.antt =====
-- HGET after HSET and after HDEL.
use mathlib.Core.List.{append-nil, append_assoc}
use lancelot.Base.{
  ℕ, ◌+◌, ◌≡◌, refl, sym, ap, ◌∙◌, subst, Bool, false, ◌||◌, none, some, List, [], ◌∷◌, ◌++◌, inl,
  inr, Bool-cases, Option-cases, Bytes, arith, if◌then◌else◌, bytes_eq, bytes_eq→eq, bytes_eq_refl,
}
use lancelot.Base.Int.{ℤ, pos, negsuc}
use lancelot.Store.Kv.{Kv, KvLaws, Found, found, missing}
use lancelot.Store.Error.{ok, Result-cases}
use lancelot.Store.Txn.{Txn, Exec, pure}
use lancelot.Store.Txn.Laws.{SameSession}
use lancelot.Store.Txn.Frame.{
  Touches, Touches-pure, Touches-if, Touches-state, Touches-unchanged, Touches-bind, Touches-weaken,
}
use lancelot.Command.Object.{Object, Slice, object_value_key, get_key_bytes}
use lancelot.Command.Access.Writes.{KeyOrCount}
use lancelot.Command.Elements.{find, put_or_delete_kv}
use lancelot.Command.Elements.Laws.{
  find-unchanged, find-get, put_or_delete_kv-Touches, put_or_delete_kv-ok,
  object_value_key-not_count,
}
use lancelot.Command.Elements.Open.{IsElementKey, ElementOrCount, object_value_key-IsElementKey}
use lancelot.Command.Hash.Write.{
  element, put_field, set_old, set_field, hset_loop, remove_old, remove_field, remove_loop,
}

append-cancel : (xs ys zs : Bytes) → xs ++ ys ≡ xs ++ zs → ys ≡ zs
append-cancel [] ys zs h = h
append-cancel (x ∷ xs) ys zs h = append-cancel xs ys zs (ground (arith, h))

pub object_value_key-append :
    (o : Object) (f : Bytes) → object_value_key o f ≡ object_value_key o [] ++ f
unfolding object_value_key get_key_bytes
object_value_key-append o f = simp (append-nil, append_assoc)

-- Two fields of one object have the same key only if they are the same.
pub object_value_key-injective :
    (o : Object) (f g : Bytes) → object_value_key o f ≡ object_value_key o g → f ≡ g
object_value_key-injective o f g h =
    append-cancel (object_value_key o []) f g
      (sym (object_value_key-append o f) ∙ h ∙ object_value_key-append o g)

-- The last value that the arguments of HSET give a field.
abbrev pub given : Bytes → List Bytes → Slice
given f (g ∷ v ∷ rest) =
    let later = given f rest in
    elim later [ some w ↦ some w | none ↦ if bytes_eq g f then some v else none ]
given f _ = none

abbrev pub is_named : Bytes → List Bytes → Bool
is_named j [] = false
is_named j (f ∷ fs) = bytes_eq f j || is_named j fs

module _ {kv : Kv} where
  -- What an element holds where a value is given, and what it held before otherwise.
  abbrev pub updated : Slice → Found kv.Fault → Txn kv → Found kv.Fault
  updated none before t = before
  updated (some v) before t = found (element v t)

  pub element-SameSession :
      (v : Bytes) (t t' : Txn kv) → SameSession t t' → element v t' ≡ element v t
  unfolding element
  element-SameSession v t t' h = ap (λ (x : Txn kv). element v x) h

module _ {kv : Kv} (laws : KvLaws kv) where
  pub at-field :
      {A : Type 0} (o : Object) (f : Bytes) (m : Exec kv A)
      → Touches (KeyOrCount (object_value_key o f)) m
      → Touches ElementOrCount m
  at-field o f m h = Touches-weaken h (λ j q. elim q [
    | inl e ↦ inl (subst IsElementKey (sym e) (object_value_key-IsElementKey o f))
    | inr c ↦ inr c
  ])

  put_field-Touches :
      (o : Object) (f v : Bytes) (delta : ℤ) (n : ℕ)
      → Touches {kv = kv} (KeyOrCount (object_value_key o f)) (put_field o f v delta n)
  unfolding put_field
  put_field-Touches o f v delta n =
      Touches-state (λ t. _)
        (λ t.
          Touches-bind _ _
            (put_or_delete_kv-Touches laws o (object_value_key o f) (some (element v t)) delta)
            (λ _. Touches-pure n))

  set_old-Touches :
      (o : Object) (check : Bool) (f v : Bytes) (old : Slice)
      → Touches {kv = kv} (KeyOrCount (object_value_key o f)) (set_old o check f v old)
  unfolding set_old
  set_old-Touches o check f v none = put_field-Touches o f v (pos 1) 1
  set_old-Touches o check f v (some w) =
      Touches-if check (pure 0) _ (Touches-pure 0) (put_field-Touches o f v (pos 0) 0)

  pub set_field-Touches :
      (o : Object) (check : Bool) (f v : Bytes)
      → Touches {kv = kv} (KeyOrCount (object_value_key o f)) (set_field o check f v)
  unfolding set_field
  set_field-Touches o check f v =
      Touches-bind _ _ (Touches-unchanged _ (find-unchanged (object_value_key o f)))
        (set_old-Touches o check f v)

  -- The loop of hset changes elements and counts, and nothing else.
  pub hset_loop-Touches :
      (o : Object) (check : Bool) (args : List Bytes) (n : ℕ)
      → Touches {kv = kv} ElementOrCount (hset_loop o check args n)
  unfolding hset_loop
  hset_loop-Touches o check [] n = Touches-pure n
  hset_loop-Touches o check (f ∷ []) n = Touches-pure n
  hset_loop-Touches o check (f ∷ v ∷ rest) n =
      Touches-bind _ _ (at-field o f _ (set_field-Touches o check f v))
        (λ m. hset_loop-Touches o check rest (n + m))

  remove_old-Touches :
      (o : Object) (f : Bytes) (old : Slice)
      → Touches {kv = kv} (KeyOrCount (object_value_key o f)) (remove_old o f old)
  unfolding remove_old
  remove_old-Touches o f none = Touches-pure 0
  remove_old-Touches o f (some v) =
      Touches-bind _ _ (put_or_delete_kv-Touches laws o (object_value_key o f) none (negsuc 0))
        (λ _. Touches-pure 1)

  pub remove_field-Touches :
      (o : Object) (f : Bytes)
      → Touches {kv = kv} (KeyOrCount (object_value_key o f)) (remove_field o f)
  unfolding remove_field
  remove_field-Touches o f =
      Touches-bind _ _ (Touches-unchanged _ (find-unchanged (object_value_key o f)))
        (remove_old-Touches o f)

  -- The loop of HDEL and SREM changes elements and counts, and nothing else.
  pub remove_loop-Touches :
      (o : Object) (fields : List Bytes) (n : ℕ)
      → Touches {kv = kv} ElementOrCount (remove_loop o fields n)
  unfolding remove_loop
  remove_loop-Touches o [] n = Touches-pure n
  remove_loop-Touches o (f ∷ fs) n =
      Touches-bind _ _ (at-field o f _ (remove_field-Touches o f))
        (λ m. remove_loop-Touches o fs (n + m))

  pub vk-differ :
      (o : Object) (f j : Bytes)
      → bytes_eq f j ≡ false
      → ¬ KeyOrCount (object_value_key o f) (object_value_key o j)
  vk-differ o f j ne (inl e) =
      absurd (ground (arith, ne, object_value_key-injective o j f e, bytes_eq_refl f))
  vk-differ o f j ne (inr c) = object_value_key-not_count o j c

  put_field-ok :
      (o : Object) (f v : Bytes) (delta : ℤ) (n m : ℕ) (t : Txn kv)
      → (put_field o f v delta n t).0 ≡ ok m
      → (m ≡ n)
        × (kv.get (put_field o f v delta n t).1.store (object_value_key o f) ≡ found (element v t))
  unfolding put_field
  put_field-ok o f v delta n m t h =
      let k = object_value_key o f in
      elim (Result-cases (put_or_delete_kv o k (some (element v t)) delta t).0) [
        | inl (c, e) ↦ ground (
          arith,
          h,
          e,
          put_or_delete_kv-ok laws o k (some (element v t)) delta t c
              (object_value_key-not_count o f) e,
        )
        | inr (x, e) ↦ absurd (ground (arith, h, e))
      ]

  -- A turn of HSET that succeeds: the field has the value, and the turn counts if it was new.
  set_field-ok :
      (o : Object) (f v : Bytes) (n : ℕ) (t : Txn kv)
      → (set_field o false f v t).0 ≡ ok n
      → kv.get (set_field o false f v t).1.store (object_value_key o f) ≡ found (element v t)
  unfolding set_field set_old
  set_field-ok o f v n t h =
      let k = object_value_key o f in
      let same = find-unchanged k t in
      elim (Result-cases (find k t).0) [
        | inl (none, e) ↦ ground (arith, h, e, same, put_field-ok o f v (pos 1) 1 n t)
        | inl (some w, e) ↦ ground (arith, h, e, same, put_field-ok o f v (pos 0) 0 n t)
        | inr (x, e) ↦ absurd (ground (arith, h, e))
      ]

  -- A turn of HSET that succeeds, at any field.
  set_field-get :
      (o : Object) (f v j : Bytes) (n : ℕ) (t : Txn kv)
      → (set_field o false f v t).0 ≡ ok n
      → kv.get (set_field o false f v t).1.store (object_value_key o j)
        ≡ (if bytes_eq f j then found (element v t) else kv.get t.store (object_value_key o j))
  set_field-get o f v j n t h = elim (Bool-cases (bytes_eq f j)) [
    | inl e ↦ rw e (
        subst
          (λ x.
            kv.get (set_field o false f v t).1.store (object_value_key o x) ≡ found (element v t))
          (bytes_eq→eq f j e) (set_field-ok o f v n t h))
    | inr e ↦
        rw e ((set_field-Touches o false f v).others t (object_value_key o j) (vk-differ o f j e))
  ]

  -- What the loop of HSET leaves of each field.
  pub hset_loop-get :
      (o : Object) (args : List Bytes) (n m : ℕ) (j : Bytes) (t : Txn kv)
      → (hset_loop o false args n t).0 ≡ ok m
      → kv.get (hset_loop o false args n t).1.store (object_value_key o j)
        ≡ updated (given j args) (kv.get t.store (object_value_key o j)) t
  unfolding hset_loop
  hset_loop-get o [] n m j t h = refl
  hset_loop-get o (f ∷ []) n m j t h = refl
  hset_loop-get o (f ∷ v ∷ rest) n m j t h = elim (Result-cases (set_field o false f v t).0) [
    | inl (c, e) ↦
        (let t' = (set_field o false f v t).1 in
          let here = set_field-get o f v j c t e in
          let later = hset_loop-get o rest (n + c) m j t' in
          let session = (set_field-Touches o false f v).session t in
          elim (Option-cases (given j rest)) [
            | inl g ↦ ground (arith, h, e, here, later, g)
            | inr (w, g) ↦ ground (arith, h, e, later, g, element-SameSession w t t' session)
          ])
    | inr (x, e) ↦ absurd (ground (arith, h, e))
  ]

  remove_field-ok :
      (o : Object) (f : Bytes) (n : ℕ) (t : Txn kv)
      → (remove_field o f t).0 ≡ ok n
      → kv.get (remove_field o f t).1.store (object_value_key o f) ≡ missing
  unfolding remove_field remove_old
  remove_field-ok o f n t h =
      let k = object_value_key o f in
      let same = find-unchanged k t in
      elim (Result-cases (find k t).0) [
        | inl (none, e) ↦ ground (arith, h, e, same, find-get k t none e)
        | inl (some w, e) ↦ elim (Result-cases (put_or_delete_kv o k none (negsuc 0) t).0) [
          | inl (c, d) ↦ ground (
            arith,
            h,
            e,
            same,
            put_or_delete_kv-ok laws o k none (negsuc 0) t c (object_value_key-not_count o f) d,
          )
          | inr (x, d) ↦ absurd (ground (arith, h, e, same, d))
        ]
        | inr (x, e) ↦ absurd (ground (arith, h, e))
      ]

  -- HDEL's turn that succeeds: the field is gone, and the others are as they were.
  remove_field-get :
      (o : Object) (f j : Bytes) (n : ℕ) (t : Txn kv)
      → (remove_field o f t).0 ≡ ok n
      → kv.get (remove_field o f t).1.store (object_value_key o j)
        ≡ (if bytes_eq f j then missing else kv.get t.store (object_value_key o j))
  remove_field-get o f j n t h = elim (Bool-cases (bytes_eq f j)) [
    | inl e ↦ rw e (
        subst (λ x. kv.get (remove_field o f t).1.store (object_value_key o x) ≡ missing)
          (bytes_eq→eq f j e) (remove_field-ok o f n t h))
    | inr e ↦ rw e ((remove_field-Touches o f).others t (object_value_key o j) (vk-differ o f j e))
  ]

  -- What the loop of HDEL and SREM leaves of each field.
  pub remove_loop-get :
      (o : Object) (fields : List Bytes) (n m : ℕ) (j : Bytes) (t : Txn kv)
      → (remove_loop o fields n t).0 ≡ ok m
      → kv.get (remove_loop o fields n t).1.store (object_value_key o j)
        ≡ (if is_named j fields then missing else kv.get t.store (object_value_key o j))
  unfolding remove_loop
  remove_loop-get o [] n m j t h = refl
  remove_loop-get o (f ∷ fs) n m j t h = elim (Result-cases (remove_field o f t).0) [
    | inl (c, e) ↦
        (let t' = (remove_field o f t).1 in
          ground (arith, h, e, remove_field-get o f j c t e, remove_loop-get o fs (n + c) m j t'))
    | inr (x, e) ↦ absurd (ground (arith, h, e))
  ]
