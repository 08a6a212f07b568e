-- ===== src/Command/Elements/Open.antt =====
-- The object that a command on elements works on, once GetOrCreateUUIDObject has answered.
use lancelot.Base.{
  ℕ, ◌<◌, ◌≡◌, refl, sym, ap, ◌∙◌, subst, Bool, none, ◌⊎◌, inl, inr, Bytes, arith, get_or, length,
}
use lancelot.Base.BigEndian.{be_bytes}
use lancelot.Store.Kv.{Kv, found}
use lancelot.Store.Txn.{Txn, Exec, max_key_size}
use lancelot.Store.Txn.Laws.{SameSession}
use lancelot.Store.Txn.Frame.{Touches}
use lancelot.Command.Object.{
  Object, bytes_of, object_key, object_value_key, object_encode, get_key_bytes, value_prefix,
}
use lancelot.Command.Object.Codec.{decoded}
use lancelot.Command.Access.{new_object, with_object}
use lancelot.Command.Access.Reads.{
  Content, absent, present, Stored, IsLive, answer, get_txn_object-live,
}
use lancelot.Command.Access.Writes.{IsCountKey}

-- The keys of elements, and of counts.
abbrev pub IsElementKey : Bytes → Type 0
IsElementKey j = get_or j 4 0 ≡ value_prefix

abbrev pub ElementOrCount : Bytes → Type 0
ElementOrCount j = IsElementKey j ⊎ IsCountKey j

pub object_value_key-IsElementKey : (o : Object) (f : Bytes) → IsElementKey (object_value_key o f)
unfolding object_value_key get_key_bytes be_bytes
object_value_key-IsElementKey o f = refl

pub object_key-not_element : (o : Object) → ¬ ElementOrCount (object_key o)
unfolding object_key get_key_bytes be_bytes
object_key-not_element o (inl h) = absurd (ground (arith, h))
object_key-not_element o (inr h) = absurd (ground (arith, h))

-- The two objects have the same elements and counts.
pub record SameElements (o p : Object) : Type 0 where
  pub same_user : o.user_id ≡ p.user_id
  pub same_db : o.db ≡ p.db
  pub same_value : bytes_of o.value ≡ bytes_of p.value
  pub same_hash : o.hash ≡ p.hash
  pub same_typo : o.typo ≡ p.typo

pub object_value_key-SameElements :
    (o p : Object) (f : Bytes) → SameElements o p → object_value_key o f ≡ object_value_key p f
unfolding object_value_key
object_value_key-SameElements o p f h = rw (h.same_user, h.same_db, h.same_value) refl

-- The key has a live object of this type.
abbrev pub HasObject : {kv : Kv} → Txn kv → ℕ → Bytes → Object → Type 0
HasObject t typo key p =
    Stored t (object_key (new_object t typo key)) (present p)
    × IsLive t.now (present p)
    × (p.typo ≡ typo)

-- The key has nothing, or a live object of this type.
abbrev pub Holds : {kv : Kv} → Txn kv → ℕ → Bytes → Content → Type 0
Holds t typo key absent = Stored t (object_key (new_object t typo key)) absent
Holds t typo key (present p) = HasObject t typo key p

-- The object as a command of this type reads it.
abbrev pub opened : {kv : Kv} → Txn kv → ℕ → Bytes → Object → Object
opened t typo key p = decoded p (new_object t typo key)

abbrev pub IsShortKey : {kv : Kv} → Txn kv → ℕ → Bytes → Type 0
IsShortKey t typo key = length (object_key (new_object t typo key)) < max_key_size

module _ {kv : Kv} where
  pub new_object-typo : (t : Txn kv) (typo : ℕ) (key : Bytes) → (new_object t typo key).typo ≡ typo
  unfolding new_object
  new_object-typo t typo key = refl

  answer-present :
      (t : Txn kv) (into p : Object)
      → IsLive t.now (present p)
      → p.typo ≡ into.typo
      → answer t into (present p) ≡ (none, decoded p into)
  answer-present t into p l i = ground (arith, l)

  pub with_object-present {ℓ} :
      {A : Type ℓ} (t : Txn kv) (typo : ℕ) (key : Bytes) (p : Object) (clear : Bool)
      (m f : Object → Exec kv A)
      → IsShortKey t typo key
      → HasObject t typo key p
      → with_object (object_key (new_object t typo key)) (new_object t typo key) clear m f t
        ≡ f (opened t typo key p) t
  unfolding with_object
  with_object-present t typo key p clear m f hk (s, l, i) =
      let into = new_object t typo key in
      rw
        (
          get_txn_object-live (object_key into) into clear (present p) t hk s l,
          answer-present t into p l (i ∙ sym (new_object-typo t typo key)),
        )
        refl

  pub with_object-absent {ℓ} :
      {A : Type ℓ} (t : Txn kv) (typo : ℕ) (key : Bytes) (clear : Bool) (m f : Object → Exec kv A)
      → IsShortKey t typo key
      → Holds t typo key absent
      → with_object (object_key (new_object t typo key)) (new_object t typo key) clear m f t
        ≡ m (new_object t typo key) t
  unfolding with_object
  with_object-absent t typo key clear m f hk s =
      let into = new_object t typo key in
      rw (get_txn_object-live (object_key into) into clear absent t hk s tt) refl

  pub new_object-SameSession :
      (typo : ℕ) (key : Bytes) (t t' : Txn kv)
      → SameSession t t'
      → new_object t' typo key ≡ new_object t typo key
  unfolding new_object
  new_object-SameSession typo key t t' h = ap (λ (x : Txn kv). new_object x typo key) h

-- An action on elements leaves the object of a key where it is.
pub HasObject-Touches {ℓ} :
    {kv : Kv} {A : Type ℓ} (t : Txn kv) (typo : ℕ) (key : Bytes) (p : Object) (m : Exec kv A)
    → Touches ElementOrCount m
    → HasObject t typo key p
    → HasObject (m t).1 typo key p
HasObject-Touches {kv = kv} t typo key p m frame ((s, e), l, i) =
    let k = object_key (new_object t typo key) in
    let same = new_object-SameSession typo key t (m t).1 (frame.session t) in
    (
      (
        subst (λ x. kv.get (m t).1.store (object_key x) ≡ found (object_encode p)) (sym same)
            (frame.others t k (object_key-not_element (new_object t typo key)) ∙ s),
        e,
      ),
      subst (λ (x : Txn kv). IsLive x.now (present p)) (sym (frame.session t)) l,
      i,
    )
