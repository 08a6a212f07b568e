-- ===== src/Command/Elements/Run.antt =====
-- A command that finds or makes its object and then works on its elements.
use lancelot.Base.{
  ℕ, ◌≡◌, ◌<◌, ◌++◌, false, sym, ap, ◌∙◌, subst, inl, inr, Bytes, arith, [], length, length-append,
}
use lancelot.Base.BigEndian.{be_bytes}
use lancelot.Store.Kv.{Kv, KvLaws}
use lancelot.Store.Error.{Result, ok, Result-cases}
use lancelot.Store.Txn.{Txn, Exec, ◌>>=◌, max_key_size}
use lancelot.Store.Txn.Laws.{SameSession}
use lancelot.Store.Txn.Frame.{Touches, SameSession-trans, bind_ok}
use lancelot.Command.Object.{
  Object, object_key, object_value_key, get_key_bytes, bytes_of, is_simple,
}
use lancelot.Command.Object.Codec.{IsEncodable, decoded}
use lancelot.Command.Access.{new_object}
use lancelot.Command.Access.Reads.{Content}
use lancelot.Command.Access.Writes.{KeyOrCount}
use lancelot.Command.Elements.{get_or_create_uuid_object}
use lancelot.Command.Elements.Laws.{object_value_key-not_count}
use lancelot.Command.Elements.Open.{
  Holds, HasObject, opened, ElementOrCount, IsElementKey, object_key-not_element,
  object_value_key-IsElementKey, new_object-SameSession, HasObject-Touches,
  object_value_key-SameElements,
}
use lancelot.Command.Elements.Create.{
  Fits, stored_object, get_or_create-Ready, get_or_create-others,
}

-- The key of an element is neither the key of an object nor of a count.
KeyOrCount-element :
    (into o : Object) (f : Bytes) → ¬ KeyOrCount (object_key into) (object_value_key o f)
KeyOrCount-element into o f (inl e) =
    object_key-not_element into (inl (subst IsElementKey e (object_value_key-IsElementKey o f)))
KeyOrCount-element into o f (inr e) = object_value_key-not_count o f e

module _ {kv : Kv} where
  -- The key of an element of the object of `key`, also where the command is to make it.
  abbrev pub element_key : ℕ → Bytes → Txn kv → Bytes → Content → Bytes → Bytes
  element_key typo id t key c f =
      object_value_key (opened t typo key (stored_object id t typo key c)) f

  -- The command has answered: it has worked on the elements of `object`, in a transaction with the
  -- session of `t` and the elements of `t`.
  pub record Ran {B : Type 0} (typo : ℕ) (id key : Bytes) (c : Content) (t : Txn kv)
      (m : Object → Exec kv B) (b : B) : Type 0 where
    pub object : Object
    pub mid : Txn kv
    pub run : (get_or_create_uuid_object (ok id) typo key >>= m) t ≡ m object mid
    pub done : (m object mid).0 ≡ ok b
    pub session : SameSession t mid
    pub has : HasObject mid typo key (stored_object id t typo key c)
    pub same_key : (f : Bytes) → object_value_key object f ≡ element_key typo id t key c f
    pub before :
        (f : Bytes)
        → kv.get mid.store (element_key typo id t key c f)
          ≡ kv.get t.store (element_key typo id t key c f)

  -- An element with a short name has a key below the size limit.
  pub element_key-short :
      (typo : ℕ) (t : Txn kv) (key f : Bytes) (p : Object)
      → IsEncodable p
      → is_simple p ≡ false
      → length f < 4075
      → length (object_value_key (opened t typo key p) f) < max_key_size
  unfolding object_value_key get_key_bytes decoded be_bytes
  element_key-short typo t key f p e i hf =
      let size : length (bytes_of p.value) ≡ 16 = e.uuid i in
      omega (arith, size, length-append (bytes_of p.value) (f ++ []), length-append f [])

module _ {kv : Kv} (laws : KvLaws kv) {B : Type 0} where
  pub get_or_create-Ran :
      (typo : ℕ) (id key : Bytes) (c : Content) (t : Txn kv) (m : Object → Exec kv B) (b : B)
      → Fits t typo key id
      → Holds t typo key c
      → ((get_or_create_uuid_object (ok id) typo key >>= m) t).0 ≡ ok b
      → Ran typo id key c t m b
  get_or_create-Ran typo id key c t m b fits s h =
      let create = get_or_create_uuid_object (ok id) typo key in
      elim (Result-cases (create t).0) [
        | inr (x, e) ↦ absurd (ground (arith, h, e))
        | inl (o, e) ↦
            (let p = stored_object id t typo key c in
              let u = (create t).1 in
              let run : (create >>= m) t ≡ m o u = bind_ok create m t o e in
              let ready = get_or_create-Ready laws id t typo key c o fits s e in
              let (session, others) = get_or_create-others laws id t typo key c fits.short_key s in
              record {
                object = o;
                mid = u;
                run = run;
                done = ap (λ (x : Result kv.Fault B × Txn kv). x.0) (sym run) ∙ h;
                session = session;
                has = ready.has;
                same_key = λ f.
                    object_value_key-SameElements o (opened u typo key p) f ready.same
                    ∙ ap (λ x. object_value_key (decoded p x) f)
                        (new_object-SameSession typo key t u session);
                before = λ f.
                    others (element_key typo id t key c f)
                      (KeyOrCount-element (new_object t typo key) (opened t typo key p) f);
              })
      ]

  -- If it changes elements and counts only, the object is still there after it.
  pub Ran-HasObject :
      (typo : ℕ) (id key : Bytes) (c : Content) (t : Txn kv) (m : Object → Exec kv B) (b : B)
      → ((o : Object) → Touches ElementOrCount (m o))
      → (r : Ran typo id key c t m b)
      → SameSession t (m r.object r.mid).1
        × HasObject (m r.object r.mid).1 typo key (stored_object id t typo key c)
  Ran-HasObject typo id key c t m b frame r = (
    SameSession-trans t r.mid _ r.session ((frame r.object).session r.mid),
    HasObject-Touches r.mid typo key (stored_object id t typo key c) (m r.object) (frame r.object)
        r.has,
  )
