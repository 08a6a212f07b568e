-- ===== src/Command/Elements/Create.antt =====
-- GetOrCreateUUIDObject of command/hash.go: the object that a command on elements works on.
use lancelot.Base.{
  ℕ, ◌^◌, ◌<◌, ◌≡◌, ◌≢◌, refl, sym, ap, ◌∙◌, subst, true, some, inl, inr, Bytes, arith, length,
}
use lancelot.Base.Int.{ℤ}
use lancelot.Store.Kv.{Kv, KvLaws, found}
use lancelot.Store.Error.{Result, ok, Result-cases}
use lancelot.Store.Txn.{Txn, pure}
use lancelot.Store.Txn.Laws.{SameSession}
use lancelot.Store.Txn.Frame.{Touches, Touches-pure, Touches-bind, Touches-state}
use lancelot.Command.Object.{Object, object_key, object_encode, is_simple}
use lancelot.Command.Object.Codec.{IsEncodable, decoded}
use lancelot.Command.Access.{new_object, set_txn_object, plus_count}
use lancelot.Command.Access.Reads.{Content, absent, present, IsLive}
use lancelot.Command.Access.Writes.{KeyOrCount, set_txn_object-ok, set_txn_object-Touches}
use lancelot.Command.Elements.{create_uuid_object, get_or_create_uuid_object}
use lancelot.Command.Elements.Open.{
  SameElements, HasObject, Holds, opened, IsShortKey, new_object-typo, new_object-SameSession,
  with_object-present, with_object-absent, object_key-not_element,
}

module _ {kv : Kv} where
  pub get_or_create-present :
      (uuid : Result kv.Fault Bytes) (t : Txn kv) (typo : ℕ) (key : Bytes) (p : Object)
      → IsShortKey t typo key
      → HasObject t typo key p
      → get_or_create_uuid_object uuid typo key t ≡ (ok (opened t typo key p), t)
  unfolding get_or_create_uuid_object
  get_or_create-present uuid t typo key p hk h =
      with_object-present t typo key p true
        (create_uuid_object uuid (object_key (new_object t typo key))) pure hk h

  -- The object that GetOrCreateUUIDObject makes.
  abbrev pub created : Bytes → Txn kv → ℕ → Bytes → Object
  created id t typo key = record (new_object t typo key) {
    value = some id;
    timestamp = t.timestamp;
  }

  -- The object of the key after GetOrCreateUUIDObject.
  abbrev pub stored_object : Bytes → Txn kv → ℕ → Bytes → Content → Object
  stored_object id t typo key absent = created id t typo key
  stored_object id t typo key (present p) = p

  get_or_create-absent :
      (id : Bytes) (t : Txn kv) (typo : ℕ) (key : Bytes)
      → IsShortKey t typo key
      → Holds t typo key absent
      → get_or_create_uuid_object (ok id) typo key t
        ≡ create_uuid_object (ok id) (object_key (new_object t typo key)) (new_object t typo key) t
  unfolding get_or_create_uuid_object
  get_or_create-absent id t typo key hk h =
      with_object-absent t typo key true
        (create_uuid_object (ok id) (object_key (new_object t typo key))) pure hk h

-- A type whose objects have a UUID.
abbrev pub IsUuidType : ℕ → Type 0
IsUuidType typo = (typo ≢ b'k') × (typo ≢ b'j')

-- What a command on elements needs of its transaction and of the UUID that it draws.
pub record Fits {kv : Kv} (t : Txn kv) (typo : ℕ) (key id : Bytes) : Type 0 where
  pub short_key : IsShortKey t typo key
  pub uuid_type : IsUuidType typo
  pub uuid_size : length id ≡ 16
  pub timestamp_range : t.timestamp < 2 ^ 64
  pub hash_range : t.config.object_hash < 2 ^ 16

-- The command works on `o`, which the key has as `p`.
pub record Ready {kv : Kv} (t : Txn kv) (typo : ℕ) (key : Bytes) (p o : Object) : Type 0 where
  pub has : HasObject t typo key p
  pub same : SameElements o (opened t typo key p)

SameElements-refl : (o : Object) → SameElements o o
SameElements-refl o = record {
  same_user = refl;
  same_db = refl;
  same_value = refl;
  same_hash = refl;
  same_typo = refl;
}

module _ {kv : Kv} (laws : KvLaws kv) where
  created-IsEncodable :
      (id : Bytes) (t : Txn kv) (typo : ℕ) (key : Bytes)
      → Fits t typo key id
      → IsEncodable (created id t typo key)
  unfolding new_object is_simple
  created-IsEncodable id t typo key f = record {
    ttl_range = ground arith;
    timestamp_range = f.timestamp_range;
    hash_range = ground (arith, f.hash_range);
    no_extra = λ e. refl;
    uuid = λ e. f.uuid_size;
  }

  created-IsLive :
      (id : Bytes) (t : Txn kv) (typo : ℕ) (key : Bytes) (now : ℤ)
      → IsLive now (present (created id t typo key))
  unfolding new_object
  created-IsLive id t typo key now = refl

  created-SameElements :
      (id : Bytes) (t t' : Txn kv) (typo : ℕ) (key : Bytes)
      → SameSession t t'
      → SameElements (created id t typo key) (opened t' typo key (created id t typo key))
  unfolding decoded new_object
  created-SameElements id t t' typo key h = record {
    same_user = ap (λ (x : Txn kv). x.user_id) (sym h);
    same_db = ap (λ (x : Txn kv). x.db_id) (sym h);
    same_value = refl;
    same_hash = refl;
    same_typo = refl;
  }

  abbrev pub storing : Bytes → Txn kv → ℕ → Bytes → Result kv.Fault (Unit {0}) × Txn kv
  storing id t typo key =
      set_txn_object (object_key (new_object t typo key)) (created id t typo key) plus_count t

  create-ok :
      (id : Bytes) (t : Txn kv) (typo : ℕ) (key : Bytes) (o : Object)
      → (create_uuid_object
          (ok id)
          (object_key (new_object t typo key))
          (new_object t typo key)
          t).0
        ≡ ok o
      → ((storing id t typo key).0 ≡ ok tt)
        × (o ≡ created id t typo key)
        × (create_uuid_object (ok id) (object_key (new_object t typo key)) (new_object t typo key) t
            ≡ (ok (created id t typo key), (storing id t typo key).1))
  unfolding create_uuid_object
  create-ok id t typo key o h = elim (Result-cases (storing id t typo key).0) [
    | inl (tt, e) ↦ (e, ground (arith, h, e), ground (arith, e))
    | inr (x, e) ↦ absurd (ground (arith, h, e))
  ]

  storing-SameSession :
      (id : Bytes) (t : Txn kv) (typo : ℕ) (key : Bytes) → SameSession t (storing id t typo key).1
  storing-SameSession id t typo key =
      (set_txn_object-Touches laws (object_key (new_object t typo key)) (created id t typo key)
          plus_count).session
        t

  storing-HasObject :
      (id : Bytes) (t : Txn kv) (typo : ℕ) (key : Bytes)
      → Fits t typo key id
      → (storing id t typo key).0 ≡ ok tt
      → HasObject (storing id t typo key).1 typo key (created id t typo key)
  storing-HasObject id t typo key f e =
      let o = created id t typo key in
      let k = object_key (new_object t typo key) in
      let t' = (storing id t typo key).1 in
      let here = new_object-SameSession typo key t t' (storing-SameSession id t typo key) in
      (
        (
          subst (λ x. kv.get t'.store (object_key x) ≡ found (object_encode o)) (sym here)
              (set_txn_object-ok laws k o plus_count t
                (λ c. object_key-not_element (new_object t typo key) (inr c)) e),
          created-IsEncodable id t typo key f,
        ),
        created-IsLive id t typo key t'.now,
        new_object-typo t typo key,
      )

  -- After GetOrCreateUUIDObject has made an object, the command works on it.
  get_or_create-Ready_absent :
      (id : Bytes) (t : Txn kv) (typo : ℕ) (key : Bytes) (o : Object)
      → Fits t typo key id
      → Holds t typo key absent
      → (get_or_create_uuid_object (ok id) typo key t).0 ≡ ok o
      → Ready (get_or_create_uuid_object (ok id) typo key t).1 typo key (created id t typo key) o
  get_or_create-Ready_absent id t typo key o f s h =
      let made = get_or_create-absent id t typo key f.short_key s in
      let (e, same, whole) = create-ok id t typo key o (ap (λ x. x.0) (sym made) ∙ h) in
      let t' = (storing id t typo key).1 in
      subst (λ x. Ready x.1 typo key (created id t typo key) o) (sym (made ∙ whole))
        (record {
          has = storing-HasObject id t typo key f e;
          same =
              subst (λ x. SameElements x (opened t' typo key (created id t typo key))) (sym same)
                (created-SameElements id t t' typo key (storing-SameSession id t typo key));
        })

  -- After GetOrCreateUUIDObject has answered, the command works on the object of the key.
  pub get_or_create-Ready :
      (id : Bytes) (t : Txn kv) (typo : ℕ) (key : Bytes) (c : Content) (o : Object)
      → Fits t typo key id
      → Holds t typo key c
      → (get_or_create_uuid_object (ok id) typo key t).0 ≡ ok o
      → Ready
          (get_or_create_uuid_object (ok id) typo key t).1
          typo
          key
          (stored_object id t typo key c)
          o
  get_or_create-Ready id t typo key absent o f s h =
      get_or_create-Ready_absent id t typo key o f s h
  get_or_create-Ready id t typo key (present p) o f s h =
      let found_it = get_or_create-present (ok id) t typo key p f.short_key s in
      let same : o ≡ opened t typo key p = ground (arith, h, found_it) in
      subst (λ x. Ready x.1 typo key p o) (sym found_it)
        (record {
          has = s;
          same = subst (λ x. SameElements x (opened t typo key p)) (sym same) (SameElements-refl _);
        })

  create-Touches :
      (id : Bytes) (k : Bytes) (o : Object)
      → Touches {kv = kv} (KeyOrCount k) (create_uuid_object (ok id) k o)
  unfolding create_uuid_object
  create-Touches id k o =
      Touches-state (λ t. _)
        (λ t.
          Touches-bind _ _
            (set_txn_object-Touches laws k (record o { value = some id; timestamp = t.timestamp })
              plus_count)
            (λ _. Touches-pure _))

  -- GetOrCreateUUIDObject at a key without an expired object changes the key and counts, and nothing
  -- else.
  pub get_or_create-others :
      (id : Bytes) (t : Txn kv) (typo : ℕ) (key : Bytes) (c : Content)
      → IsShortKey t typo key
      → Holds t typo key c
      → SameSession t (get_or_create_uuid_object (ok id) typo key t).1
        × ((j : Bytes)
            → ¬ KeyOrCount (object_key (new_object t typo key)) j
            → kv.get (get_or_create_uuid_object (ok id) typo key t).1.store j ≡ kv.get t.store j)
  get_or_create-others id t typo key absent hk s =
      let frame = create-Touches id (object_key (new_object t typo key)) (new_object t typo key) in
      subst
        (λ x.
          SameSession t x.1
          × ((j : Bytes)
              → ¬ KeyOrCount (object_key (new_object t typo key)) j
              → kv.get x.1.store j ≡ kv.get t.store j))
        (sym (get_or_create-absent id t typo key hk s)) (frame.session t, frame.others t)
  get_or_create-others id t typo key (present p) hk s =
      subst
        (λ x.
          SameSession t x.1
          × ((j : Bytes)
              → ¬ KeyOrCount (object_key (new_object t typo key)) j
              → kv.get x.1.store j ≡ kv.get t.store j))
        (sym (get_or_create-present (ok id) t typo key p hk s)) (refl, λ j n. refl)
