-- ===== src/Command/Access.antt =====
-- command/object.go and command/generic.go: how commands read, write and delete the object of a key.
pub mod Reads
pub mod Writes
use lancelot.Base.{
  ℕ, ◌-◌, ◌≤◌, ◌≡◌, Bool, true, false, not, ◌&&◌, ◌||◌, Option, none, some, List, [], ◌∷◌, ltb, leb,
  ◌==◌, if◌then◌else◌, Bytes, length,
}
use lancelot.Base.Int.{ℤ, pos, negsuc, ◌+ℤ◌, leb_ℤ, ltb_ℤ, wrap_int64}
use lancelot.Store.Kv.{Kv}
use lancelot.Store.Error.{Error, Result, ok, err, key_not_found, wrong_type}
use lancelot.Store.Txn.{Txn, Config, Exec, continue, get, put, del, ◌>>=◌, ◌>>◌, pure, raise}
use lancelot.Command.Object.{
  Object, Slice, bytes_of, is_simple, is_countable, disable_count, object_encode, object_decode,
  clean_value, ttl_key, ttl_value_key, unknown_type, default_hash_mark, count_general, key_prefix,
}
use lancelot.Command.Count.{Count, get_count, set_count, delete_count}

-- The flags of ChangeType.
pub record Change : Type 0 where
  pub minus : Bool
  pub plus : Bool
  pub gc : Bool
  pub delete : Bool

abbrev pub no_change : Change
no_change = record { minus = false; plus = false; gc = false; delete = false }

-- PlusCount
abbrev pub plus_count : Change
plus_count = record { minus = false; plus = true; gc = false; delete = false }

-- MinusCount
abbrev pub minus_count : Change
minus_count = record { minus = true; plus = false; gc = false; delete = false }

-- The `delta` of setTxnObject
abbrev pub delta_of : Change → ℤ
delta_of c =
    if c.delete then (if c.minus then negsuc 0 else pos 0) else (if c.plus then pos 1 else pos 0)

-- `delta != 0`
abbrev pub counts : Change → Bool
counts c = c.delete && c.minus || not c.delete && c.plus

-- KEYSIZE
abbrev pub keysize : Bytes
keysize = b's' ∷ b'i' ∷ b'z' ∷ b'e' ∷ []

-- What getTxnObject leaves: its error, if any, and the object that its caller goes on with.
abbrev pub Lookup : Kv → Type 0
Lookup kv = Option (Error kv.Fault) × Object

module _ {kv : Kv} where
  abbrev pub when : Bool → Exec kv (Unit {0}) → Exec kv (Unit {0})
  when b m t = if b then m t else (ok tt, t)

  -- NewObject
  unfoldable pub new_object : Txn kv → ℕ → Bytes → Object
  new_object t typo key = record {
    user_id = t.user_id;
    db = t.db_id;
    key = key;
    typo = typo;
    ttl = pos 0;
    timestamp = 0;
    value = none;
    hash = if t.config.object_hash == 0 then default_hash_mark else t.config.object_hash;
    extra = none;
  }

  -- The count that setTxnObject changes: a shard of the size of the database.
  unfoldable pub size_count : Object → Change → Exec kv (Bool × Count)
  size_count o change t =
      if change.gc
      then get_count o.user_id o.db t.config.db_size_hash count_general keysize none t
      else get_count o.user_id o.db (t.config.db_size_hash - 1) count_general keysize (some o.key) t

  unfoldable pub add_to_count : ℤ → Bool × Count → Exec kv (Unit {0})
  add_to_count delta (known, c) = set_count (record c { value = wrap_int64 (c.value +ℤ delta) })

  -- The second half of setTxnObject: the size of the database.
  unfoldable pub count_change : Object → Change → Exec kv (Unit {0})
  unfolding size_count add_to_count
  count_change o change t =
      when (not (t.config.db_size_hash == 0) && counts change)
        (size_count o change >>= add_to_count (delta_of change)) t

  -- The first half of setTxnObject.
  unfoldable pub write_object : Bytes → Object → Change → Exec kv (Unit {0})
  write_object key o change t = if change.delete then del key t else put key (object_encode o) t

  -- setTxnObject
  unfoldable pub set_txn_object : Bytes → Object → Change → Exec kv (Unit {0})
  set_txn_object key o change = write_object key o change >> count_change o change

  -- The last part of CleanKey: a value that is stored apart is queued for the collector, or its
  -- counts go at once.
  unfoldable pub clean_apart : Object → ℤ → Exec kv (Unit {0})
  clean_apart o value_ttl t =
      if is_simple o || length (bytes_of o.value) == 0
      then (ok tt, t)
      else if ltb_ℤ (pos 0) value_ttl
      then put (bytes_of (ttl_value_key (record o { ttl = value_ttl }))) (1 ∷ []) t
      else if is_countable o && not (t.config.disable_count && disable_count o)
      then delete_count o.user_id o.db key_prefix (bytes_of o.value) (some t.now) t
      else (ok tt, t)

  -- CleanKey
  unfoldable pub clean_key : Bytes → Slice → Object → ℤ → Change → Exec kv (Unit {0})
  clean_key key ttl o value_ttl change = do
    when (ltb 0 (length key)) (set_txn_object key o (record change { delete = true }))
    when (ltb 0 (length (bytes_of ttl))) (del (bytes_of ttl))
    clean_apart o value_ttl

  -- DeleteKey
  unfoldable pub delete_key : Bytes → Object → ℤ → Change → Exec kv (Unit {0})
  delete_key key o now change = clean_key key (ttl_key o) o now change

  -- The expired case of getTxnObject.
  unfoldable pub drop_expired : Bytes → Object → Bool → Txn kv → Lookup kv × Txn kv
  drop_expired key o clear t =
      if clear
      then (let (r, t') = delete_key key o o.ttl minus_count t in
          elim r [ ok _ ↦ ((some key_not_found, o), t') | err e ↦ ((some e, o), t') ])
      else ((some key_not_found, o), t)

  -- The rest of getTxnObject, once the stored bytes are there.
  unfoldable pub examine : Bytes → Bytes → Object → Bool → Txn kv → Lookup kv × Txn kv
  examine key value o clear t =
      let (decoded, o') = object_decode value o in
      if not decoded
      then ((some key_not_found, o'), t)
      else if ltb_ℤ (pos 0) o'.ttl && leb_ℤ o'.ttl t.now
      then drop_expired key (clean_value t.config.object_hash o.typo o') clear t
      else if not (o.typo == unknown_type) && not (o.typo == o'.typo)
      then ((some wrong_type, o'), t)
      else ((none, o'), t)

  -- getTxnObject
  unfoldable pub get_txn_object : Bytes → Object → Bool → Txn kv → Lookup kv × Txn kv
  get_txn_object key o clear t =
      let (r, t') = get key t in
      elim r [ ok value ↦ examine key value o clear t' | err e ↦ ((some e, o), t') ]

  abbrev pub branch {ℓ} : {A : Type ℓ} → Option (Error kv.Fault) → Exec kv A → Exec kv A → Exec kv A
  branch none missing found t = found t
  branch (some key_not_found) missing found t = missing t
  branch (some e) missing found t = (err e, t)

  -- A caller's `if err == store.KeyNotFound … else if err != nil { return err } else …`
  unfoldable pub with_object {ℓ} :
      {A : Type ℓ} → Bytes → Object → Bool → (Object → Exec kv A) → (Object → Exec kv A) → Exec kv A
  with_object key o clear missing found t =
      let ((e, o'), t') = get_txn_object key o clear t in branch e (missing o') (found o') t'
