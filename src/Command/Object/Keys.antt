-- ===== src/Command/Object/Keys.antt =====
-- The keys of the store: no two entities share one, and expiry keys stand in the order of expiry.
use mathlib.Core.List.{append-nil}
use lancelot.Base.{
  ℕ, ◌+◌, ◌^◌, ◌≤◌, ◌<◌, ◌≡◌, refl, true, none, some, List, [], ◌∷◌, ◌++◌, Bytes, length, get_or,
  take, drop, arith, sym, ◌∙◌, lt→ltb, take-append_of, drop-append_of, length-append, bytes_lt,
}
use lancelot.Base.Int.{ℤ, pos, ◌<ℤ◌, IsInt64, uint64_of, int64_of-uint64_of, uint64_of-lt}
use lancelot.Base.BigEndian.{
  be_bytes, be_value-be_bytes, length-be_bytes, bytes_lt-append, bytes_lt-append_left, be_bytes-lt,
}
use lancelot.Store.Error.{ok}
use lancelot.Command.Object.{
  Object, concat, get_key_bytes, object_key, ttl_key, object_from_ttl, encode_ttl_value, ttl_prefix,
  key_prefix, data_prefix,
}

pub record SameParts (typo user db part : ℕ) (rest : Bytes) (typo' user' db' part' : ℕ)
    (rest' : Bytes) : Type 0 where
  pub same_typo : typo ≡ typo'
  pub same_user : user ≡ user'
  pub same_db : db ≡ db'
  pub same_part : part ≡ part'
  pub same_rest : rest ≡ rest'

-- A key of the store determines its prefix, its user, its database, its part and its data.
pub get_key_bytes-injective :
    (typo user db part typo' user' db' part' : ℕ) (vs vs' : List Bytes)
    → user < 2 ^ 16
    → user' < 2 ^ 16
    → get_key_bytes typo user db part vs ≡ get_key_bytes typo' user' db' part' vs'
    → SameParts typo user db part (concat vs) typo' user' db' part' (concat vs')
unfolding get_key_bytes be_bytes
get_key_bytes-injective typo user db part typo' user' db' part' vs vs' hu hu' h = ground arith

-- Two objects with user numbers of 16 bits and the same key in the store have the same user,
-- database and key.
pub object_key-injective :
    (o p : Object)
    → o.user_id < 2 ^ 16
    → p.user_id < 2 ^ 16
    → object_key o ≡ object_key p
    → (o.user_id ≡ p.user_id) × (o.db ≡ p.db) × (o.key ≡ p.key)
unfolding object_key
object_key-injective o p ho hp h =
    let same =
      get_key_bytes-injective data_prefix o.user_id o.db key_prefix data_prefix p.user_id p.db
        key_prefix (o.key ∷ []) (p.key ∷ []) ho hp h in
    (same.same_user, same.same_db, sym (append-nil o.key) ∙ same.same_rest ∙ append-nil p.key)

abbrev ttl_layout : ℕ → ℕ → Bytes → Bytes → Bytes
ttl_layout user db ttl suffix =
    ttl_prefix ∷ (be_bytes 2 user ++ db ∷ key_prefix ∷ (ttl ++ (suffix ++ [])))

ttl_key-eq_some :
    (o : Object) (k : Bytes)
    → ttl_key o ≡ some k
    → (k ≡ ttl_layout o.user_id o.db (be_bytes 8 (uint64_of o.ttl)) o.key) × (pos 0 <ℤ o.ttl)
unfolding ttl_key
ttl_key-eq_some o k h = ground arith

uint64_of-lt_of_lt :
    (a b : ℤ) → pos 0 <ℤ a → pos 0 <ℤ b → IsInt64 a → IsInt64 b → a <ℤ b → uint64_of a < uint64_of b
unfolding uint64_of
uint64_of-lt_of_lt a b ha hb ra rb h = ground arith

ttl_layout_lt :
    (user db a b : ℕ) (us vs : Bytes)
    → a < b
    → b < 2 ^ 64
    → bytes_lt (ttl_layout user db (be_bytes 8 a) us) (ttl_layout user db (be_bytes 8 b) vs) ≡ true
ttl_layout_lt user db a b us vs h hb =
    bytes_lt-append_left (ttl_prefix ∷ be_bytes 2 user) _ _
    ∙ bytes_lt-append_left (db ∷ key_prefix ∷ []) _ _
    ∙ bytes_lt-append (be_bytes 8 a) (be_bytes 8 b) (us ++ []) (vs ++ [])
        (length-be_bytes 8 a ∙ sym (length-be_bytes 8 b))
    ∙ rw (be_bytes-lt 8 a b (omega arith) hb, lt→ltb a b h)

-- Of two objects of one user and database with expiries of 64 bits, the expiry key of the one that
-- expires earlier comes first.
pub ttl_key_order :
    (o p : Object) (k l : Bytes)
    → o.user_id ≡ p.user_id
    → o.db ≡ p.db
    → IsInt64 o.ttl
    → IsInt64 p.ttl
    → o.ttl <ℤ p.ttl
    → ttl_key o ≡ some k
    → ttl_key p ≡ some l
    → bytes_lt k l ≡ true
ttl_key_order o p k l hu hd ho hp h hk hl =
    let (ek, po) = ttl_key-eq_some o k hk in
    let (el, pp) = ttl_key-eq_some p l hl in
    rw (ek, el, hu, hd)
      (ttl_layout_lt p.user_id p.db (uint64_of o.ttl) (uint64_of p.ttl) o.key p.key
        (uint64_of-lt_of_lt o.ttl p.ttl po pp ho hp h) (uint64_of-lt p.ttl))

record TtlLayout (o : Object) (k : Bytes) : Type 0 where
  size : length k ≡ 13 + length o.key
  first : get_or k 0 0 ≡ ttl_prefix
  user_bytes : take 2 (drop 1 k) ≡ be_bytes 2 o.user_id
  db_byte : get_or k 3 0 ≡ o.db
  part_byte : get_or k 4 0 ≡ key_prefix
  ttl_bytes : take 8 (drop 5 k) ≡ be_bytes 8 (uint64_of o.ttl)
  key_bytes : drop 13 k ≡ o.key

ttl_layout-TtlLayout :
    (o : Object) (ttl : Bytes)
    → length ttl ≡ 8
    → ttl ≡ be_bytes 8 (uint64_of o.ttl)
    → TtlLayout o (ttl_layout o.user_id o.db ttl o.key)
unfolding be_bytes
ttl_layout-TtlLayout o ttl h e = record {
  size = omega (arith, length-append ttl (o.key ++ []), length-append o.key []);
  first = refl;
  user_bytes = refl;
  db_byte = refl;
  part_byte = refl;
  ttl_bytes = take-append_of 8 ttl (o.key ++ []) h ∙ e;
  key_bytes = drop-append_of 8 0 8 ttl (o.key ++ []) h refl ∙ append-nil o.key;
}

read-TtlLayout :
    {F : Type 0} (o : Object) (k : Bytes) (typo : ℕ) (value : Bytes)
    → IsInt64 o.ttl
    → o.user_id < 2 ^ 16
    → 16 ≤ length value
    → TtlLayout o k
    → object_from_ttl {F = F} k (encode_ttl_value typo value)
      ≡ ok (record o { typo = typo; timestamp = 0; value = some value; hash = 0; extra = none })
unfolding object_from_ttl encode_ttl_value
read-TtlLayout o k typo value ht hu hv l = ground (
  arith,
  be_value-be_bytes 2 o.user_id hu,
  be_value-be_bytes 8 (uint64_of o.ttl) (uint64_of-lt o.ttl),
  int64_of-uint64_of o.ttl ht,
)

-- What the collector of expired keys reads back from an expiry key and the value of EncodeTTLValue
-- with at least 16 bytes: the user, the database, the key and the expiry of the object, and the type
-- and the bytes that were encoded.
pub object_from_ttl-ttl_key :
    {F : Type 0} (o : Object) (k : Bytes) (typo : ℕ) (value : Bytes)
    → IsInt64 o.ttl
    → o.user_id < 2 ^ 16
    → 16 ≤ length value
    → ttl_key o ≡ some k
    → object_from_ttl {F = F} k (encode_ttl_value typo value)
      ≡ ok (record o { typo = typo; timestamp = 0; value = some value; hash = 0; extra = none })
object_from_ttl-ttl_key o k typo value ht hu hv hk = read-TtlLayout o k typo value ht hu hv (
    rw (ttl_key-eq_some o k hk).0
      (ttl_layout-TtlLayout o _ (length-be_bytes 8 (uint64_of o.ttl)) refl))
