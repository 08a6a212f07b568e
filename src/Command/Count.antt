-- ===== src/Command/Count.antt =====
-- command/count.go: the counts kept beside objects and for the size of a database.
pub mod Codec
pub mod Laws
use lancelot.Base.{
  ℕ, ◌+◌, ◌≡◌, Bool, true, false, not, Option, none, some, List, [], ◌∷◌, ◌++◌, ltb, leb, ◌==◌,
  if◌then◌else◌, Bytes, get_or, take, drop,
}
use lancelot.Base.Int.{ℤ, pos, neg_int, ◌-ℤ◌, leb_ℤ, ltb_ℤ, uint64_of, int64_of, wrap_int64}
use lancelot.Base.BigEndian.{be_bytes, be_value}
use lancelot.Utils.Bytes.{prefix_next}
use lancelot.Utils.Hash.{get_shard}
use lancelot.Store.Kv.{Kv}
use lancelot.Store.Error.{Error, Result, ok, err, not_expire, key_not_found}
use lancelot.Store.Txn.{Txn, Exec, get, put, delete_until, ◌>>=◌, ◌>>◌, pure, raise}
use lancelot.Command.Object.{Slice, get_key_bytes, count_prefix}

pub record Count : Type 0 where
  pub timestamp : ℕ
  pub value : ℤ
  pub key : Bytes
  pub shard : ℕ
  pub user_value : Bytes

-- EncodeCount
unfoldable pub encode_count : Count → Bytes
encode_count c =
    be_bytes 8 c.timestamp
    ++ (if leb_ℤ (pos 0) c.value then 0x01 else 0x00)
      ∷ (be_bytes 8 (uint64_of (if leb_ℤ (pos 0) c.value then c.value else neg_int c.value))
          ++ c.user_value)

-- DecodeCount
unfoldable pub decode_count : Count → Bytes → Count
unfolding wrap_int64
decode_count c v =
    let n = int64_of (be_value (take 8 (drop 9 v))) in
    record c {
      timestamp = be_value (take 8 v);
      value = if get_or v 8 0 == 0x01 then n else wrap_int64 (neg_int n);
      user_value = drop 17 v;
    }

-- The callback of DeleteCount. Its state is `notExpire`; without `expire` every count goes.
abbrev pub older_than : (kv : Kv) → Option ℤ → Bool → Bytes → Bytes → Bool × Bool
older_than kv none s k v = (true, s)
older_than kv (some expire) s k v =
    if ltb_ℤ (pos 0) (expire -ℤ kv.extract_physical (be_value (take 8 v)))
    then (true, s)
    else (false, true)

module _ {kv : Kv} where
  -- SetCount
  unfoldable pub set_count : Count → Exec kv (Unit {0})
  set_count c t = put c.key (encode_count (record c { timestamp = t.timestamp })) t

  -- The count that GetCount starts from: its key has the shard where the counts are sharded.
  unfoldable pub new_count : ℕ → ℕ → ℕ → ℕ → Bytes → Slice → Txn kv → Count
  new_count user db hash part key hash_value t =
      let shard : ℕ =
        if ltb 0 hash then elim hash_value [ none ↦ hash | some v ↦ get_shard v hash ] else 0 in
      let suffix : List Bytes = if ltb 0 hash then key ∷ be_bytes 2 shard ∷ [] else key ∷ [] in
      record {
        timestamp = t.timestamp;
        value = pos 0;
        key = get_key_bytes count_prefix user db part suffix;
        shard = shard;
        user_value = [];
      }

  -- GetCount, which returns the new count beside a "not found"; the flag tells that it was found.
  unfoldable pub get_count : ℕ → ℕ → ℕ → ℕ → Bytes → Slice → Exec kv (Bool × Count)
  get_count user db hash part key hash_value t =
      let count = new_count user db hash part key hash_value t in
      let (r, t') = get count.key t in
      elim r [
        | ok b ↦ (ok (true, decode_count count b), t')
        | err key_not_found ↦ (ok (false, count), t')
        | err e ↦ (err e, t')
      ]

  -- DeleteCount; the limit is math.MaxInt16.
  unfoldable pub delete_count : ℕ → ℕ → ℕ → Bytes → Option ℤ → Exec kv (Unit {0})
  delete_count user db part key expire t =
      let start = get_key_bytes count_prefix user db part (key ∷ []) in
      let end = prefix_next start in
      (delete_until (kv.iter t.store start end) start end 32767 0 (older_than kv expire) false
          >>= λ stopped. if stopped then raise not_expire else pure tt)
        t
