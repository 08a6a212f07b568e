-- ===== src/Command/Elements.antt =====
-- command/hash.go, command/object.go, command/count.go and command/listb.go: the elements of an
-- object that are entries of their own below its UUID, and their counts.
pub mod Codec
pub mod Laws
pub mod Open
pub mod Create
pub mod Tally
pub mod Counted
pub mod Length
pub mod Run
use lancelot.Base.{
  ℕ, ◌+◌, ◌*◌, Bool, true, false, not, ◌&&◌, ◌||◌, Option, none, some, List, [], ◌∷◌, ◌++◌, ltb,
  ◌==◌, if◌then◌else◌, Bytes, length, take, drop,
}
use lancelot.Base.Int.{ℤ, pos, ◌+ℤ◌, wrap_int64, pos_part, neg_part}
use lancelot.Base.BigEndian.{be_bytes, be_value}
use lancelot.Utils.Bytes.{prefix_next}
use lancelot.Store.Kv.{Kv}
use lancelot.Store.Error.{Error, Result, ok, err, key_not_found, reach_limit, not_support}
use lancelot.Store.Txn.{Txn, Exec, get, put, del, ◌>>=◌, ◌>>◌, pure, raise}
use lancelot.Store.Scan.{list, up_to_limit, whole}
use lancelot.Command.Object.{
  Object, Slice, bytes_of, object_key, object_value_key, get_key_bytes, count_prefix, key_prefix,
  disable_count, clean_value, hash_type, set_type, alist_type, zset_type,
}
use lancelot.Command.Count.{Count, decode_count, get_count, set_count}
use lancelot.Command.Access.{
  new_object, with_object, set_txn_object, delete_key, plus_count, minus_count,
}

-- Value of listb.go
pub record Value : Type 0 where
  pub timestamp : ℕ
  pub value : Bytes

-- EncodeValue
unfoldable pub encode_value : Value → Bytes
encode_value v = be_bytes 8 v.timestamp ++ v.value

-- DecodeValue; `none` is its error.
unfoldable pub decode_value : Bytes → Option Value
decode_value b =
    if ltb (length b) 8
    then none
    else some (record { timestamp = be_value (take 8 b); value = drop 8 b })

-- The error of `txn.Get(k)` split as its callers do: not found, or an error to return.
unfoldable pub find : {kv : Kv} → Bytes → Exec kv Slice
find k t =
    let (r, t') = get k t in
    elim r [ ok b ↦ (ok (some b), t') | err key_not_found ↦ (ok none, t') | err e ↦ (err e, t') ]

-- MemberPrefix of zset.go
abbrev pub member_prefix : ℕ
member_prefix = b'm'

-- EncodeMemberKey
unfoldable pub encode_member_key : Bytes → Bytes
encode_member_key member = member_prefix ∷ member

-- The table GetKeyFuncs, with GetHashKey and GetZsetKey; `none` is a type that it lacks.
unfoldable pub get_key_func : Object → Option (Bytes → Bytes)
unfolding encode_member_key
get_key_func o =
    if o.typo == hash_type || o.typo == set_type || o.typo == alist_type
    then some (object_value_key o)
    else if o.typo == zset_type
    then some (λ field. object_value_key o (encode_member_key field))
    else none

-- The callback of ListCount.
abbrev pub add_count : List Count → Bytes → Bytes → List Count
add_count counts k v =
    counts
    ++ decode_count (record { timestamp = 0; value = pos 0; key = k; shard = 0; user_value = [] }) v
      ∷ []

-- The callback of ScanCount.
abbrev pub count_longer : ℕ → ℤ → Bytes → Bytes → ℤ
count_longer size n k v = if ltb (length k) size then n else n +ℤ pos 1

-- The sum that GetCountByObject makes, which wraps.
abbrev pub sum_counts : ℤ → List Count → ℤ
sum_counts sum [] = sum
sum_counts sum (c ∷ cs) = sum_counts (wrap_int64 (sum +ℤ c.value)) cs

abbrev pub is_zero_int : ℤ → Bool
is_zero_int d = pos_part d == 0 && neg_part d == 0

module _ {kv : Kv} where
  -- The entry that PutOrDeleteKV writes or deletes.
  unfoldable pub write_element : Bytes → Slice → Exec kv (Unit {0})
  write_element k none = del k
  write_element k (some v) = put k v

  -- A count with `delta` more, which PutOrDeleteKV stores and returns.
  unfoldable pub store_count : ℤ → Bool × Count → Exec kv ℤ
  store_count delta (known, c) =
      set_count (record c { value = wrap_int64 (c.value +ℤ delta) })
      >> pure (wrap_int64 (c.value +ℤ delta))

  -- The count of an element, in the shard of its value.
  unfoldable pub element_count : Object → Slice → Exec kv (Bool × Count)
  element_count o v t = get_count t.user_id t.db_id o.hash key_prefix (bytes_of o.value) v t

  -- What PutOrDeleteKV does to the counts.
  unfoldable pub count_element : Object → Slice → ℤ → Exec kv ℤ
  count_element o v delta t =
      if is_zero_int delta || (disable_count o && t.config.disable_count)
      then (ok (pos 0), t)
      else (element_count o v >>= store_count delta) t

  -- PutOrDeleteKV
  unfoldable pub put_or_delete_kv : Object → Bytes → Slice → ℤ → Exec kv ℤ
  put_or_delete_kv o k v delta = write_element k v >> count_element o v delta

  -- The object that GetOrCreateUUIDObject and DeleteThenCreateUUIDObject make; `uuid` is what
  -- `uuid.NewUUID` answers.
  unfoldable pub create_uuid_object : Result kv.Fault Bytes → Bytes → Object → Exec kv Object
  create_uuid_object (err e) key o t = (err e, t)
  create_uuid_object (ok id) key o t =
      let o' : Object = record o { value = some id; timestamp = t.timestamp } in
      (set_txn_object key o' plus_count >> pure o') t

  -- GetOrCreateUUIDObject
  unfoldable pub get_or_create_uuid_object : Result kv.Fault Bytes → ℕ → Bytes → Exec kv Object
  get_or_create_uuid_object uuid typo arg t =
      let o = new_object t typo arg in
      with_object (object_key o) o true (create_uuid_object uuid (object_key o)) pure t

  -- The end of DeleteThenCreateUUIDObject.
  unfoldable pub recreate : Result kv.Fault Bytes → Bool → Bytes → Object → Exec kv Object
  recreate uuid create key o t = if create then create_uuid_object uuid key o t else (ok o, t)

  -- DeleteThenCreateUUIDObject
  unfoldable pub delete_then_create_uuid_object :
      Result kv.Fault Bytes → ℕ → Bytes → Bool → Exec kv Object
  delete_then_create_uuid_object uuid typo arg create t =
      let o = new_object t typo arg in
      let key = object_key o in
      with_object key o true (recreate uuid create key)
        (λ o' t'.
          (delete_key key o' t'.now minus_count
              >> recreate uuid create key (clean_value t'.config.object_hash typo o'))
            t')
        t

  -- ListCount; the limit is math.MaxInt16.
  unfoldable pub list_count : ℕ → ℕ → ℕ → Bytes → Exec kv (List Count)
  list_count user db part key t =
      let start = get_key_bytes count_prefix user db part (key ∷ []) in
      up_to_limit (list t start (prefix_next start) 32767 (λ s k v. (true, add_count s k v)) []) t

  -- ScanCount
  unfoldable pub scan_count : Object → Exec kv ℤ
  scan_count o t = elim (get_key_func o) [
    | none ↦ (err not_support, t)
    | some f ↦
        (whole
          (list t (f []) (prefix_next (f [])) (100 * t.config.scan_max_count)
            (λ s k v. (true, count_longer (length (f [])) s k v)) (pos 0))
          t)
  ]

  -- GetCountByObject
  unfoldable pub get_count_by_object : Object → Exec kv ℤ
  get_count_by_object o t =
      if t.config.disable_count && disable_count o
      then scan_count o t
      else (list_count t.user_id t.db_id key_prefix (bytes_of o.value) >>= λ counts.
            pure (sum_counts (pos 0) counts))
          t

  -- GetCountByKey
  unfoldable pub get_count_by_key : Bytes → ℕ → Exec kv ℤ
  get_count_by_key arg typo t =
      let o = new_object t typo arg in
      with_object (object_key o) o false (λ _. pure (pos 0)) get_count_by_object t
