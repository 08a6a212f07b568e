-- ===== src/Command/Hash/Write.antt =====
-- command/hash.go: HSET, HSETNX, HMSET, HDEL and HINCRBY.
pub mod Laws
use lancelot.Base.{
  ℕ, ◌+◌, Bool, true, false, not, Option, none, some, List, [], ◌∷◌, if◌then◌else◌, Bytes, codes,
}
use lancelot.Base.Int.{ℤ, pos, negsuc, ◌+ℤ◌, wrap_int64}
use lancelot.Base.Decimal.{parse_int, format_int}
use lancelot.Utils.Int.{valid_increment_int}
use lancelot.Store.Kv.{Kv}
use lancelot.Store.Error.{Error, Result, ok, err, not_integer, overflow}
use lancelot.Store.Txn.{Txn, Exec, ◌>>=◌, ◌>>◌, pure, raise}
use lancelot.Command.Object.{Object, Slice, object_key, object_value_key, hash_type}
use lancelot.Command.Access.{new_object, with_object}
use lancelot.Command.Elements.{
  Value, encode_value, decode_value, find, put_or_delete_kv, get_or_create_uuid_object, is_zero_int,
}
use lancelot.Command.Reply.{Reply, simple_int, ok_reply, Handler, set_wrong_args, respond}

-- `len(args) < 3 || len(args)%2 != 1`, for the arguments after the key
abbrev pub are_pairs : List Bytes → Bool
are_pairs [] = true
are_pairs (f ∷ []) = false
are_pairs (f ∷ v ∷ rest) = are_pairs rest

abbrev pub fields_given : List Bytes → Bool
fields_given [] = false
fields_given args = are_pairs args

module _ {kv : Kv} where
  -- An element as the commands write it.
  unfoldable pub element : Bytes → Txn kv → Bytes
  element value t = encode_value (record { timestamp = t.timestamp; value = value })

  -- The write in the loop of hset: `n` is 1 for a new field.
  unfoldable pub put_field : Object → Bytes → Bytes → ℤ → ℕ → Exec kv ℕ
  put_field o field value delta n t =
      (put_or_delete_kv o (object_value_key o field) (some (element value t)) delta >>= λ _. pure n)
        t

  unfoldable pub set_old : Object → Bool → Bytes → Bytes → Slice → Exec kv ℕ
  set_old o check_exist field value none t = put_field o field value (pos 1) 1 t
  set_old o check_exist field value (some _) t =
      if check_exist then (ok 0, t) else put_field o field value (pos 0) 0 t

  -- One turn of the loop of hset: 1 for a field that is new.
  unfoldable pub set_field : Object → Bool → Bytes → Bytes → Exec kv ℕ
  set_field o check_exist field value =
      find (object_value_key o field) >>= set_old o check_exist field value

  -- The loop of hset over fields and values; its callers have checked that they come in pairs.
  unfoldable pub hset_loop : Object → Bool → List Bytes → ℕ → Exec kv ℕ
  hset_loop o check_exist (field ∷ value ∷ rest) ret =
      set_field o check_exist field value >>= λ n. hset_loop o check_exist rest (ret + n)
  hset_loop o check_exist _ ret = pure ret

  -- hset
  unfoldable pub hset : Result kv.Fault Bytes → Bytes → List Bytes → Bool → Exec kv ℕ
  hset uuid key args check_exist =
      get_or_create_uuid_object uuid hash_type key >>= λ o. hset_loop o check_exist args 0

  -- HSetHandle
  unfoldable pub hset_handle : Result kv.Fault Bytes → List Bytes → Handler kv
  hset_handle uuid (key ∷ args) t =
      if fields_given args
      then respond (hset uuid key args false >>= λ n. pure (simple_int (pos n))) t
      else set_wrong_args (codes "hset") t
  hset_handle uuid [] t = set_wrong_args (codes "hset") t

  -- HMSetHandle
  unfoldable pub hmset_handle : Result kv.Fault Bytes → List Bytes → Handler kv
  hmset_handle uuid (key ∷ args) t =
      if fields_given args
      then respond (hset uuid key args false >>= λ _. pure (ok_reply kv.Fault)) t
      else set_wrong_args (codes "hmset") t
  hmset_handle uuid [] t = set_wrong_args (codes "hmset") t

  -- HSetNXHandle
  unfoldable pub hsetnx_handle : Result kv.Fault Bytes → List Bytes → Handler kv
  hsetnx_handle uuid (key ∷ field ∷ value ∷ []) t =
      respond (hset uuid key (field ∷ value ∷ []) true >>= λ n. pure (simple_int (pos n))) t
  hsetnx_handle uuid _ t = set_wrong_args (codes "hsetnx") t

  -- One turn of the loop of HDelHandle, and of srem in command/set.go: 1 for an element that is there.
  unfoldable pub remove_old : Object → Bytes → Slice → Exec kv ℕ
  remove_old o field none = pure 0
  remove_old o field (some _) =
      put_or_delete_kv o (object_value_key o field) none (negsuc 0) >>= λ _. pure 1

  unfoldable pub remove_field : Object → Bytes → Exec kv ℕ
  remove_field o field = find (object_value_key o field) >>= remove_old o field

  -- The loops of HDelHandle and srem
  unfoldable pub remove_loop : Object → List Bytes → ℕ → Exec kv ℕ
  remove_loop o [] ret = pure ret
  remove_loop o (field ∷ fields) ret = remove_field o field >>= λ n. remove_loop o fields (ret + n)

  -- HDelHandle
  unfoldable pub hdel_handle : List Bytes → Handler kv
  hdel_handle (key ∷ field ∷ fields) t =
      let o = new_object t hash_type key in
      respond
        (with_object (object_key o) o false (λ _. pure (simple_int (pos 0)))
          (λ o'. remove_loop o' (field ∷ fields) 0 >>= λ n. pure (simple_int (pos n))))
        t
  hdel_handle _ t = set_wrong_args (codes "hdel") t

-- What HINCRBY makes of the stored element: the new integer and whether to store it, with the delta
-- of the count.
unfoldable pub next_integer : {F : Type 0} → ℤ → Slice → Result F (ℤ × Bool × ℤ)
next_integer by none =
    if valid_increment_int (pos 0) by
    then ok (wrap_int64 (pos 0 +ℤ by), true, pos 1)
    else err overflow
next_integer by (some raw) = elim (decode_value raw) [
  | none ↦
      if valid_increment_int (pos 0) by
      then ok (wrap_int64 (pos 0 +ℤ by), true, pos 0)
      else err overflow
  | some v ↦ elim (parse_int v.value) [
    | none ↦ err not_integer
    | some n ↦
        if is_zero_int by
        then ok (n, false, pos 0)
        else if valid_increment_int n by
        then ok (wrap_int64 (n +ℤ by), true, pos 0)
        else err overflow
  ]
]

module _ {kv : Kv} where
  unfoldable pub store_integer : Object → Bytes → ℤ × Bool × ℤ → Exec kv (Reply kv.Fault)
  store_integer o key (n, changed, delta) t =
      if changed
      then (put_or_delete_kv o key (some (element (format_int n) t)) delta >>= λ _.
            pure (simple_int n))
          t
      else (ok (simple_int n), t)

  -- HIncrByHandle, from the object on
  unfoldable pub incr_field : ℤ → Bytes → Object → Exec kv (Reply kv.Fault)
  incr_field by field o = find (object_value_key o field) >>= λ old. λ t.
      elim (next_integer by old) [
        | err e ↦ (err e, t)
        | ok n ↦ store_integer o (object_value_key o field) n t
      ]

  -- HIncrByHandle
  unfoldable pub hincrby_handle : Result kv.Fault Bytes → List Bytes → Handler kv
  hincrby_handle uuid (key ∷ field ∷ arg ∷ []) t =
      respond
        (λ t'. elim (parse_int arg) [
          | none ↦ (err not_integer, t')
          | some by ↦ (get_or_create_uuid_object uuid hash_type key >>= incr_field by field) t'
        ])
        t
  hincrby_handle uuid _ t = set_wrong_args (codes "hincrby") t
