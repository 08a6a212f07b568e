-- ===== src/Command/Hash/Read.antt =====
-- command/hash.go: HGET, HMGET, HEXISTS, HSTRLEN, HLEN, HGETALL, HKEYS, HVALS and HRANDFIELD.
use mathlib.Core.Option
use lancelot.Base.{
  ℕ, ◌+◌, ◌*◌, ◌/◌, ◌-◌, ◌%◌, ◌^◌, Bool, true, false, not, ◌&&◌, ◌||◌, Option, none, some, List, [],
  ◌∷◌, ◌++◌, ltb, leb, ◌==◌, if◌then◌else◌, Bytes, length, drop, get_or, codes, bytes_eq, to_lower,
  zero, suc,
}
use lancelot.Base.Int.{ℤ, pos, ltb_ℤ, pos_part, neg_part}
use lancelot.Base.Decimal.{parse_int}
use lancelot.Utils.Bytes.{prefix_next}
use lancelot.Store.Kv.{Kv}
use lancelot.Store.Error.{ok, err, not_integer, syntax}
use lancelot.Store.Txn.{Txn, Exec, ◌>>=◌, pure}
use lancelot.Store.Scan.{list, up_to_limit}
use lancelot.Command.Object.{Object, Slice, bytes_of, object_key, object_value_key, hash_type}
use lancelot.Command.Access.{new_object, with_object}
use lancelot.Command.Elements.{decode_value, find, get_count_by_key}
use lancelot.Command.Reply.{
  Reply, null, array, simple_int, bulk_int, slice_reply, Handler, set_error, set_wrong_args,
  respond,
}

-- `hvalue.Value` after DecodeValue, whose error leaves nothing there.
abbrev pub value_slice : Bytes → Slice
value_slice raw = elim (decode_value raw) [ none ↦ none | some v ↦ some (v.value) ]

-- OnlyKey, OnlyValue, BothKV
pub data GetType : Type 0 where
  only_key only_value both_kv : GetType

abbrev pub wants_key : GetType → Bool
wants_key only_value = false
wants_key _ = true

abbrev pub wants_value : GetType → Bool
wants_value only_key = false
wants_value _ = true

-- The callback of hgetall.
unfoldable pub collect : GetType → Bytes → List Slice → Bytes → Bytes → List Slice
collect what start ret key value =
    if ltb (length key) (length start)
    then ret
    else ret
      ++ ((if wants_key what then some (drop (length start) key) ∷ [] else [])
          ++ (if wants_value what then value_slice value ∷ [] else []))

abbrev pub nulls : List Bytes → List Slice
nulls [] = []
nulls (f ∷ fs) = none ∷ nulls fs

abbrev pub within_limit : ℕ → ℕ → ℕ
within_limit limit most = if leb limit 0 || ltb most limit then most else limit

module _ {kv : Kv} where
  -- hget, once the object is there
  unfoldable pub get_field : Bytes → Object → Exec kv Slice
  get_field field o = find (object_value_key o field) >>= λ raw.
      pure (elim raw [ none ↦ none | some b ↦ value_slice b ])

  -- hget
  unfoldable pub hget : Bytes → Bytes → Exec kv Slice
  hget key field t =
      let o = new_object t hash_type key in
      with_object (object_key o) o false (λ _. pure none) (get_field field) t

  -- HGetHandle
  unfoldable pub hget_handle : List Bytes → Handler kv
  hget_handle (key ∷ field ∷ []) t = respond (hget key field >>= λ v. pure (slice_reply v)) t
  hget_handle _ t = set_wrong_args (codes "hget") t

  -- HExistsHandle
  unfoldable pub hexists_handle : List Bytes → Handler kv
  hexists_handle (key ∷ field ∷ []) t =
      respond
        (hget key field >>= λ v.
          pure (elim v [ none ↦ simple_int (pos 0) | some _ ↦ simple_int (pos 1) ]))
        t
  hexists_handle _ t = set_wrong_args (codes "hexists") t

  -- HStrLenHandle, which replies a Go int and so a string of digits
  unfoldable pub hstrlen_handle : List Bytes → Handler kv
  hstrlen_handle (key ∷ field ∷ []) t =
      respond (hget key field >>= λ v. pure (bulk_int (pos (length (bytes_of v))))) t
  hstrlen_handle _ t = set_wrong_args (codes "hstrlen") t

  -- The loop of HMGetHandle
  unfoldable pub hmget_loop : Object → List Bytes → Exec kv (List Slice)
  hmget_loop o [] = pure []
  hmget_loop o (field ∷ fields) =
      get_field field o >>= λ v. (hmget_loop o fields >>= λ vs. pure (v ∷ vs))

  -- HMGetHandle
  unfoldable pub hmget_handle : List Bytes → Handler kv
  hmget_handle (key ∷ field ∷ fields) t =
      let o = new_object t hash_type key in
      respond
        (with_object (object_key o) o false (λ _. pure (array (nulls (field ∷ fields))))
          (λ o'. hmget_loop o' (field ∷ fields) >>= λ vs. pure (array vs)))
        t
  hmget_handle _ t = set_wrong_args (codes "hmget") t

  -- HLenHandle
  unfoldable pub hlen_handle : List Bytes → Handler kv
  hlen_handle (key ∷ []) t = respond (get_count_by_key key hash_type >>= λ n. pure (simple_int n)) t
  hlen_handle _ t = set_wrong_args (codes "hlen") t

  -- hgetall, once the object is there
  unfoldable pub list_fields : GetType → ℕ → Object → Exec kv (List Slice)
  list_fields what limit o t =
      let start = object_value_key o [] in
      up_to_limit
        (list t start (prefix_next start) (within_limit limit t.config.scan_max_count)
          (λ s k v. (true, collect what start s k v)) [])
        t

  -- hgetall
  unfoldable pub hgetall : Bytes → GetType → ℕ → Exec kv (List Slice)
  hgetall key what limit t =
      let o = new_object t hash_type key in
      with_object (object_key o) o false (λ _. pure []) (list_fields what limit) t

  -- HGetAllHandle
  unfoldable pub hgetall_handle : List Bytes → Handler kv
  hgetall_handle (key ∷ []) t = respond (hgetall key both_kv 0 >>= λ r. pure (array r)) t
  hgetall_handle _ t = set_wrong_args (codes "hgetall") t

  -- HKeysHandle
  unfoldable pub hkeys_handle : List Bytes → Handler kv
  hkeys_handle (key ∷ []) t = respond (hgetall key only_key 0 >>= λ r. pure (array r)) t
  hkeys_handle _ t = set_wrong_args (codes "hkeys") t

  -- HValsHandle
  unfoldable pub hvals_handle : List Bytes → Handler kv
  hvals_handle (key ∷ []) t = respond (hgetall key only_value 0 >>= λ r. pure (array r)) t
  hvals_handle _ t = set_wrong_args (codes "hvals") t

-- The repetitions of HRANDFIELD with a negative count: `draw i cur` is the i-th `rand.Intn(cur)`. Each
-- item is a field, or a field and its value.
unfoldable pub repeat_fields : (ℕ → ℕ → ℕ) → Bool → ℕ → ℕ → ℕ → List Slice → List Slice
repeat_fields draw both cur i zero ret = ret
repeat_fields draw both cur i (suc missing) ret =
    let c = draw i cur in
    repeat_fields draw both cur (i + 1) missing (
      ret
      ++ (if both
          then get_or ret (2 * c) none ∷ get_or ret (2 * c + 1) none ∷ []
          else get_or ret c none ∷ []))

-- `count` or `-count`; the negation of the least integer wraps to itself and is not positive.
abbrev pub wanted_count : ℤ → ℕ
wanted_count count = pos_part count + neg_part count % 2 ^ 63

-- The end of HRandFieldHandle with a count. `none` is the panic of `rand.Intn(0)`.
unfoldable pub pad_fields : (ℕ → ℕ → ℕ) → Bool → ℤ → List Slice → Option (List Slice)
pad_fields draw both count ret =
    let wanted = wanted_count count in
    let cur : ℕ = if both then length ret / 2 else length ret in
    if not (ltb_ℤ count (pos 0)) || not (ltb cur wanted)
    then some ret
    else if cur == 0
    then none
    else some (repeat_fields draw both cur 0 (wanted - cur) ret)

-- What a handler that can panic leaves.
abbrev pub Outcome : Kv → Type 0
Outcome kv = Option (Reply kv.Fault × Txn kv)

module _ {kv : Kv} (draw : ℕ → ℕ → ℕ) where
  -- HRandFieldHandle with a count that is not 0.
  unfoldable pub random_fields : Bytes → Bool → ℤ → Txn kv → Outcome kv
  random_fields key both count t =
      let (r, t') = hgetall key (if both then both_kv else only_key) (wanted_count count) t in
      elim r [
        | err e ↦ some (set_error e t')
        | ok ret ↦ Option.map (λ l. (array l, t')) (pad_fields draw both count ret)
      ]

  unfoldable pub counted_fields : Bytes → ℤ → List Bytes → Txn kv → Outcome kv
  counted_fields key count options t =
      if pos_part count == 0 && neg_part count == 0 then some (array [], t) else elim options [
        | [] ↦ random_fields key false count t
        | option ∷ _ ↦
            if bytes_eq (to_lower option) (codes "withvalues")
            then random_fields key true count t
            else some (set_error syntax t)
      ]

  -- HRandFieldHandle; the outer `none` is a panic.
  unfoldable pub hrandfield_handle : List Bytes → Txn kv → Outcome kv
  hrandfield_handle (key ∷ []) t = some (
      respond (hgetall key only_key 0 >>= λ r. pure (elim r [ [] ↦ null | f ∷ _ ↦ slice_reply f ]))
        t)
  hrandfield_handle (key ∷ n ∷ []) t = elim (parse_int n) [
    | none ↦ some (set_error not_integer t)
    | some count ↦ counted_fields key count [] t
  ]
  hrandfield_handle (key ∷ n ∷ option ∷ []) t = elim (parse_int n) [
    | none ↦ some (set_error not_integer t)
    | some count ↦ counted_fields key count (option ∷ []) t
  ]
  hrandfield_handle _ t = some (set_wrong_args (codes "hrandfield") t)
