-- ===== src/Command/Strings/Read.antt =====
-- command/string.go: GET, MGET, STRLEN, GETRANGE and GETDEL.
pub mod Range
use lancelot.Base.{
  ℕ, ◌+◌, ◌-◌, ◌≡◌, Bool, true, false, ◌&&◌, Option, none, some, List, [], ◌∷◌, ◌++◌, ltb, leb,
  if◌then◌else◌, Bytes, length, take, drop, codes,
}
use lancelot.Base.Int.{ℤ, pos, negsuc, ◌+ℤ◌, ◌-ℤ◌, ltb_ℤ, pos_part}
use lancelot.Base.Decimal.{parse_int}
use lancelot.Store.Kv.{Kv}
use lancelot.Store.Error.{Error, Result, ok, err, wrong_type, not_integer}
use lancelot.Store.Txn.{Txn, Exec, ◌>>=◌, ◌>>◌, pure, raise}
use lancelot.Command.Object.{Object, Slice, bytes_of, object_key, string_type}
use lancelot.Command.Access.{new_object, with_object, delete_key, minus_count}
use lancelot.Command.Reply.{
  Reply, null, simple_string, simple_int, bulk, array, failure, slice_reply, Handler, set_error,
  set_wrong_args, respond,
}

-- A position that counts from the end where it is negative.
abbrev pub position : Bytes → ℤ → ℤ
position value i = if ltb_ℤ i (pos 0) then pos (length value) +ℤ i else i

-- `value[from:end+1]`, without bytes where it is out of range.
abbrev pub slice_to : Bytes → ℕ → ℕ → Option Bytes
slice_to value from end =
    if leb (end + 1) (length value) && leb from (end + 1)
    then some (take (end + 1 - from) (drop from value))
    else none

-- The rest of getRange, once its bounds count from the start.
unfoldable pub cut_range : Bytes → ℤ → ℤ → Option Bytes × ℤ × ℤ
cut_range value start end =
    let n = pos (length value) in
    let last = if ltb_ℤ (n -ℤ pos 1) end then n -ℤ pos 1 else end in
    let from = pos_part start in
    let to = pos_part last in
    if ltb_ℤ n start
    then (some [], start, last)
    else if ltb_ℤ last start
    then (some [], start, last)
    else (slice_to value from to, pos from, pos to)

-- The function getRange: the bytes, and the bounds that it has come to. Without bytes it has
-- sliced out of range, and the Go code panics.
unfoldable pub get_range : Bytes → ℤ → ℤ → Option Bytes × ℤ × ℤ
unfolding cut_range
get_range value start end = cut_range value (position value start) (position value end)

module _ {kv : Kv} where
  -- Command.getString
  unfoldable pub get_string : Bytes → Exec kv Slice
  unfolding new_object
  get_string arg t =
      let o = new_object t string_type arg in
      with_object (object_key o) o false (λ _. pure none) (λ o'. pure o'.value) t

  -- GetHandle
  unfoldable pub get_handle : List Bytes → Handler kv
  unfolding get_string respond
  get_handle (key ∷ []) t = respond (get_string key >>= λ v. pure (slice_reply v)) t
  get_handle _ t = set_wrong_args (codes "get") t

  -- The loop of MGetHandle.
  unfoldable pub mget_loop : List Bytes → Exec kv (List Slice)
  mget_loop [] t = (ok [], t)
  mget_loop (key ∷ keys) t =
      let (r, t') = get_string key t in
      let rest = λ (v : Slice). (mget_loop keys >>= λ vs. pure (v ∷ vs)) t' in
      elim r [ ok v ↦ rest v | err wrong_type ↦ rest none | err e ↦ (err e, t') ]

  -- MGetHandle
  unfoldable pub mget_handle : List Bytes → Handler kv
  unfolding mget_loop respond
  mget_handle [] t = set_wrong_args (codes "mget") t
  mget_handle args t = respond (mget_loop args >>= λ vs. pure (array vs)) t

  -- GetDelHandle
  unfoldable pub getdel_handle : List Bytes → Handler kv
  unfolding new_object respond
  getdel_handle (key ∷ []) t =
      let o = new_object t string_type key in
      respond
        (with_object (object_key o) o false (λ _. pure null)
          (λ o'. delete_key (object_key o) o' t.now minus_count >> pure (slice_reply o'.value)))
        t
  getdel_handle _ t = set_wrong_args (codes "getdel") t

  -- StrLenHandle
  unfoldable pub strlen_handle : List Bytes → Handler kv
  unfolding get_string respond
  strlen_handle (key ∷ []) t =
      respond (get_string key >>= λ v. pure (simple_int (pos (length (bytes_of v))))) t
  strlen_handle _ t = set_wrong_args (codes "strlen") t

  -- GetRangeHandle, with checkAndGetRange and Command.getRange. The outer `none` is a panic.
  unfoldable pub getrange_handle : List Bytes → Txn kv → Option (Reply kv.Fault × Txn kv)
  unfolding get_range get_string respond
  getrange_handle (key ∷ start ∷ end ∷ []) t = elim (parse_int start) [
    | none ↦ some (set_error not_integer t)
    | some s ↦ elim (parse_int end) [
      | none ↦ some (set_error not_integer t)
      | some e ↦
          (let (r, t') = get_string key t in
            elim r [
              | err x ↦ some (set_error x t')
              | ok none ↦ some (simple_string [], t')
              | ok (some v) ↦ elim (get_range v s e).0 [
                | none ↦ none
                | some [] ↦ some (simple_string [], t')
                | some (b ∷ bs) ↦ some (bulk (b ∷ bs), t')
              ]
            ])
    ]
  ]
  getrange_handle _ t = some (set_wrong_args (codes "getrange") t)
