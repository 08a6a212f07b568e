-- ===== src/Command/Strings/Counter.antt =====
-- command/string.go: INCR, DECR, INCRBY and DECRBY.
pub mod Laws
pub mod Handle
use lancelot.Base.{
  ℕ, ◌≡◌, Bool, true, false, not, ◌&&◌, Option, none, some, List, [], ◌∷◌, if◌then◌else◌, Bytes,
  codes, ◌==◌,
}
use lancelot.Base.Int.{ℤ, pos, negsuc, ◌+ℤ◌, neg_int, wrap_int64, pos_part, neg_part}
use lancelot.Base.Decimal.{parse_int, format_int}
use lancelot.Utils.Int.{valid_increment_int}
use lancelot.Store.Kv.{Kv}
use lancelot.Store.Error.{
  Error, Result, ok, err, key_not_found, key_is_locked, not_integer, overflow,
}
use lancelot.Store.Txn.{Txn, Exec, is_skip_conflict}
use lancelot.Command.Object.{Object, object_key, string_type}
use lancelot.Command.Access.{
  new_object, get_txn_object, set_txn_object, Change, no_change, plus_count,
}
use lancelot.Command.Reply.{Reply, simple_int, bulk_int, Handler, set_error, set_wrong_args}

-- The test `delta == 0`.
abbrev pub is_zero : ℤ → Bool
is_zero d = pos_part d == 0 && neg_part d == 0

-- intFunc: the object with its new value, the integer of the reply, and whether the object has
-- changed.
unfoldable pub int_func : {F : Type 0} → ℤ → Object → Result F (Object × ℤ × Bool)
int_func delta o = elim o.value [
  | none ↦ ok (record o { value = some (format_int delta) }, delta, true)
  | some v ↦ elim (parse_int v) [
    | none ↦ err not_integer
    | some n ↦
        (let sum = wrap_int64 (n +ℤ delta) in
          if is_zero delta
          then ok (o, n, false)
          else if not (valid_increment_int n delta)
          then err overflow
          else ok (record o { value = some (format_int sum) }, sum, true))
  ]
]

-- The `stringFunc` of INCRBY and of DECRBY; the negation of DECRBY wraps.
unfoldable pub incr_by : {F : Type 0} → Bytes → Object → Result F (Object × ℤ × Bool)
unfolding int_func
incr_by arg o = elim (parse_int arg) [ none ↦ err not_integer | some n ↦ int_func n o ]

unfoldable pub decr_by : {F : Type 0} → Bytes → Object → Result F (Object × ℤ × Bool)
unfolding int_func
decr_by arg o = elim (parse_int arg) [
  | none ↦ err not_integer
  | some n ↦ int_func (wrap_int64 (neg_int n)) o
]

module _ {kv : Kv} where
  -- The end of stringHandle: the changed object is stored.
  unfoldable pub store_changed : Bytes → Object → Change → ℤ → Handler kv
  store_changed key o create value t =
      let (r, t') = set_txn_object key (record o { timestamp = t.timestamp }) create t in
      elim r [
        | ok _ ↦ (simple_int value, t')
        | err key_is_locked ↦
            if is_skip_conflict t then (simple_int value, t') else set_error key_is_locked t'
        | err e ↦ set_error e t'
      ]

  -- The part of stringHandle around its `stringFunc`. The reply of an unchanged object is a Go int64,
  -- which is written as a string of digits; the one of a changed object is a SimpleInt.
  unfoldable pub apply_string_func :
      Bytes → Object → Change → Bool → (Object → Result kv.Fault (Object × ℤ × Bool)) → Handler kv
  apply_string_func key o create conflict f t = elim (f o) [
    | err e ↦ set_error e t
    | ok (o', value, changed) ↦
        if not changed
        then (bulk_int value, t)
        else if conflict
        then (simple_int value, t)
        else store_changed key o' create value t
  ]

  -- How stringHandle goes on from the error of getTxnObject.
  unfoldable pub after_lookup :
      Option (Error kv.Fault)
      → Bytes
      → Object
      → (Object → Result kv.Fault (Object × ℤ × Bool))
      → Handler kv
  after_lookup none key o f t = apply_string_func key o no_change false f t
  after_lookup (some key_not_found) key o f t = apply_string_func key o plus_count false f t
  after_lookup (some key_is_locked) key o f t =
      if is_skip_conflict t
      then apply_string_func key o no_change true f t
      else set_error key_is_locked t
  after_lookup (some e) key o f t = set_error e t

  -- stringHandle
  unfoldable pub string_handle : Bytes → (Object → Result kv.Fault (Object × ℤ × Bool)) → Handler kv
  string_handle arg f t =
      let o = new_object t string_type arg in
      let ((e, o'), t') = get_txn_object (object_key o) o true t in
      after_lookup e (object_key o) o' f t'

  -- IncrHandle
  unfoldable pub incr_handle : List Bytes → Handler kv
  unfolding string_handle set_wrong_args
  incr_handle (key ∷ []) t = string_handle key (int_func (pos 1)) t
  incr_handle _ t = set_wrong_args (codes "incr") t

  -- DecrHandle
  unfoldable pub decr_handle : List Bytes → Handler kv
  unfolding string_handle set_wrong_args
  decr_handle (key ∷ []) t = string_handle key (int_func (negsuc 0)) t
  decr_handle _ t = set_wrong_args (codes "decr") t

  -- IncrByHandle
  unfoldable pub incrby_handle : List Bytes → Handler kv
  unfolding string_handle set_wrong_args
  incrby_handle (key ∷ by ∷ []) t = string_handle key (incr_by by) t
  incrby_handle _ t = set_wrong_args (codes "incrby") t

  -- DecrByHandle
  unfoldable pub decrby_handle : List Bytes → Handler kv
  unfolding string_handle set_wrong_args
  decrby_handle (key ∷ by ∷ []) t = string_handle key (decr_by by) t
  decrby_handle _ t = set_wrong_args (codes "decrby") t
