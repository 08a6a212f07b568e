-- ===== src/Utils/Int.antt =====
-- utils/int.go: arguments read as integers, and the overflow test of the INCR commands.
use lancelot.Base.{
  ◌≡◌, ◌↔◌, Bool, true, false, ◌&&◌, Option, none, some, if◌then◌else◌, Bytes, arith,
}
use lancelot.Base.Int.{
  ℤ, pos, ◌+ℤ◌, ◌-ℤ◌, neg_int, leb_ℤ, ltb_ℤ, max_int64, min_int64, IsInt64, wrap_int64,
}
use lancelot.Base.Decimal.{parse_int}

-- Abs
unfoldable pub abs : ℤ → ℤ
unfolding wrap_int64
abs x = if ltb_ℤ x (pos 0) then wrap_int64 (neg_int x) else x

-- GetNonnegativeInt64
unfoldable pub nonnegative_int : Bytes → Option ℤ
nonnegative_int arg = elim (parse_int arg) [
  | none ↦ none
  | some offset ↦ if ltb_ℤ offset (pos 0) then none else some offset
]

-- GetPositiveInt
unfoldable pub positive_int : Bytes → Option ℤ
positive_int arg = elim (parse_int arg) [
  | none ↦ none
  | some offset ↦ if leb_ℤ offset (pos 0) then none else some offset
]

-- ValidIncrementInt; its two differences cannot overflow.
unfoldable pub valid_increment_int : ℤ → ℤ → Bool
valid_increment_int v i =
    if leb_ℤ (pos 0) v && ltb_ℤ (max_int64 -ℤ v) i
    then false
    else if ltb_ℤ v (pos 0) && ltb_ℤ i (min_int64 -ℤ v)
    then false
    else true

-- For two int64 values the test passes exactly when their true sum is an int64 value.
pub valid_increment_int_iff :
    (v i : ℤ) → IsInt64 v → IsInt64 i → (valid_increment_int v i ≡ true) ↔ IsInt64 (v +ℤ i)
unfolding valid_increment_int
valid_increment_int_iff v i hv hi = ground arith
