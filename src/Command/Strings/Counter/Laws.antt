-- ===== src/Command/Strings/Counter/Laws.antt =====
-- What INCRBY and DECRBY compute.
use lancelot.Base.{
  ◌-◌, ◌^◌, ◌≡◌, ◌≢◌, refl, ap, ◌∙◌, Bool, true, false, ◌&&◌, some, if◌then◌else◌, Bytes, arith,
}
use lancelot.Base.Int.{
  ℤ, pos, negsuc, ◌+ℤ◌, neg_int, leb_ℤ, IsInt64, min_int64, max_int64, wrap_int64, wrap_int64_lem,
}
use lancelot.Base.Decimal.{parse_int, format_int, parse_int-IsInt64}
use lancelot.Utils.Int.{valid_increment_int_iff}
use lancelot.Store.Error.{Result, ok, err, overflow}
use lancelot.Command.Object.{Object}
use lancelot.Command.Strings.Counter.{int_func, decr_by, is_zero}

-- What adding `delta` to the integer `n` gives: an error where the sum is no int64 value, and the
-- object with the sum in decimal otherwise. Adding 0 changes nothing.
abbrev pub added : {F : Type 0} → ℤ → ℤ → Object → Result F (Object × ℤ × Bool)
added n delta o =
    if is_zero delta
    then ok (o, n, false)
    else if leb_ℤ min_int64 (n +ℤ delta) && leb_ℤ (n +ℤ delta) max_int64
    then ok (record o { value = some (format_int (n +ℤ delta)) }, n +ℤ delta, true)
    else err overflow

-- On an object whose value is the integer `n`, intFunc of an int64 value adds it and stores the sum
-- in decimal, or reports an overflow where the sum is no int64 value; adding 0 changes nothing.
pub int_func-added :
    {F : Type 0} (n delta : ℤ) (o : Object) (v : Bytes)
    → o.value ≡ some v
    → parse_int v ≡ some n
    → IsInt64 delta
    → int_func {F = F} delta o ≡ added n delta o
unfolding int_func
int_func-added n delta o v e p h =
    let hn = parse_int-IsInt64 v n p in
    ground (arith, valid_increment_int_iff n delta hn h, wrap_int64_lem (n +ℤ delta))

neg_int-IsInt64 : (m : ℤ) → IsInt64 m → m ≢ min_int64 → IsInt64 (neg_int m)
neg_int-IsInt64 (pos n) h ne = ground arith
neg_int-IsInt64 (negsuc n) h ne =
    let k : n ≢ 2 ^ 63 - 1 = λ e. ne (ap negsuc e) in
    record { above = ground arith; below = ground (arith, h.above, k) }

least_negated : wrap_int64 (neg_int min_int64) ≡ min_int64
unfolding wrap_int64
least_negated = refl

min_int64-IsInt64 : IsInt64 min_int64
min_int64-IsInt64 = record { above = omega arith; below = omega arith }

decr_by-eq :
    {F : Type 0} (m : ℤ) (o : Object) (arg : Bytes)
    → parse_int arg ≡ some m
    → decr_by {F = F} arg o ≡ int_func (wrap_int64 (neg_int m)) o
unfolding decr_by
decr_by-eq m o arg q = ground (arith, q)

-- On an object whose value is an integer, DECRBY of the least int64 value adds it, and does not
-- subtract it: its negation wraps to itself.
pub decr_by-least :
    {F : Type 0} (n : ℤ) (o : Object) (arg v : Bytes)
    → o.value ≡ some v
    → parse_int v ≡ some n
    → parse_int arg ≡ some min_int64
    → decr_by {F = F} arg o ≡ added n min_int64 o
decr_by-least n o arg v e p q =
    decr_by-eq min_int64 o arg q
    ∙ ap (λ d. int_func d o) least_negated
    ∙ int_func-added n min_int64 o v e p min_int64-IsInt64

-- On an object whose value is an integer, DECRBY subtracts its argument, unless that is the least
-- int64 value, or reports an overflow where the difference is no int64 value.
pub decr_by-added :
    {F : Type 0} (n m : ℤ) (o : Object) (arg v : Bytes)
    → o.value ≡ some v
    → parse_int v ≡ some n
    → parse_int arg ≡ some m
    → m ≢ min_int64
    → decr_by {F = F} arg o ≡ added n (neg_int m) o
decr_by-added n m o arg v e p q ne =
    let h = neg_int-IsInt64 m (parse_int-IsInt64 arg m q) ne in
    decr_by-eq m o arg q
    ∙ ap (λ d. int_func d o) (wrap_int64_lem (neg_int m) h)
    ∙ int_func-added n (neg_int m) o v e p h
