-- ===== src/Base/Decimal.antt =====
-- strconv's ParseInt and FormatInt in base 10 for 64-bit integers.
use Prim.Native.Nat.{ℕ, zero, suc, ◌+◌, ◌-◌, ◌*◌, ◌/◌, ◌%◌, ◌≤◌, ◌<◌}
use mathlib.Core.Path.{◌≡◌, refl}
use mathlib.Core.Bool.{Bool, true, false, ◌&&◌}
use mathlib.Core.Option.{Option, none, some}
use mathlib.Core.List.{[], ◌∷◌}
use native.Mathlib.Omega.{arith}
use mathlib.Core.Logic.{inl, inr}
use lancelot.Base.Tests.{ltb, leb, ◌==◌, if◌then◌else◌, Bool-cases}
use lancelot.Base.Lists.{Bytes}
use lancelot.Base.Int.{ℤ, pos, negsuc, neg_int, leb_ℤ, max_int64, min_int64, IsInt64}

-- The value of a run of digits after those that make `acc`; any other byte ends it with an error.
unfoldable pub parse_digits : ℕ → Bytes → Option ℕ
parse_digits acc [] = some acc
parse_digits acc (c ∷ cs) =
    let rest = parse_digits (acc * 10 + (c - b'0')) cs in
    if leb b'0' c && leb c b'9' then rest else none

abbrev pub in_int64 : ℤ → Option ℤ
in_int64 v = if leb_ℤ min_int64 v && leb_ℤ v max_int64 then some v else none

abbrev signed : Bool → Option ℕ → Option ℤ
signed negative none = none
signed negative (some n) = in_int64 (if negative then neg_int (pos n) else pos n)

abbrev parse_unsigned : Bytes → Option ℕ
parse_unsigned [] = none
parse_unsigned (c ∷ cs) = parse_digits 0 (c ∷ cs)

-- strconv.ParseInt(s, 10, 64) and strconv.Atoi(s); `none` is an error.
unfoldable pub parse_int : Bytes → Option ℤ
unfolding parse_digits
parse_int [] = none
parse_int (c ∷ cs) =
    if c == b'-'
    then signed true (parse_unsigned cs)
    else if c == b'+'
    then signed false (parse_unsigned cs)
    else signed false (parse_unsigned (c ∷ cs))

-- The decimal digits of a number, before those in `out`. A number has fewer digits than `fuel` as
-- soon as it is below `fuel`.
unfoldable pub format_loop : ℕ → ℕ → Bytes → Bytes
format_loop zero n out = out
format_loop (suc fuel) n out =
    let out' = (b'0' + n % 10) ∷ out in
    let rest = format_loop fuel (n / 10) out' in if ltb n 10 then out' else rest

unfoldable pub format_nat : ℕ → Bytes
unfolding format_loop
format_nat n = format_loop (suc n) n []

-- strconv.FormatInt(v, 10)
unfoldable pub format_int : ℤ → Bytes
unfolding format_nat
format_int (pos n) = format_nat n
format_int (negsuc n) = b'-' ∷ format_nat (suc n)

parse_digits-format_loop :
    (fuel n : ℕ) (out : Bytes)
    → n < fuel
    → parse_digits 0 (format_loop fuel n out) ≡ parse_digits n out
unfolding format_loop parse_digits
parse_digits-format_loop zero n out h = absurd (omega arith)
parse_digits-format_loop (suc fuel) n out h =
    ground (arith, parse_digits-format_loop fuel (n / 10) ((b'0' + n % 10) ∷ out))

-- The text of a number begins with a digit.
record StartsWithDigit (b : Bytes) : Type 0 where
  first : ℕ
  rest : Bytes
  shape : b ≡ first ∷ rest
  low : b'0' ≤ first
  high : first ≤ b'9'

format_loop-StartsWithDigit :
    (fuel n : ℕ) (out : Bytes) → n < fuel → StartsWithDigit (format_loop fuel n out)
unfolding format_loop
format_loop-StartsWithDigit zero n out h = absurd (omega arith)
format_loop-StartsWithDigit (suc fuel) n out h = elim (Bool-cases (ltb n 10)) [
  | inl last ↦ rw last (record {
    first = b'0' + n % 10;
    rest = out;
    shape = refl;
    low = omega arith;
    high = omega arith;
  })
  | inr more ↦
      rw more (format_loop-StartsWithDigit fuel (n / 10) ((b'0' + n % 10) ∷ out) (ground arith))
]

format_nat-digits : (n : ℕ) → parse_digits 0 (format_nat n) ≡ some n
unfolding format_nat parse_digits
format_nat-digits n = parse_digits-format_loop (suc n) n [] (omega arith)

format_nat-StartsWithDigit : (n : ℕ) → StartsWithDigit (format_nat n)
unfolding format_nat
format_nat-StartsWithDigit n = format_loop-StartsWithDigit (suc n) n [] (omega arith)

-- What FormatInt prints, ParseInt reads.
pub parse_int-format_int : (v : ℤ) → IsInt64 v → parse_int (format_int v) ≡ some v
unfolding parse_int format_int
parse_int-format_int (pos n) h =
    let d = format_nat-StartsWithDigit n in
    let e : parse_digits 0 (d.first ∷ d.rest) ≡ some n = rw d.shape at (format_nat-digits n) in
    rw d.shape (ground arith)
parse_int-format_int (negsuc n) h =
    let d = format_nat-StartsWithDigit (suc n) in
    let e : parse_digits 0 (d.first ∷ d.rest) ≡ some (suc n) =
      rw d.shape at (format_nat-digits (suc n)) in
    rw d.shape (ground arith)

in_int64-IsInt64 : (v w : ℤ) → in_int64 v ≡ some w → IsInt64 w
in_int64-IsInt64 v w h = ground arith

signed-IsInt64 : (b : Bool) (o : Option ℕ) (w : ℤ) → signed b o ≡ some w → IsInt64 w
signed-IsInt64 b none w h = ground arith
signed-IsInt64 b (some n) w h = in_int64-IsInt64 (if b then neg_int (pos n) else pos n) w h

-- An integer that ParseInt returns fits.
pub parse_int-IsInt64 : (b : Bytes) (v : ℤ) → parse_int b ≡ some v → IsInt64 v
unfolding parse_int
parse_int-IsInt64 [] v h = ground arith
parse_int-IsInt64 (c ∷ cs) v h = ground (
  arith,
  signed-IsInt64 true (parse_unsigned cs) v,
  signed-IsInt64 false (parse_unsigned cs) v,
  signed-IsInt64 false (parse_unsigned (c ∷ cs)) v,
)
