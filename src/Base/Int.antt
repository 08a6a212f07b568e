-- ===== src/Base/Int.antt =====
-- Go's signed integers as ℤ, and their conversions to and from machine words.
use Prim.Native.Nat.{ℕ, suc, ◌+◌, ◌-◌, ◌^◌, ◌≤◌, ◌<◌, ◌%◌}
use mathlib.Core.Path.{◌≡◌, sym, ap, ◌∙◌}
use mathlib.Core.Bool.{Bool}
use native.Mathlib.Omega.{arith}
use lancelot.Base.Tests.{ltb, leb, if◌then◌else◌}

-- `negsuc n` is -(n + 1).
pub data ℤ : Type 0 where
  pos : ℕ → ℤ
  negsuc : ℕ → ℤ

abbrev pub pos_part : ℤ → ℕ
pos_part (pos n) = n
pos_part (negsuc n) = 0

abbrev pub neg_part : ℤ → ℕ
neg_part (pos n) = 0
neg_part (negsuc n) = suc n

-- a - b, as an integer.
abbrev pub sub_ℕ : ℕ → ℕ → ℤ
sub_ℕ a b = if leb b a then pos (a - b) else negsuc (b - a - 1)

infixl 65 ◌+ℤ◌ ◌-ℤ◌
infix 50 ◌≤ℤ◌ ◌<ℤ◌
abbrev pub ◌+ℤ◌ : ℤ → ℤ → ℤ
a +ℤ b = sub_ℕ (pos_part a + pos_part b) (neg_part a + neg_part b)

abbrev pub neg_int : ℤ → ℤ
neg_int a = sub_ℕ (neg_part a) (pos_part a)

abbrev pub ◌-ℤ◌ : ℤ → ℤ → ℤ
a -ℤ b = sub_ℕ (pos_part a + neg_part b) (neg_part a + pos_part b)

abbrev pub ◌≤ℤ◌ : ℤ → ℤ → Type 0
a ≤ℤ b = pos_part a + neg_part b ≤ pos_part b + neg_part a

abbrev pub ◌<ℤ◌ : ℤ → ℤ → Type 0
a <ℤ b = pos_part a + neg_part b < pos_part b + neg_part a

abbrev pub leb_ℤ : ℤ → ℤ → Bool
leb_ℤ a b = leb (pos_part a + neg_part b) (pos_part b + neg_part a)

abbrev pub ltb_ℤ : ℤ → ℤ → Bool
ltb_ℤ a b = ltb (pos_part a + neg_part b) (pos_part b + neg_part a)

abbrev pub max_int64 : ℤ
max_int64 = pos (2 ^ 63 - 1)

abbrev pub min_int64 : ℤ
min_int64 = negsuc (2 ^ 63 - 1)

-- The values that an `int64` holds.
pub record IsInt64 (v : ℤ) : Type 0 where
  pub above : min_int64 ≤ℤ v
  pub below : v ≤ℤ max_int64

-- The Go conversion `uint64(v)`.
unfoldable pub uint64_of : ℤ → ℕ
uint64_of (pos n) = n % 2 ^ 64
uint64_of (negsuc n) = 2 ^ 64 - 1 - n % 2 ^ 64

-- The Go conversion `int64(u)`.
unfoldable pub int64_of : ℕ → ℤ
int64_of u = if ltb u (2 ^ 63) then pos u else negsuc (2 ^ 64 - 1 - u)

pub int64_of-uint64_of : (v : ℤ) → IsInt64 v → int64_of (uint64_of v) ≡ v
unfolding int64_of uint64_of
int64_of-uint64_of (pos n) h = ground arith
int64_of-uint64_of (negsuc n) h = ground arith

pub uint64_of-lt : (v : ℤ) → uint64_of v < 2 ^ 64
unfolding uint64_of
uint64_of-lt (pos n) = omega arith
uint64_of-lt (negsuc n) = omega arith

pub uint64_of-int64_of : (u : ℕ) → u < 2 ^ 64 → uint64_of (int64_of u) ≡ u
unfolding int64_of uint64_of
uint64_of-int64_of u h = ground arith

-- An `int64` result of arithmetic, which wraps round.
unfoldable pub wrap_int64 : ℤ → ℤ
unfolding int64_of uint64_of
wrap_int64 v = int64_of (uint64_of v)

pub wrap_int64_lem : (v : ℤ) → IsInt64 v → wrap_int64 v ≡ v
unfolding wrap_int64
wrap_int64_lem v h = int64_of-uint64_of v h

pub int64_of-IsInt64 : (u : ℕ) → u < 2 ^ 64 → IsInt64 (int64_of u)
unfolding int64_of
int64_of-IsInt64 u h = ground arith

pub wrap_int64-IsInt64 : (v : ℤ) → IsInt64 (wrap_int64 v)
unfolding wrap_int64
wrap_int64-IsInt64 v = int64_of-IsInt64 (uint64_of v) (uint64_of-lt v)

-- Words add up modulo 2 ^ 64.
pub uint64_of-add : (a b : ℤ) → uint64_of (a +ℤ b) ≡ (uint64_of a + uint64_of b) % 2 ^ 64
unfolding uint64_of
uint64_of-add (pos n) (pos m) = ground arith
uint64_of-add (pos n) (negsuc m) = ground arith
uint64_of-add (negsuc n) (pos m) = ground arith
uint64_of-add (negsuc n) (negsuc m) = ground arith

pub uint64_of-wrap_int64 : (v : ℤ) → uint64_of (wrap_int64 v) ≡ uint64_of v
unfolding wrap_int64
uint64_of-wrap_int64 v = uint64_of-int64_of (uint64_of v) (uint64_of-lt v)

-- An int64 value is known by its word.
pub IsInt64-eq : (v w : ℤ) → IsInt64 v → IsInt64 w → uint64_of v ≡ uint64_of w → v ≡ w
IsInt64-eq v w hv hw h = sym (int64_of-uint64_of v hv) ∙ ap int64_of h ∙ int64_of-uint64_of w hw

pub wrap_int64-add :
    (a b c : ℤ) → wrap_int64 (wrap_int64 (a +ℤ b) +ℤ c) ≡ wrap_int64 (a +ℤ (b +ℤ c))
wrap_int64-add a b c =
    IsInt64-eq _ _ (wrap_int64-IsInt64 (wrap_int64 (a +ℤ b) +ℤ c))
      (wrap_int64-IsInt64 (a +ℤ (b +ℤ c)))
      (omega (
        arith,
        uint64_of-wrap_int64 (wrap_int64 (a +ℤ b) +ℤ c),
        uint64_of-add (wrap_int64 (a +ℤ b)) c,
        uint64_of-wrap_int64 (a +ℤ b),
        uint64_of-add a b,
        uint64_of-wrap_int64 (a +ℤ (b +ℤ c)),
        uint64_of-add a (b +ℤ c),
        uint64_of-add b c,
      ))
