-- ===== src/Base/Bits.antt =====
-- Go's operators on the bits of a word, and the assignment to a position of a slice.
use lancelot.Base.Tests.{◌==◌, if◌then◌else◌, Bool-cases}
use lancelot.Base.Lists.{Bytes, length, get_or}
use Prim.Native.Nat.{ℕ, zero, suc, ◌+◌, ◌*◌, ◌/◌, ◌%◌, ◌<◌}
use mathlib.Core.Path.{◌≡◌, refl, ap, ◌∙◌}
use mathlib.Core.Logic.{◌≢◌, inl, inr}
use mathlib.Core.List.{[], ◌∷◌}
use native.Mathlib.Omega.{arith}

-- `v >> i & 1`
unfoldable pub bit_at : ℕ → ℕ → ℕ
bit_at v zero = v % 2
bit_at v (suc i) = bit_at (v / 2) i

-- `v & ^(1 << i) | b << i`
unfoldable pub with_bit : ℕ → ℕ → ℕ → ℕ
with_bit v zero b = v / 2 * 2 + b
with_bit v (suc i) b = with_bit (v / 2) i b * 2 + v % 2

-- `value[o] = b`
unfoldable pub put_byte : ℕ → ℕ → Bytes → Bytes
put_byte o b [] = []
put_byte zero b (x ∷ xs) = b ∷ xs
put_byte (suc o) b (x ∷ xs) = x ∷ put_byte o b xs

pub bit_at-with_bit : (v i b : ℕ) → b < 2 → bit_at (with_bit v i b) i ≡ b
unfolding bit_at with_bit
bit_at-with_bit v zero b h = omega arith
bit_at-with_bit v (suc i) b h =
    let halved : (with_bit (v / 2) i b * 2 + v % 2) / 2 ≡ with_bit (v / 2) i b = omega arith in
    ap (λ x. bit_at x i) halved ∙ bit_at-with_bit (v / 2) i b h

pub bit_at-with_bit_ne : (v i j b : ℕ) → b < 2 → i ≢ j → bit_at (with_bit v i b) j ≡ bit_at v j
unfolding bit_at with_bit
bit_at-with_bit_ne v zero zero b h ne = absurd (ne refl)
bit_at-with_bit_ne v zero (suc j) b h ne =
    let halved : (v / 2 * 2 + b) / 2 ≡ v / 2 = omega arith in ap (λ x. bit_at x j) halved
bit_at-with_bit_ne v (suc i) zero b h ne = omega arith
bit_at-with_bit_ne v (suc i) (suc j) b h ne =
    let halved : (with_bit (v / 2) i b * 2 + v % 2) / 2 ≡ with_bit (v / 2) i b = omega arith in
    ap (λ x. bit_at x j) halved ∙ bit_at-with_bit_ne (v / 2) i j b h (λ e. ne (ap suc e))

pub bit_at_zero : (i : ℕ) → bit_at 0 i ≡ 0
unfolding bit_at
bit_at_zero zero = refl
bit_at_zero (suc i) = bit_at_zero i

pub get_or-put_byte :
    (o b : ℕ) (xs : Bytes) (j : ℕ)
    → o < length xs
    → get_or (put_byte o b xs) j 0 ≡ (if j == o then b else get_or xs j 0)
unfolding put_byte
get_or-put_byte o b [] j h = absurd (omega arith)
get_or-put_byte zero b (x ∷ xs) zero h = ground arith
get_or-put_byte zero b (x ∷ xs) (suc j) h = ground arith
get_or-put_byte (suc o) b (x ∷ xs) zero h = ground arith
get_or-put_byte (suc o) b (x ∷ xs) (suc j) h = ground (arith, get_or-put_byte o b xs j)

pub bit_at-assigned :
    (v i j b : ℕ) → b < 2 → bit_at (with_bit v i b) j ≡ (if j == i then b else bit_at v j)
bit_at-assigned v i j b h = elim (Bool-cases (j == i)) [
  | inl s ↦ (let e : j ≡ i = ground (arith, s) in rw (s, e) (bit_at-with_bit v i b h))
  | inr s ↦ rw s (bit_at-with_bit_ne v i j b h (λ e. absurd (ground (arith, s, e))))
]

pub length-put_byte : (o b : ℕ) (xs : Bytes) → length (put_byte o b xs) ≡ length xs
unfolding put_byte
length-put_byte o b [] = refl
length-put_byte zero b (x ∷ xs) = refl
length-put_byte (suc o) b (x ∷ xs) = ap suc (length-put_byte o b xs)
