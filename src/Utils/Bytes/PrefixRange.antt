-- ===== src/Utils/Bytes/PrefixRange.antt =====
-- The range from a prefix up to `prefix_next` of it, which the commands scan.
use mathlib.Core.List.{append-nil}
use lancelot.Base.{
  subst, ℕ, zero, suc, ◌+◌, ◌%◌, ◌≤◌, ◌≡◌, ◌≢◌, ◌⊎◌, refl, Bool, true, false, not, ◌&&◌, [], ◌∷◌,
  ◌++◌, arith, get_or, set, ◌==◌, Bytes, AreBytes, All, length, bytes_lt, bytes_le, bytes_eq,
  has_prefix,
}
use lancelot.Utils.Bytes.Order.{bytes_lt_asym}
use lancelot.Utils.Bytes.{prefix_next, bump_loop}

-- `bump_loop` over the whole buffer, read from the front.
carry_cons : ℕ → Bool × Bytes → Bool × Bytes
carry_cons x (true, ys) = (true, x ∷ ys)
carry_cons x (false, ys) = let c = (x + 1) % 256 in (not (c == 0), c ∷ ys)

bump_loop-cons : (i x : ℕ) (xs : Bytes) → bump_loop (suc i) (x ∷ xs) ≡ carry_cons x (bump_loop i xs)
unfolding bump_loop carry_cons
bump_loop-cons zero x xs = ground arith
bump_loop-cons (suc i) x xs =
    let c = (get_or xs i 0 + 1) % 256 in ground (arith, bump_loop-cons i x (set xs i c))

carry : Bytes → Bool × Bytes
carry [] = (false, [])
carry (x ∷ xs) = carry_cons x (carry xs)

bump_loop-carry : (p : Bytes) → bump_loop (length p) p ≡ carry p
unfolding carry
bump_loop-carry [] = unfold bump_loop in refl
bump_loop-carry (x ∷ xs) = rw (bump_loop-cons (length xs) x xs, bump_loop-carry xs)

-- The prefix has a byte that PrefixNext can raise.
abbrev pub CanBump : Bytes → Type 0
CanBump [] = ⊥
CanBump (x ∷ xs) = (x ≢ 0xff) ⊎ CanBump xs

-- Without a carry to stop at, the prefix is all 0xff, and what is left of it all zero.
carry_full :
    (p k : Bytes)
    → AreBytes p
    → AreBytes k
    → length p ≤ length k
    → (carry p).0 ≡ false
    → (bytes_lt k (carry p).1 ≡ false) × (bytes_lt k p ≡ not (has_prefix k p))
unfolding carry carry_cons bytes_lt has_prefix
carry_full [] k hp hk hl h = ground arith
carry_full (x ∷ xs) [] hp hk hl h = absurd (omega arith)
carry_full (x ∷ xs) (y ∷ ys) hp hk hl h = ground (arith, carry_full xs ys)

carry_range :
    (p k : Bytes)
    → AreBytes p
    → AreBytes k
    → length p ≤ length k
    → (carry p).0 ≡ true
    → (bytes_le p k && bytes_lt k (carry p).1) ≡ has_prefix k p
unfolding carry carry_cons bytes_lt has_prefix
carry_range [] k hp hk hl h = ground arith
carry_range (x ∷ xs) [] hp hk hl h = absurd (omega arith)
carry_range (x ∷ xs) (y ∷ ys) hp hk hl h = ground (arith, carry_full xs ys, carry_range xs ys)

CanBump-carry : (p : Bytes) → AreBytes p → CanBump p → (carry p).0 ≡ true
unfolding carry carry_cons
CanBump-carry [] hp h = absurd h
CanBump-carry (x ∷ xs) hp h = ground (arith, CanBump-carry xs)

-- Among the keys that are at least as long as a prefix with a byte below 0xff, the range from the
-- prefix up to `prefix_next` of it holds exactly those that start with the prefix.
pub prefix_next_range :
    (p k : Bytes)
    → AreBytes p
    → AreBytes k
    → length p ≤ length k
    → CanBump p
    → (bytes_le p k && bytes_lt k (prefix_next p)) ≡ has_prefix k p
unfolding prefix_next
prefix_next_range p k hp hk hl h =
    rw (bump_loop-carry p, CanBump-carry p hp h) (carry_range p k hp hk hl (CanBump-carry p hp h))

abbrev IsFull : ℕ → Type 0
IsFull b = b ≡ 0xff

carry-IsFull : (p : Bytes) → All IsFull p → (carry p).0 ≡ false
unfolding carry carry_cons
carry-IsFull [] h = refl
carry-IsFull (x ∷ xs) h = ground (arith, carry-IsFull xs)

between_next : (p k : Bytes) → (bytes_le p k && bytes_lt k (p ++ 0 ∷ [])) ≡ bytes_eq k p
unfolding bytes_lt bytes_eq
between_next [] [] = refl
between_next [] (y ∷ []) = ground arith
between_next [] (y ∷ y' ∷ ys) = ground arith
between_next (x ∷ xs) [] = refl
between_next (x ∷ xs) (y ∷ ys) = ground (arith, between_next xs ys)

-- For a prefix of 0xff bytes only, the range from the prefix up to `prefix_next` of it holds the
-- prefix itself and no other key, whatever starts with it.
pub prefix_next_full :
    (p k : Bytes) → All IsFull p → (bytes_le p k && bytes_lt k (prefix_next p)) ≡ bytes_eq k p
unfolding prefix_next
prefix_next_full p k h = rw (bump_loop-carry p, carry-IsFull p h) (between_next p k)

carry-append_lt :
    (p s : Bytes) → AreBytes p → (carry p).0 ≡ true → bytes_lt (p ++ s) (carry p).1 ≡ true
unfolding carry carry_cons bytes_lt
carry-append_lt [] s hp h = ground arith
carry-append_lt (x ∷ xs) s hp h = ground (arith, carry-append_lt xs s)

append_le : (p s : Bytes) → bytes_le p (p ++ s) ≡ true
unfolding bytes_lt
append_le [] s = refl
append_le (x ∷ xs) s = ground (arith, append_le xs s)

-- A key that continues a prefix with a byte below 0xff lies in the range of the prefix.
pub append_within :
    (p s : Bytes)
    → AreBytes p
    → CanBump p
    → (bytes_le p (p ++ s) && bytes_lt (p ++ s) (prefix_next p)) ≡ true
unfolding prefix_next
append_within p s hp h =
    rw (bump_loop-carry p, CanBump-carry p hp h)
      (ground (arith, append_le p s, carry-append_lt p s hp (CanBump-carry p hp h)))

-- The range of a prefix keeps its first byte where a later byte can be raised.
pub prefix_next-cons :
    (x : ℕ) (xs : Bytes) → AreBytes xs → CanBump xs → (ys : Bytes) × (prefix_next (x ∷ xs) ≡ x ∷ ys)
unfolding prefix_next carry carry_cons
prefix_next-cons x xs hxs h =
    ((carry xs).1, rw (bump_loop-carry (x ∷ xs), CanBump-carry xs hxs h) refl)

pub prefix_next_above : (p : Bytes) → AreBytes p → CanBump p → bytes_lt (prefix_next p) p ≡ false
prefix_next_above p hp h =
    let inside = append_within p [] hp h in
    let up : bytes_lt (p ++ []) (prefix_next p) ≡ true = ground (arith, inside) in
    bytes_lt_asym p (prefix_next p)
      (subst (λ x. bytes_lt x (prefix_next p) ≡ true) (append-nil p) up)
