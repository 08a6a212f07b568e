-- ===== src/Utils/Bytes/Order.antt =====
-- The neighbours of a key in the order of `bytes.Compare`.
use lancelot.Base.{
  ℕ, zero, suc, ◌-◌, ◌≡◌, refl, true, false, none, some, [], ◌∷◌, arith, ◌==◌, if◌then◌else◌, Bytes,
  length, bytes_lt, bytes_le, bytes_eq, All, Option-cases, inl, inr, ◌↔◌,
}
use lancelot.Utils.Bytes.{next_key, prev_key, prev_loop}

pub bytes_lt_irrefl : (a : Bytes) → bytes_lt a a ≡ false
unfolding bytes_lt
bytes_lt_irrefl [] = refl
bytes_lt_irrefl (x ∷ xs) = ground (arith, bytes_lt_irrefl xs)

pub bytes_lt_trans :
    (a b c : Bytes) → bytes_lt a b ≡ true → bytes_lt b c ≡ true → bytes_lt a c ≡ true
unfolding bytes_lt
bytes_lt_trans [] [] c h k = ground arith
bytes_lt_trans [] (y ∷ ys) [] h k = ground arith
bytes_lt_trans [] (y ∷ ys) (z ∷ zs) h k = refl
bytes_lt_trans (x ∷ xs) [] c h k = ground arith
bytes_lt_trans (x ∷ xs) (y ∷ ys) [] h k = ground arith
bytes_lt_trans (x ∷ xs) (y ∷ ys) (z ∷ zs) h k = ground (arith, bytes_lt_trans xs ys zs)

pub bytes_lt_asym : (a b : Bytes) → bytes_lt a b ≡ true → bytes_lt b a ≡ false
unfolding bytes_lt
bytes_lt_asym [] [] h = ground arith
bytes_lt_asym [] (y ∷ ys) h = refl
bytes_lt_asym (x ∷ xs) [] h = ground arith
bytes_lt_asym (x ∷ xs) (y ∷ ys) h = ground (arith, bytes_lt_asym xs ys)

pub bytes_lt_total :
    (a b : Bytes) → bytes_lt a b ≡ false → bytes_eq a b ≡ false → bytes_lt b a ≡ true
unfolding bytes_lt bytes_eq
bytes_lt_total [] [] h k = ground arith
bytes_lt_total [] (y ∷ ys) h k = ground arith
bytes_lt_total (x ∷ xs) [] h k = refl
bytes_lt_total (x ∷ xs) (y ∷ ys) h k = ground (arith, bytes_lt_total xs ys)

-- A key is below another exactly when its successor is at most the other.
pub next_key_least : (k m : Bytes) → bytes_lt k m ≡ bytes_le (next_key k) m
unfolding next_key bytes_lt
next_key_least [] [] = refl
next_key_least [] (y ∷ []) = ground arith
next_key_least [] (y ∷ y' ∷ ys) = ground arith
next_key_least (x ∷ xs) [] = refl
next_key_least (x ∷ xs) (y ∷ ys) = ground (arith, next_key_least xs ys)

prev_loop-cons :
    (i x : ℕ) (xs : Bytes)
    → prev_loop (suc i) (x ∷ xs) ≡ elim (prev_loop i xs) [
      | some ys ↦ some (x ∷ ys)
      | none ↦ if x == 0 then none else some ((x - 1) ∷ 0xff ∷ [])
    ]
unfolding prev_loop
prev_loop-cons zero x xs = refl
prev_loop-cons (suc i) x xs = ground (arith, prev_loop-cons i x xs)

abbrev pub IsZero : ℕ → Type 0
IsZero b = b ≡ 0

prev_loop_lt : (k : Bytes) (p : Bytes) → prev_loop (length k) k ≡ some p → bytes_lt p k ≡ true
unfolding bytes_lt
prev_loop_lt [] p h = unfold prev_loop in ground arith
prev_loop_lt (x ∷ xs) p h = elim (Option-cases (prev_loop (length xs) xs)) [
  | inl e ↦ ground (arith, prev_loop-cons (length xs) x xs)
  | inr (q, e) ↦ ground (arith, prev_loop-cons (length xs) x xs, prev_loop_lt xs q)
]

prev_loop-none : (k : Bytes) → (prev_loop (length k) k ≡ none) ↔ All IsZero k
prev_loop-none [] = unfold prev_loop in (λ h. tt, λ h. refl)
prev_loop-none (x ∷ xs) =
    let (to, from) = prev_loop-none xs in
    (
      λ h. ground (arith, to, prev_loop-cons (length xs) x xs),
      λ h. ground (arith, from h.1, prev_loop-cons (length xs) x xs),
    )

-- What PrevKey gives comes before the key.
pub prev_key_lt : (k p : Bytes) → prev_key k ≡ some p → bytes_lt p k ≡ true
unfolding prev_key
prev_key_lt [] p h = ground arith
prev_key_lt (x ∷ xs) p h = prev_loop_lt (x ∷ xs) p h

-- PrevKey gives nothing exactly for the keys of zero bytes only, the empty key among them.
pub prev_key-none_iff : (k : Bytes) → (prev_key k ≡ none) ↔ All IsZero k
unfolding prev_key
prev_key-none_iff [] = (λ h. tt, λ h. refl)
prev_key-none_iff (x ∷ xs) = prev_loop-none (x ∷ xs)
