-- ===== src/Command/Bits/Laws.antt =====
-- SETBIT and GETBIT: the bits of a string.
use lancelot.Base.{
  ℕ, zero, suc, ◌+◌, ◌-◌, ◌/◌, ◌≤◌, ◌<◌, ◌≡◌, refl, sym, ap, ◌∙◌, Option, none, some, [], ◌∷◌, ◌++◌,
  arith, Bytes, length, get_or, replicate, leb, ◌==◌, if◌then◌else◌, inl, inr, Bool-cases, true,
  false, length-append, length-replicate,
}
use lancelot.Command.Strings.SetRange.{get_or-past}
use lancelot.Base.Bits.{
  bit_at, with_bit, put_byte, bit_at-with_bit, bit_at-with_bit_ne, bit_at_zero, get_or-put_byte,
}
use lancelot.Base.Int.{pos}
use lancelot.Base.{ltb, take, drop}
use lancelot.Command.Strings.Read.{get_range, cut_range}
use lancelot.Command.Bits.{read_bit, grow, set_bit, bit_index}

-- The bit at an offset of a string; there are zeros past its end.
abbrev pub string_bit : Bytes → ℕ → ℕ
string_bit value offset = bit_at (get_or value (offset / 8) 0) (bit_index offset)

get_or-zeros : (n j : ℕ) → get_or (replicate {A = ℕ} n 0) j 0 ≡ 0
get_or-zeros zero j = refl
get_or-zeros (suc n) zero = refl
get_or-zeros (suc n) (suc j) = get_or-zeros n j

get_or-append_zeros : (xs : Bytes) (n j : ℕ) → get_or (xs ++ replicate n 0) j 0 ≡ get_or xs j 0
get_or-append_zeros [] n j = get_or-zeros n j
get_or-append_zeros (x ∷ xs) n zero = refl
get_or-append_zeros (x ∷ xs) n (suc j) = get_or-append_zeros xs n j

get_or-grow : (o : ℕ) (xs : Bytes) (j : ℕ) → get_or (grow o xs) j 0 ≡ get_or xs j 0
unfolding grow
get_or-grow o xs j = get_or-append_zeros xs (o + 1 - length xs) j

-- The value after a SETBIT that has made `r`.
abbrev pub value_after : Bytes → Option Bytes → Bytes
value_after value none = value
value_after value (some v) = v

same_offset : (j k : ℕ) → (j / 8 ≡ k / 8) → (bit_index j ≡ bit_index k) → j ≡ k
same_offset j k e i = omega arith

length-grow : (o : ℕ) (xs : Bytes) → length xs ≤ o → length (grow o xs) ≡ o + 1
unfolding grow
length-grow o xs h = omega (
  arith,
  length-append xs (replicate (o + 1 - length xs) 0),
  length-replicate {A = ℕ} (o + 1 - length xs) 0,
)

bit_of_byte :
    (v k b j : ℕ)
    → b < 2
    → j / 8 ≡ k / 8
    → bit_at (with_bit v (bit_index k) b) (bit_index j)
      ≡ (if j == k then b else bit_at v (bit_index j))
bit_of_byte v k b j h e = elim (Bool-cases (j == k)) [
  | inl s ↦
      (let same : j ≡ k = ground (arith, s) in rw (s, same) (bit_at-with_bit v (bit_index k) b h))
  | inr s ↦ rw s (
      bit_at-with_bit_ne v (bit_index k) (bit_index j) b h
        (λ i. absurd (ground (arith, s, same_offset j k e (sym i)))))
]

-- A byte of the string is changed where the bit stands.
string_bit-put_byte :
    (value : Bytes) (k b j v : ℕ)
    → b < 2
    → k / 8 < length value
    → get_or value (k / 8) 0 ≡ v
    → string_bit (put_byte (k / 8) (with_bit v (bit_index k) b) value) j
      ≡ (if j == k then b else string_bit value j)
string_bit-put_byte value k b j v h hk e =
    let put = get_or-put_byte (k / 8) (with_bit v (bit_index k) b) value (j / 8) hk in
    elim (Bool-cases (j / 8 == k / 8)) [
      | inl s ↦
          (let here : j / 8 ≡ k / 8 = ground (arith, s) in
            let same : get_or value (j / 8) 0 ≡ v = ap (λ x. get_or value x 0) here ∙ e in
            let byte = bit_of_byte v k b j h here in
            ap (λ x. bit_at x (bit_index j))
              (put ∙ ap (λ x. if x then with_bit v (bit_index k) b else get_or value (j / 8) 0) s)
            ∙ byte
            ∙ ap (λ x. if j == k then b else bit_at x (bit_index j)) (sym same))
      | inr s ↦
          (let other : (j == k) ≡ false = ground (arith, s) in
            ap (λ x. bit_at x (bit_index j))
              (put ∙ ap (λ x. if x then with_bit v (bit_index k) b else get_or value (j / 8) 0) s)
            ∙ ap (λ x. if x then b else string_bit value j) (sym other))
    ]

string_bit-kept :
    (value : Bytes) (k b j : ℕ)
    → (string_bit value k == b) ≡ true
    → string_bit value j ≡ (if j == k then b else string_bit value j)
string_bit-kept value k b j same = elim (Bool-cases (j == k)) [
  | inl s ↦ (let e : j ≡ k = ground (arith, s) in rw (s, e) (ground (arith, same)))
  | inr s ↦ rw s refl
]

-- SETBIT at the offset `k` replaces that bit of the string and no other; past the end of the string
-- there are zeros.
pub string_bit-set_bit :
    (value : Bytes) (k b j : ℕ)
    → b < 2
    → string_bit (value_after value (set_bit value k b).1) j
      ≡ (if j == k then b else string_bit value j)
unfolding set_bit
string_bit-set_bit value k b j h = elim (Bool-cases (leb (length value) (k / 8))) [
  | inl s ↦
      (let wide : k / 8 < length (grow (k / 8) value) =
          omega (arith, length-grow (k / 8) value (ground (arith, s))) in
        let zeros = get_or-grow (k / 8) value in
        let past = get_or-past value (k / 8) (ground (arith, s)) in
        rw s (
          string_bit-put_byte (grow (k / 8) value) k b j 0 h wide (zeros (k / 8) ∙ past)
          ∙ ap (λ x. if j == k then b else bit_at x (bit_index j)) (zeros (j / 8))))
  | inr s ↦ elim (Bool-cases (bit_at (get_or value (k / 8) 0) (bit_index k) == b)) [
    | inl same ↦ rw (s, same) (string_bit-kept value k b j same)
    | inr other ↦
        rw (s, other)
          (string_bit-put_byte value k b j (get_or value (k / 8) 0) h (ground (arith, s)) refl)
  ]
]

take-drop_one : (o : ℕ) (xs : Bytes) → o < length xs → take 1 (drop o xs) ≡ get_or xs o 0 ∷ []
take-drop_one o [] h = absurd (omega arith)
take-drop_one zero (x ∷ xs) h = refl
take-drop_one (suc o) (x ∷ xs) h = take-drop_one o xs (omega arith)

-- What getRange cuts for GETBIT: the byte at the position, or nothing past the end; it never slices
-- out of range.
pub get_range-byte :
    (value : Bytes) (o : ℕ)
    → (get_range value (pos o) (pos o)).0
      ≡ some (if ltb o (length value) then get_or value o 0 ∷ [] else [])
unfolding get_range cut_range
get_range-byte value o = elim (Bool-cases (ltb o (length value))) [
  | inl s ↦
      (let one : o + 1 - o ≡ 1 = omega arith in
        ground (arith, s, one, take-drop_one o value (ground (arith, s))))
  | inr s ↦ ground (arith, s)
]

-- GETBIT reads the bit of the string.
pub read_bit-string_bit :
    (value : Bytes) (j : ℕ)
    → read_bit (if ltb (j / 8) (length value) then get_or value (j / 8) 0 ∷ [] else []) j
      ≡ string_bit value j
unfolding read_bit
read_bit-string_bit value j = elim (Bool-cases (ltb (j / 8) (length value))) [
  | inl s ↦ rw s refl
  | inr s ↦
      (let past = get_or-past value (j / 8) (ground (arith, s)) in
        rw (s, past) (sym (bit_at_zero (bit_index j))))
]
