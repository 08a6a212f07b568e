-- ===== src/Utils/Bitmap/Laws.antt =====
-- Add, Remove and IsSet of the bitmap agree with a set of positions.
use lancelot.Base.{
  ℕ, ◌*◌, ◌/◌, ◌%◌, ◌<◌, ◌≤◌, ◌≡◌, sym, ap, ◌∙◌, true, false, not, some, inl, inr, Bool-cases,
  arith, length, get_or, ◌==◌, if◌then◌else◌,
}
use lancelot.Base.Bits.{
  bit_at, with_bit, put_byte, bit_at-assigned, length-put_byte, get_or-put_byte,
}
use lancelot.Base.Int.{pos}
use lancelot.Utils.Bitmap.{Bitmap, segment_of, add, remove, is_set}

-- The words hold the positions below the length.
abbrev pub IsBitmap : Bitmap → Type 0
IsBitmap b = b.length ≤ length b.segments * 64

same_index : (i j : ℕ) → j / 64 ≡ i / 64 → (j % 64 == i % 64) ≡ (j == i)
same_index i j e = elim (Bool-cases (j == i)) [
  | inl s ↦ ground (arith, s)
  | inr s ↦ ground (arith, s, e)
]

-- The bit of a position after an assignment.
segment_of-put_byte :
    (b : Bitmap) (i j bit : ℕ)
    → bit < 2
    → i / 64 < length b.segments
    → bit_at
        (get_or (put_byte (i / 64) (with_bit (segment_of b i) (i % 64) bit) b.segments) (j / 64) 0)
        (j % 64)
      ≡ (if j == i then bit else bit_at (segment_of b j) (j % 64))
segment_of-put_byte b i j bit h hi =
    let put =
      get_or-put_byte (i / 64) (with_bit (segment_of b i) (i % 64) bit) b.segments (j / 64) hi in
    elim (Bool-cases (j / 64 == i / 64)) [
      | inl s ↦
          (let here : j / 64 ≡ i / 64 = ground (arith, s) in
            ap (λ x. bit_at x (j % 64))
              (put
                ∙ ap (λ x. if x then with_bit (segment_of b i) (i % 64) bit else segment_of b j) s)
            ∙ bit_at-assigned (segment_of b i) (i % 64) (j % 64) bit h
            ∙ rw (same_index i j here) (
                ap (λ x. if j == i then bit else bit_at (get_or b.segments x 0) (j % 64))
                  (sym here)))
      | inr s ↦
          (let other : (j == i) ≡ false = ground (arith, s) in
            ap (λ x. bit_at x (j % 64))
              (put
                ∙ ap (λ x. if x then with_bit (segment_of b i) (i % 64) bit else segment_of b j) s)
            ∙ ap (λ x. if x then bit else bit_at (segment_of b j) (j % 64)) (sym other))
    ]

-- The words after an assignment at a position below the length.
abbrev assigned : Bitmap → ℕ → ℕ → Bitmap
assigned b i bit = record b {
  segments = put_byte (i / 64) (with_bit (segment_of b i) (i % 64) bit) b.segments;
}

assigned-IsBitmap : (b : Bitmap) (i bit : ℕ) → IsBitmap b → IsBitmap (assigned b i bit)
assigned-IsBitmap b i bit w =
    omega (arith, w, length-put_byte (i / 64) (with_bit (segment_of b i) (i % 64) bit) b.segments)

is_set-assigned :
    (b : Bitmap) (i j bit : ℕ)
    → bit < 2
    → IsBitmap b
    → i < b.length
    → is_set (assigned b i bit) (pos j)
      ≡ (if j == i then some (not (bit == 0)) else is_set b (pos j))
unfolding is_set
is_set-assigned b i j bit hb w h =
    let hi : i / 64 < length b.segments = omega (arith, w, h) in
    ground (
      arith,
      w,
      h,
      hb,
      segment_of-put_byte b i j bit hb hi,
      length-put_byte (i / 64) (with_bit (segment_of b i) (i % 64) bit) b.segments,
    )

-- In a bitmap whose words hold the positions below its length, Add of a position below the length
-- does not panic and puts that position in, Remove does not panic and takes it out, and neither
-- changes any other; both keep the words long enough.
pub is_set-assign :
    (b : Bitmap) (i j : ℕ)
    → IsBitmap b
    → i < b.length
    → ((b' : Bitmap) × (add b (pos i) ≡ some b')
        × IsBitmap b'
        × (is_set b' (pos j) ≡ (if j == i then some true else is_set b (pos j))))
      × ((b' : Bitmap) × (remove b (pos i) ≡ some b')
          × IsBitmap b'
          × (is_set b' (pos j) ≡ (if j == i then some false else is_set b (pos j))))
unfolding add remove
is_set-assign b i j w h =
    let hi : i / 64 < length b.segments = omega (arith, w, h) in
    (
      (
        assigned b i 1,
        ground (arith, h, hi),
        assigned-IsBitmap b i 1 w,
        is_set-assigned b i j 1 (omega arith) w h,
      ),
      (
        assigned b i 0,
        ground (arith, h, hi),
        assigned-IsBitmap b i 0 w,
        is_set-assigned b i j 0 (omega arith) w h,
      ),
    )
