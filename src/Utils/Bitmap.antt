-- ===== src/Utils/Bitmap.antt =====
-- utils/bitmap/bitmap.go: a set of positions, in words of 64 bits.
pub mod Laws
use lancelot.Base.{
  ℕ, zero, suc, ◌+◌, ◌-◌, ◌*◌, ◌/◌, ◌%◌, ◌^◌, Bool, true, false, not, ◌&&◌, ◌||◌, Option, none,
  some, List, [], ◌∷◌, ◌++◌, ltb, leb, ◌==◌, if◌then◌else◌, map, length, replicate, get_or,
}
use lancelot.Base.Bits.{bit_at, with_bit, put_byte}
use lancelot.Base.Int.{ℤ, pos, leb_ℤ, ltb_ℤ, pos_part}

-- Bitmap
pub record Bitmap : Type 0 where
  pub segments : List ℕ
  pub length : ℕ

-- The word of a position, `b.segments[i/64]`.
abbrev pub segment_of : Bitmap → ℕ → ℕ
segment_of b i = get_or b.segments (i / 64) 0

-- New
unfoldable pub new_bitmap : ℕ → Bitmap
new_bitmap n = record { segments = replicate (n / 64) 0; length = n }

-- SetSegments
unfoldable pub set_segments : Bitmap → List ℕ → Bitmap
set_segments b segments = record { segments = segments; length = length segments * 64 }

-- `index < 0 || index >= b.length`
abbrev pub outside : Bitmap → ℤ → Bool
outside b index = ltb_ℤ index (pos 0) || leb_ℤ (pos b.length) index

-- Whether the words have one for the position; without it `b.segments[i/64]` panics. They lack one
-- where the length is not a multiple of 64.
abbrev pub has_segment : Bitmap → ℕ → Bool
has_segment b i = ltb (i / 64) (length b.segments)

-- The change of one bit that Add and Remove make; `none` is a panic.
abbrev pub assign : Bitmap → ℤ → ℕ → Option Bitmap
assign b index bit =
    if outside b index
    then some b
    else if has_segment b (pos_part index)
    then some (record b {
      segments =
          put_byte (pos_part index / 64)
            (with_bit (segment_of b (pos_part index)) (pos_part index % 64) bit) b.segments;
    })
    else none

-- Add
unfoldable pub add : Bitmap → ℤ → Option Bitmap
add b index = assign b index 1

-- IsSet
unfoldable pub is_set : Bitmap → ℤ → Option Bool
is_set b index =
    if outside b index
    then some false
    else if has_segment b (pos_part index)
    then some (not (bit_at (segment_of b (pos_part index)) (pos_part index % 64) == 0))
    else none

-- Remove
unfoldable pub remove : Bitmap → ℤ → Option Bitmap
remove b index = assign b index 0

-- A word without zeros.
abbrev pub full_word : ℕ
full_word = 2 ^ 64 - 1

-- SetFull and SetEmpty
unfoldable pub set_full : Bitmap → Bitmap
set_full b = record b { segments = map (λ v. full_word) b.segments }

unfoldable pub set_empty : Bitmap → Bitmap
set_empty b = record b { segments = map (λ v. 0) b.segments }

abbrev pub all_words : ℕ → List ℕ → Bool
all_words v [] = true
all_words v (w ∷ ws) = w == v && all_words v ws

-- IsFull and IsEmpty
unfoldable pub is_full : Bitmap → Bool
is_full b = all_words full_word b.segments

unfoldable pub is_empty_bitmap : Bitmap → Bool
is_empty_bitmap b = all_words 0 b.segments

-- The loops of Values and EmptyValues, over the positions below `n`, last one first here;
-- `none` is a panic.
unfoldable pub values_below : Bool → Bitmap → ℕ → Option (List ℕ)
values_below empty b zero = some []
values_below empty b (suc i) =
    let zero_bit = bit_at (segment_of b i) (i % 64) == 0 in
    let listed = if empty then zero_bit else not zero_bit in
    elim (values_below empty b i) [
      | none ↦ none
      | some rest ↦ if has_segment b i then some (if listed then rest ++ i ∷ [] else rest) else none
    ]

-- Values
unfoldable pub values : Bitmap → Option (List ℕ)
values b = values_below false b b.length

-- EmptyValues
unfoldable pub empty_values : Bitmap → Option (List ℕ)
empty_values b = values_below true b b.length
