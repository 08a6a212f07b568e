-- ===== src/Command/Strings/Read/Range.antt =====
-- GETRANGE: which bytes the function getRange returns, and where it slices out of range.
use lancelot.Base.{
  ℕ, zero, suc, ◌+◌, ◌-◌, ◌≤◌, ◌<◌, ◌≡◌, ◌↔◌, refl, ◌&&◌, none, some, [], ◌∷◌, leb, if◌then◌else◌,
  Bytes, length, take, drop, arith,
}
use lancelot.Base.Int.{ℤ, pos, negsuc, ltb_ℤ, pos_part, ◌≤ℤ◌, ◌<ℤ◌}
use lancelot.Command.Strings.Read.{position, slice_to, cut_range, get_range}

-- The bytes at the positions from `lo` to `hi`, both included; `i` is the position of the first.
unfoldable pub pick : ℕ → ℕ → ℕ → Bytes → Bytes
pick i lo hi [] = []
pick i lo hi (b ∷ bs) =
    let rest = pick (i + 1) lo hi bs in if leb lo i && leb i hi then b ∷ rest else rest

take-nil : (n : ℕ) → take {A = ℕ} n [] ≡ []
take-nil zero = refl
take-nil (suc n) = refl

drop-nil : (n : ℕ) → drop {A = ℕ} n [] ≡ []
drop-nil zero = refl
drop-nil (suc n) = refl

pick_after : (i lo hi : ℕ) (bs : Bytes) → hi < i → pick i lo hi bs ≡ []
unfolding pick
pick_after i lo hi [] h = refl
pick_after i lo hi (b ∷ bs) h = ground (arith, pick_after (i + 1) lo hi bs)

-- Here the first byte is inside: `n` more follow.
pick_inside : (n i lo hi : ℕ) (bs : Bytes) → lo ≤ i → i + n ≡ hi → pick i lo hi bs ≡ take (suc n) bs
unfolding pick
pick_inside n i lo hi [] hl e = refl
pick_inside zero i lo hi (b ∷ bs) hl e = ground (arith, pick_after (i + 1) lo hi bs)
pick_inside (suc n) i lo hi (b ∷ bs) hl e = ground (arith, pick_inside n (i + 1) lo hi bs)

pick_before :
    (k n i lo hi : ℕ) (bs : Bytes)
    → i + k ≡ lo
    → lo + n ≡ hi
    → pick i lo hi bs ≡ take (suc n) (drop k bs)
unfolding pick
pick_before zero n i lo hi bs e h = pick_inside n i lo hi bs (omega arith) (omega arith)
pick_before (suc k) n i lo hi [] e h = refl
pick_before (suc k) n i lo hi (b ∷ bs) e h = ground (arith, pick_before k n (i + 1) lo hi bs)

pub pick-take-drop :
    (lo hi : ℕ) (bs : Bytes) → lo ≤ hi → take (hi + 1 - lo) (drop lo bs) ≡ pick 0 lo hi bs
pick-take-drop lo hi bs h =
    let e : hi + 1 - lo ≡ suc (hi - lo) = omega arith in
    rw (e, pick_before lo (hi - lo) 0 lo hi bs (omega arith) (omega arith))

-- What GETRANGE means: the bytes between two positions, where a position before the start stands
-- for the start; nothing if the second position is before the first.
abbrev pub range_of : Bytes → ℤ → ℤ → Bytes
range_of value start end =
    if ltb_ℤ (position value end) (position value start)
    then []
    else pick 0 (pos_part (position value start)) (pos_part (position value end)) value

pick_past : (i lo hi : ℕ) (bs : Bytes) → i + length bs ≤ lo → pick i lo hi bs ≡ []
unfolding pick
pick_past i lo hi [] h = refl
pick_past i lo hi (b ∷ bs) h = ground (arith, pick_past (i + 1) lo hi bs)

-- An upper bound past the end may be lowered to the last position.
pick_last :
    (i lo hi m : ℕ) (bs : Bytes) → i + length bs ≤ m + 1 → m ≤ hi → pick i lo hi bs ≡ pick i lo m bs
unfolding pick
pick_last i lo hi m [] h k = refl
pick_last i lo hi m (b ∷ bs) h k = ground (arith, pick_last (i + 1) lo hi m bs)

slice_to-pick :
    (value : Bytes) (from to : ℕ)
    → from ≤ to
    → to < length value
    → slice_to value from to ≡ some (pick 0 from to value)
slice_to-pick value from to h k = ground (arith, pick-take-drop from to value h)

cut_range-pick :
    (value : Bytes) (start end : ℤ)
    → 0 < length value
    → (cut_range value start end).0
      ≡ some (if ltb_ℤ end start then [] else pick 0 (pos_part start) (pos_part end) value)
unfolding cut_range
cut_range-pick value (negsuc s) (negsuc e) h = ground (arith, slice_to-pick value 0 0)
cut_range-pick value (negsuc s) (pos e) h = ground (
  arith,
  slice_to-pick value 0 e,
  slice_to-pick value 0 (length value - 1),
  pick_last 0 0 e (length value - 1) value,
)
cut_range-pick value (pos s) (negsuc e) h = ground arith
cut_range-pick value (pos s) (pos e) h = ground (
  arith,
  slice_to-pick value s e,
  slice_to-pick value s (length value - 1),
  pick_last 0 s e (length value - 1) value,
  pick_past 0 s e value,
)

-- On a string that is not empty, getRange returns the bytes that GETRANGE means.
pub get_range-range_of :
    (value : Bytes) (start end : ℤ)
    → 0 < length value
    → (get_range value start end).0 ≡ some (range_of value start end)
unfolding get_range
get_range-range_of value start end h =
    cut_range-pick value (position value start) (position value end) h

cut_range-nil_none_iff :
    (start end : ℤ) → ((cut_range [] start end).0 ≡ none) ↔ ((start ≤ℤ end) × (start <ℤ pos 0))
unfolding cut_range
cut_range-nil_none_iff (negsuc s) (negsuc e) = ground arith
cut_range-nil_none_iff (negsuc s) (pos e) = ground arith
cut_range-nil_none_iff (pos s) (negsuc e) = ground arith
cut_range-nil_none_iff (pos s) (pos e) = ground arith

position-nil : (i : ℤ) → position [] i ≡ i
position-nil (pos n) = ground arith
position-nil (negsuc n) = ground arith

-- getRange slices past the length of the string, where Go panics unless the slice has more capacity,
-- exactly on an empty string with a negative start that is not past the end asked for.
pub get_range-none_iff :
    (value : Bytes) (start end : ℤ)
    → ((get_range value start end).0 ≡ none)
      ↔ ((length value ≡ 0) × (start ≤ℤ end) × (start <ℤ pos 0))
unfolding get_range
get_range-none_iff [] start end =
    ground (arith, position-nil start, position-nil end, cut_range-nil_none_iff start end)
get_range-none_iff (b ∷ bs) start end =
    ground (
      arith,
      cut_range-pick (b ∷ bs) (position (b ∷ bs) start) (position (b ∷ bs) end) (omega arith),
    )
