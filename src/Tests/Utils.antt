-- ===== src/Tests/Utils.antt =====
-- Results about utils/ at concrete inputs.
use lancelot.Base.{
  ◌≡◌, ◌↔◌, refl, inl, true, ◌&&◌, some, [], ◌∷◌, bytes_lt, bytes_le, has_prefix, arith,
}
use lancelot.Base.Int.{pos, IsInt64, ◌+ℤ◌, max_int64}
use lancelot.Utils.Bytes.{prev_key, prefix_next}
use lancelot.Utils.Bytes.PrefixRange.{prefix_next_range}
use lancelot.Utils.Int.{valid_increment_int, valid_increment_int_iff}

prev_key-5_0 : prev_key (5 ∷ 0 ∷ []) ≡ some (4 ∷ 255 ∷ [])
unfolding prev_key
prev_key-5_0 = refl

prefix_next_range_example :
    (bytes_le (7 ∷ 255 ∷ []) (7 ∷ 255 ∷ 3 ∷ [])
      && bytes_lt (7 ∷ 255 ∷ 3 ∷ []) (prefix_next (7 ∷ 255 ∷ [])))
    ≡ has_prefix (7 ∷ 255 ∷ 3 ∷ []) (7 ∷ 255 ∷ [])
prefix_next_range_example =
    prefix_next_range (7 ∷ 255 ∷ []) (7 ∷ 255 ∷ 3 ∷ []) (omega arith, (omega arith, tt))
      (omega arith, (omega arith, (omega arith, tt))) (omega arith) (inl (ground arith))

valid_increment_int_iff_example :
    (valid_increment_int max_int64 (pos 1) ≡ true) ↔ IsInt64 (max_int64 +ℤ pos 1)
valid_increment_int_iff_example =
    valid_increment_int_iff max_int64 (pos 1) (record { above = omega arith; below = omega arith })
      (record { above = omega arith; below = omega arith })
