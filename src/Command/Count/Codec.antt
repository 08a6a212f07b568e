-- ===== src/Command/Count/Codec.antt =====
-- What EncodeCount writes, DecodeCount reads back.
use lancelot.Base.{
  ℕ, zero, suc, ◌^◌, ◌<◌, ◌≡◌, refl, ap, ◌∙◌, [], ◌∷◌, ◌++◌, ◌==◌, if◌then◌else◌, Bytes, get_or,
  length, take, drop, arith, take-append_of, drop-append_of,
}
use lancelot.Base.Int.{
  ℤ, pos, negsuc, neg_int, leb_ℤ, IsInt64, uint64_of, int64_of, wrap_int64, uint64_of-lt,
}
use lancelot.Base.BigEndian.{be_bytes, be_value, be_value-be_bytes, length-be_bytes}
use lancelot.Command.Count.{Count, encode_count, decode_count}

-- The sign and the magnitude of an int64 value give it back, the least one too.
sign_and_magnitude :
    (v : ℤ)
    → IsInt64 v
    → (let n = int64_of (uint64_of (if leb_ℤ (pos 0) v then v else neg_int v)) in
        if (if leb_ℤ (pos 0) v then 0x01 else 0x00) == 0x01 then n else wrap_int64 (neg_int n))
      ≡ v
unfolding wrap_int64 int64_of uint64_of
sign_and_magnitude (pos n) h = ground (arith, h.below)
sign_and_magnitude (negsuc n) h = ground (arith, h.above)

module _ (us vs rest : Bytes) (sign : ℕ) (hu : length us ≡ 8) (hv : length vs ≡ 8) where
  abbrev laid_out : Bytes
  laid_out = us ++ sign ∷ (vs ++ rest)

  laid_out-timestamp : take 8 laid_out ≡ us
  laid_out-timestamp = take-append_of 8 us (sign ∷ (vs ++ rest)) hu

  laid_out-sign : drop 8 laid_out ≡ sign ∷ (vs ++ rest)
  laid_out-sign = drop-append_of 8 0 8 us (sign ∷ (vs ++ rest)) hu refl

  laid_out-value : take 8 (drop 9 laid_out) ≡ vs
  laid_out-value =
      ap (take 8) (drop-append_of 8 1 9 us (sign ∷ (vs ++ rest)) hu refl)
      ∙ take-append_of 8 vs rest hv

  laid_out-user_value : drop 17 laid_out ≡ rest
  laid_out-user_value =
      drop-append_of 8 9 17 us (sign ∷ (vs ++ rest)) hu refl ∙ drop-append_of 8 0 8 vs rest hv refl

get_or-drop : (n : ℕ) (xs : Bytes) (y : ℕ) (ys : Bytes) → drop n xs ≡ y ∷ ys → get_or xs n 0 ≡ y
get_or-drop zero [] y ys h = ground arith
get_or-drop zero (x ∷ xs) y ys h = ground arith
get_or-drop (suc n) [] y ys h = ground arith
get_or-drop (suc n) (x ∷ xs) y ys h = get_or-drop n xs y ys h

abbrev sign_of : ℤ → ℕ
sign_of v = if leb_ℤ (pos 0) v then 0x01 else 0x00

abbrev magnitude : ℤ → ℕ
magnitude v = uint64_of (if leb_ℤ (pos 0) v then v else neg_int v)

record Layout (d : Count) (b : Bytes) : Type 0 where
  timestamp_bytes : be_value (take 8 b) ≡ d.timestamp
  sign_byte : get_or b 8 0 ≡ sign_of d.value
  value_bytes : be_value (take 8 (drop 9 b)) ≡ magnitude d.value
  user_bytes : drop 17 b ≡ d.user_value

encode_count-Layout : (d : Count) → d.timestamp < 2 ^ 64 → Layout d (encode_count d)
unfolding encode_count
encode_count-Layout d ht =
    let us = be_bytes 8 d.timestamp in
    let sign = sign_of d.value in
    let mag = magnitude d.value in
    let vs = be_bytes 8 mag in
    let hu = length-be_bytes 8 d.timestamp in
    let hw = length-be_bytes 8 mag in
    record {
      timestamp_bytes =
          ap be_value (laid_out-timestamp us vs d.user_value sign hu hw)
          ∙ be_value-be_bytes 8 d.timestamp ht;
      sign_byte =
          get_or-drop 8 (us ++ sign ∷ (vs ++ d.user_value)) sign (vs ++ d.user_value)
            (laid_out-sign us vs d.user_value sign hu hw);
      value_bytes =
          ap be_value (laid_out-value us vs d.user_value sign hu hw)
          ∙ be_value-be_bytes 8 mag
              (uint64_of-lt (if leb_ℤ (pos 0) d.value then d.value else neg_int d.value));
      user_bytes = laid_out-user_value us vs d.user_value sign hu hw;
    }

decode_count-Layout :
    (c d : Count) (b : Bytes)
    → Layout d b
    → IsInt64 d.value
    → decode_count c b
      ≡ record c { timestamp = d.timestamp; value = d.value; user_value = d.user_value }
unfolding decode_count
decode_count-Layout c d b l hv =
    rw (l.timestamp_bytes, l.sign_byte, l.value_bytes, l.user_bytes, sign_and_magnitude d.value hv)
      refl

-- A count with a timestamp and a value of 64 bits that has been written is read back with its
-- timestamp, its signed value and what the user keeps there; its key and its shard are those of the
-- reader.
pub decode_count-encode_count :
    (c d : Count)
    → d.timestamp < 2 ^ 64
    → IsInt64 d.value
    → decode_count c (encode_count d)
      ≡ record c { timestamp = d.timestamp; value = d.value; user_value = d.user_value }
decode_count-encode_count c d ht hv =
    decode_count-Layout c d (encode_count d) (encode_count-Layout d ht) hv
