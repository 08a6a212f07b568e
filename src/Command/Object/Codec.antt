-- ===== src/Command/Object/Codec.antt =====
-- What ObjectEncode writes, ObjectDecode reads back.
use mathlib.Core.List.{append-nil}
use lancelot.Base.{
  ℕ, ◌+◌, ◌^◌, ◌<◌, ◌≡◌, refl, true, false, some, [], ◌∷◌, ◌++◌, if◌then◌else◌, Bytes, length,
  get_or, take, drop, arith, inl, inr, Bool-cases, length-append, take-append_of, drop-append_of,
  ap, ◌∙◌,
}
use lancelot.Base.Int.{IsInt64, uint64_of, int64_of, int64_of-uint64_of, uint64_of-lt}
use lancelot.Base.BigEndian.{be_bytes, be_value, be_value-be_bytes, length-be_bytes}
use lancelot.Command.Object.{Object, is_simple, bytes_of, object_encode, object_decode}

-- The fields fit their machine types; a string or JSON object has no extra bytes, and any other
-- object has a UUID of 16 bytes for its value.
pub record IsEncodable (o : Object) : Type 0 where
  pub ttl_range : IsInt64 o.ttl
  pub timestamp_range : o.timestamp < 2 ^ 64
  pub hash_range : o.hash < 2 ^ 16
  pub no_extra : is_simple o ≡ true → bytes_of o.extra ≡ []
  pub uuid : is_simple o ≡ false → length (bytes_of o.value) ≡ 16

-- What decoding leaves in `into` of the encoded `o`: a simple object keeps the extra bytes that
-- `into` had.
unfoldable pub decoded : Object → Object → Object
decoded o into = record into {
  typo = o.typo;
  ttl = o.ttl;
  timestamp = o.timestamp;
  hash = o.hash;
  value = some (bytes_of o.value);
  extra = if is_simple o then into.extra else some (bytes_of o.extra);
}

header_words :
    (o : Object)
    → IsEncodable o
    → (int64_of (be_value (be_bytes 8 (uint64_of o.ttl))) ≡ o.ttl)
      × (be_value (be_bytes 8 o.timestamp) ≡ o.timestamp)
      × (be_value (be_bytes 2 o.hash) ≡ o.hash)
header_words o h = (
  ground (
    arith,
    be_value-be_bytes 8 (uint64_of o.ttl) (uint64_of-lt o.ttl),
    int64_of-uint64_of o.ttl h.ttl_range,
  ),
  be_value-be_bytes 8 o.timestamp h.timestamp_range,
  be_value-be_bytes 2 o.hash h.hash_range,
)

-- Where the parts of an encoded object stand.
module _ (typo : ℕ) (us vs ws rest : Bytes) (hu : length us ≡ 8) (hv : length vs ≡ 8)
    (hw : length ws ≡ 2) where
  abbrev laid_out : Bytes
  laid_out = typo ∷ (us ++ (vs ++ (ws ++ rest)))

  header_ttl : take 8 (drop 1 laid_out) ≡ us
  header_ttl = take-append_of 8 us (vs ++ (ws ++ rest)) hu

  drop_nine : drop 9 laid_out ≡ vs ++ (ws ++ rest)
  drop_nine = drop-append_of 8 0 8 us (vs ++ (ws ++ rest)) hu refl

  drop_seventeen : drop 17 laid_out ≡ ws ++ rest
  drop_seventeen =
      drop-append_of 8 8 16 us (vs ++ (ws ++ rest)) hu refl
      ∙ drop-append_of 8 0 8 vs (ws ++ rest) hv refl

  drop_nineteen : drop 19 laid_out ≡ rest
  drop_nineteen =
      drop-append_of 8 10 18 us (vs ++ (ws ++ rest)) hu refl
      ∙ drop-append_of 8 2 10 vs (ws ++ rest) hv refl
      ∙ drop-append_of 2 0 2 ws rest hw refl

  length-laid_out : length laid_out ≡ 19 + length rest
  length-laid_out = omega (
    arith,
    length-append us (vs ++ (ws ++ rest)),
    length-append vs (ws ++ rest),
    length-append ws rest,
  )

record Layout (o : Object) (b : Bytes) : Type 0 where
  type_byte : get_or b 0 0 ≡ o.typo
  ttl_bytes : take 8 (drop 1 b) ≡ be_bytes 8 (uint64_of o.ttl)
  timestamp_bytes : take 8 (drop 9 b) ≡ be_bytes 8 o.timestamp
  hash_bytes : take 2 (drop 17 b) ≡ be_bytes 2 o.hash
  value_bytes : drop 19 b ≡ bytes_of o.value ++ bytes_of o.extra
  size : length b ≡ 19 + length (bytes_of o.value ++ bytes_of o.extra)

object_encode-Layout : (o : Object) → Layout o (object_encode o)
unfolding object_encode
object_encode-Layout o =
    let us : Bytes = be_bytes 8 (uint64_of o.ttl) in
    let vs : Bytes = be_bytes 8 o.timestamp in
    let ws : Bytes = be_bytes 2 o.hash in
    let rest : Bytes = bytes_of o.value ++ bytes_of o.extra in
    let hu : length us ≡ 8 = length-be_bytes 8 (uint64_of o.ttl) in
    let hv : length vs ≡ 8 = length-be_bytes 8 o.timestamp in
    let hw : length ws ≡ 2 = length-be_bytes 2 o.hash in
    record {
      type_byte = refl;
      ttl_bytes = header_ttl o.typo us vs ws rest hu hv hw;
      timestamp_bytes =
          ap (take 8) (drop_nine o.typo us vs ws rest hu hv hw)
          ∙ take-append_of 8 vs (ws ++ rest) hv;
      hash_bytes =
          ap (take 2) (drop_seventeen o.typo us vs ws rest hu hv hw) ∙ take-append_of 2 ws rest hw;
      value_bytes = drop_nineteen o.typo us vs ws rest hu hv hw;
      size = length-laid_out o.typo us vs ws rest hu hv hw;
    }

decode_simple :
    (o into : Object) (b : Bytes)
    → IsEncodable o
    → Layout o b
    → is_simple o ≡ true
    → object_decode b into ≡ (true, decoded o into)
unfolding object_decode decoded is_simple
decode_simple o into b h l simple = ground (arith, header_words o h, append-nil (bytes_of o.value))

decode_other :
    (o into : Object) (b : Bytes)
    → IsEncodable o
    → Layout o b
    → is_simple o ≡ false
    → object_decode b into ≡ (true, decoded o into)
unfolding object_decode decoded is_simple
decode_other o into b h l other = ground (
  arith,
  header_words o h,
  length-append (bytes_of o.value) (bytes_of o.extra),
  take-append_of 16 (bytes_of o.value) (bytes_of o.extra),
  drop-append_of 16 16 35 (take 19 b) (drop 19 b),
)

-- Decoding the encoding of an object whose fields are in range, without extra bytes if it is simple
-- and with a value of 16 bytes otherwise, succeeds, and gives its type, expiry, timestamp, hash,
-- value and (unless it is simple) its extra bytes.
pub object_decode-object_encode :
    (o into : Object)
    → IsEncodable o
    → object_decode (object_encode o) into ≡ (true, decoded o into)
object_decode-object_encode o into h = elim (Bool-cases (is_simple o)) [
  | inl simple ↦ decode_simple o into (object_encode o) h (object_encode-Layout o) simple
  | inr other ↦ decode_other o into (object_encode o) h (object_encode-Layout o) other
]
