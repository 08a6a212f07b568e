-- ===== src/Command/Elements/Codec.antt =====
-- What EncodeValue writes, DecodeValue reads back.
use lancelot.Base.{◌^◌, ◌<◌, ◌≡◌, refl, some, arith, length-append, take-append_of, drop-append_of}
use lancelot.Base.BigEndian.{be_bytes, be_value-be_bytes, length-be_bytes}
use lancelot.Command.Elements.{Value, encode_value, decode_value}

-- An element with a timestamp of 64 bits that has been written is read back as it was.
pub decode_value-encode_value :
    (v : Value) → v.timestamp < 2 ^ 64 → decode_value (encode_value v) ≡ some v
unfolding decode_value encode_value
decode_value-encode_value v h =
    let word = be_bytes 8 v.timestamp in
    let size = length-be_bytes 8 v.timestamp in
    ground (
      arith,
      length-append word v.value,
      size,
      take-append_of 8 word v.value size,
      drop-append_of 8 0 8 word v.value size refl,
      be_value-be_bytes 8 v.timestamp h,
    )
