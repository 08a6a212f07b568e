-- ===== src/Tests/Bits.antt =====
-- Results about the bits of strings and of bitmaps at concrete inputs.
use lancelot.Base.{◌≡◌, refl, true, false, none, some, [], ◌∷◌, Bytes, codes, bytes_eq, arith}
use lancelot.Base.Bits.{bit_at, with_bit, put_byte}
use lancelot.Base.BigEndian.{be_bytes, be_value}
use lancelot.Base.Decimal.{parse_int, parse_digits}
use lancelot.Base.Int.{pos, int64_of, uint64_of}
use lancelot.Utils.Int.{nonnegative_int}
use lancelot.Utils.Bitmap.{Bitmap, new_bitmap, add, remove, is_set}
use lancelot.Utils.Bitmap.Laws.{IsBitmap, is_set-assign}
use lancelot.Store.Txn.{put, lock_first, write, get}
use lancelot.Command.Object.{
  string_type, object_encode, object_decode, object_key, get_key_bytes, is_simple,
}
use lancelot.Command.Access.{
  new_object, set_txn_object, write_object, count_change, with_object, get_txn_object, examine,
  drop_expired,
}
use lancelot.Command.Access.Reads.{present}
use lancelot.Command.Elements.Open.{HasObject, IsShortKey}
use lancelot.Command.Reply.{simple_int, respond, reply_of}
use lancelot.Command.Bits.{grow, set_bit, store_bit, change_bit, setbit_handle, getbit_handle}
use lancelot.Command.Bits.Get.{getbit_handle-setbit_handle}
use lancelot.Tests.Memory.{mem_laws}
use lancelot.Tests.Objects.{text, t0, text-Stored}

abbrev name : Bytes
name = codes "n"

same_key : object_key (new_object t0 string_type name) ≡ object_key text
unfolding new_object object_key get_key_bytes be_bytes
same_key = refl

short : IsShortKey t0 string_type name
unfolding new_object object_key get_key_bytes be_bytes
short = omega arith

text-HasObject : HasObject t0 string_type name text
text-HasObject = (rw same_key text-Stored, refl, refl)

offset : nonnegative_int (codes "21") ≡ some (pos 21)
unfolding nonnegative_int parse_int parse_digits
offset = refl

one : nonnegative_int (codes "1") ≡ some (pos 1)
unfolding nonnegative_int parse_int parse_digits
one = refl

-- The string "41" has two bytes, so that the offset is past its end.
set_done : (setbit_handle (name ∷ codes "21" ∷ codes "1" ∷ []) t0).0 ≡ simple_int (pos 0)
unfolding setbit_handle nonnegative_int parse_int parse_digits respond reply_of change_bit
    with_object get_txn_object examine drop_expired get object_key get_key_bytes be_bytes be_value
    new_object bytes_eq object_decode object_encode int64_of uint64_of store_bit set_bit bit_at
    with_bit put_byte grow set_txn_object write_object count_change put lock_first write is_simple
set_done = refl

getbit_handle-setbit_handle_example :
    getbit_handle (name ∷ codes "21" ∷ []) (setbit_handle (name ∷ codes "21" ∷ codes "1" ∷ []) t0).1
    ≡ some (simple_int (pos 1), (setbit_handle (name ∷ codes "21" ∷ codes "1" ∷ []) t0).1)
getbit_handle-setbit_handle_example =
    getbit_handle-setbit_handle mem_laws name (codes "21") (codes "1") (codes "21") 21 1 21
      (present text) t0 (pos 0) short text-HasObject (omega arith) offset (omega arith) one
      (omega arith) offset set_done

abbrev some_bits : Bitmap
some_bits = record { segments = 5 ∷ 8 ∷ []; length = 128 }

is_set-assign_example :
    ((b' : Bitmap) × (add some_bits (pos 70) ≡ some b')
      × IsBitmap b'
      × (is_set b' (pos 70) ≡ some true))
    × ((b' : Bitmap) × (remove some_bits (pos 70) ≡ some b')
        × IsBitmap b'
        × (is_set b' (pos 70) ≡ some false))
is_set-assign_example = is_set-assign some_bits 70 70 (omega arith) (omega arith)

-- `New(70)` has one word, so that position 65 has none.
add_panics : add (new_bitmap 70) (pos 65) ≡ none
unfolding add new_bitmap
add_panics = refl
