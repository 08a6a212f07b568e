-- ===== src/Command/Bits/Read.antt =====
-- GETBIT of a key that holds a string.
use lancelot.Base.{
  ℕ, ◌/◌, ◌≡◌, refl, ap, ◌∙◌, some, Bytes, length, if◌then◌else◌, [], ◌∷◌, ltb, get_or,
}
use lancelot.Base.Int.{pos}
use lancelot.Utils.Int.{nonnegative_int}
use lancelot.Store.Kv.{Kv}
use lancelot.Store.Error.{ok}
use lancelot.Store.Txn.{Txn}
use lancelot.Command.Object.{Object, bytes_of, string_type}
use lancelot.Command.Elements.Open.{HasObject, IsShortKey}
use lancelot.Command.Reply.{simple_int}
use lancelot.Command.Strings.Read.{get_range}
use lancelot.Command.Strings.Write.Get.{get_string-present}
use lancelot.Command.Bits.{cut_string, getbit_handle, string_range, answer_range, read_bit}
use lancelot.Command.Bits.Laws.{string_bit, get_range-byte, read_bit-string_bit}

module _ {kv : Kv} where
  cut_string-byte :
      (v : Bytes) (o : ℕ) (t : Txn kv)
      → cut_string (pos o) (pos o) (ok (some v), t)
        ≡ some (
          ok (
            some (if ltb o (length v) then get_or v o 0 ∷ [] else []),
            (get_range v (pos o) (pos o)).1,
            (get_range v (pos o) (pos o)).2,
          ),
          t,
        )
  unfolding cut_string
  cut_string-byte v o t = rw (cut_string, get_range-byte v o) refl

  -- The byte that GETBIT reads, of a key with a string.
  string_range-present :
      (key : Bytes) (o : ℕ) (p : Object) (t : Txn kv)
      → IsShortKey t string_type key
      → HasObject t string_type key p
      → string_range key (pos o) (pos o) t
        ≡ some (
          ok (
            some (
                if ltb o (length (bytes_of p.value))
                then get_or (bytes_of p.value) o 0 ∷ []
                else []),
            (get_range (bytes_of p.value) (pos o) (pos o)).1,
            (get_range (bytes_of p.value) (pos o) (pos o)).2,
          ),
          t,
        )
  unfolding string_range
  string_range-present key o p t hk (s, l, i) =
      ap (cut_string (pos o) (pos o)) (get_string-present key p t hk s l i)
      ∙ cut_string-byte (bytes_of p.value) o t

  getbit_handle-eq :
      (key arg : Bytes) (m : ℕ) (t : Txn kv)
      → nonnegative_int arg ≡ some (pos m)
      → getbit_handle (key ∷ arg ∷ []) t
        ≡ answer_range
            (λ v start end. simple_int (pos (read_bit (bytes_of v) m)))
            (string_range key (pos (m / 8)) (pos (m / 8)) t)
  unfolding getbit_handle
  getbit_handle-eq key arg m t a = rw (getbit_handle, a) refl

  -- GETBIT of a key with a string.
  pub getbit-present :
      (key arg : Bytes) (m : ℕ) (p : Object) (t : Txn kv)
      → nonnegative_int arg ≡ some (pos m)
      → IsShortKey t string_type key
      → HasObject t string_type key p
      → getbit_handle (key ∷ arg ∷ []) t
        ≡ some (simple_int (pos (string_bit (bytes_of p.value) m)), t)
  unfolding answer_range
  getbit-present key arg m p t a hk has =
      getbit_handle-eq key arg m t a
      ∙ ap (answer_range (λ v start end. simple_int (pos (read_bit (bytes_of v) m))))
          (string_range-present key (m / 8) p t hk has)
      ∙ ap (λ b. some (simple_int (pos b), t)) (read_bit-string_bit (bytes_of p.value) m)
