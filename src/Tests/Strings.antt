-- ===== src/Tests/Strings.antt =====
-- Results about the string commands at concrete inputs.
use lancelot.Base.{
  ℕ, ◌≡◌, ◌↔◌, ◌<◌, refl, none, some, [], ◌∷◌, Bytes, codes, length, bytes_eq, arith, if◌then◌else◌,
  ◌&&◌,
}
use lancelot.Base.Int.{
  int64_of, uint64_of, pos, negsuc, ◌≤ℤ◌, ◌<ℤ◌, min_int64, max_int64, ◌+ℤ◌, leb_ℤ,
}
use lancelot.Base.BigEndian.{be_bytes, be_value}
use lancelot.Base.Decimal.{parse_int, parse_digits, format_int, format_nat, format_loop}
use lancelot.Store.Kv.{found}
use lancelot.Store.Error.{ok, overflow}
use lancelot.Store.Txn.{max_key_size, get, put, del, lock_first, write, erase}
use lancelot.Command.Object.{
  string_type, object_key, object_encode, object_decode, get_key_bytes, get_ttl_bytes, ttl_key,
  is_simple,
}
use lancelot.Command.Object.Codec.{decoded}
use lancelot.Command.Access.{
  new_object, get_txn_object, with_object, examine, set_txn_object, write_object, count_change,
  no_change,
}
use lancelot.Command.Access.Reads.{present, Stored}
use lancelot.Command.Reply.{simple_int, bulk_int, set_error}
use lancelot.Command.Strings.Read.{get_range, get_string}
use lancelot.Command.Strings.Read.Range.{range_of, get_range-range_of, get_range-none_iff}
use lancelot.Command.Strings.Write.{
  set_string, store_string, store_if_missing, store_if_found, no_check,
}
use lancelot.Command.Strings.Write.Get.{get_string-set_string, set_string-others}
use lancelot.Command.Strings.Counter.{int_func, decr_by, incrby_handle, store_changed, is_zero}
use lancelot.Command.Strings.Counter.Laws.{added, int_func-added, decr_by-least}
use lancelot.Command.Strings.Counter.Handle.{with_sum, incrby_handle-eq, incrby_handle-sum}
use lancelot.Tests.Memory.{mem_kv, mem_laws}
use lancelot.Tests.Objects.{text, text_key, t0, text-Stored}

get_range-range_of_example :
    (get_range (codes "abcdef") (negsuc 2) (pos 9)).0
    ≡ some (range_of (codes "abcdef") (negsuc 2) (pos 9))
get_range-range_of_example = get_range-range_of (codes "abcdef") (negsuc 2) (pos 9) (omega arith)

get_range-none_iff_example :
    ((get_range [] (negsuc 0) (pos 1)).0 ≡ none)
    ↔ ((length {A = ℕ} [] ≡ 0) × (negsuc 0 ≤ℤ pos 1) × (negsuc 0 <ℤ pos 0))
get_range-none_iff_example = get_range-none_iff [] (negsuc 0) (pos 1)

parse-41 : parse_int (codes "41") ≡ some (pos 41)
unfolding parse_int parse_digits
parse-41 = refl

parse-1 : parse_int (codes "1") ≡ some (pos 1)
unfolding parse_int parse_digits
parse-1 = refl

parse-least : parse_int (codes "-9223372036854775808") ≡ some min_int64
unfolding parse_int parse_digits
parse-least = refl

int_func-added_example : int_func {F = Bytes} (pos 1) text ≡ added (pos 41) (pos 1) text
int_func-added_example =
    int_func-added {F = Bytes} (pos 41) (pos 1) text (codes "41") refl parse-41
      (record { above = omega arith; below = omega arith })

decr_by-least_example :
    decr_by {F = Bytes} (codes "-9223372036854775808") text ≡ added (pos 41) min_int64 text
decr_by-least_example =
    decr_by-least {F = Bytes} (pos 41) text (codes "-9223372036854775808") (codes "41") refl
      parse-41 parse-least

abbrev name : Bytes
name = codes "n"

same_key : object_key (new_object t0 string_type name) ≡ text_key
unfolding new_object object_key get_key_bytes be_bytes
same_key = refl

short : length (object_key (new_object t0 string_type name)) < max_key_size
unfolding new_object object_key get_key_bytes be_bytes
short = omega arith

there : Stored t0 (object_key (new_object t0 string_type name)) (present text)
there = rw same_key text-Stored

set_done : (set_string {kv = mem_kv} (λ n. pos 0) name (codes "7") (pos 0) no_check t0).0 ≡ ok tt
unfolding set_string store_string store_if_missing store_if_found with_object get_txn_object examine
    get put del lock_first write erase new_object object_key get_key_bytes be_bytes be_value
    bytes_eq object_encode object_decode is_simple set_txn_object write_object count_change ttl_key
    get_ttl_bytes int64_of uint64_of
set_done = refl

get_string-set_string_example :
    get_string name (set_string {kv = mem_kv} (λ n. pos 0) name (codes "7") (pos 0) no_check t0).1
    ≡ (
      ok (some (codes "7")),
      (set_string {kv = mem_kv} (λ n. pos 0) name (codes "7") (pos 0) no_check t0).1,
    )
get_string-set_string_example =
    get_string-set_string mem_laws (λ n. pos 0) name (codes "7") (present text) t0 short
      (omega arith) (omega arith) there refl refl set_done

set_string-others_example :
    mem_kv.get
      (set_string {kv = mem_kv} (λ n. pos 0) name (codes "7") (pos 0) no_check t0).1.store
      (object_key (new_object t0 string_type (codes "m")))
    ≡ mem_kv.get t0.store (object_key (new_object t0 string_type (codes "m")))
set_string-others_example =
    set_string-others mem_laws (λ n. pos 0) name (codes "m") (codes "7") (present text) t0 short
      (omega arith) there refl refl (λ e. absurd (ground (arith, e)))

incrby_handle-eq_example : incrby_handle (name ∷ codes "1" ∷ []) t0 ≡ (
    if is_zero (pos 1)
    then (bulk_int (pos 41), t0)
    else if leb_ℤ min_int64 (pos 41 +ℤ pos 1) && leb_ℤ (pos 41 +ℤ pos 1) max_int64
    then store_changed
        (object_key (new_object t0 string_type name))
        (record (decoded text (new_object t0 string_type name)) {
          value = some (format_int (pos 41 +ℤ pos 1));
        })
        no_change
        (pos 41 +ℤ pos 1)
        t0
    else set_error overflow t0)
incrby_handle-eq_example =
    incrby_handle-eq name (codes "1") (pos 41) (pos 1) text t0 short there refl refl parse-41
      parse-1

incr_done :
    (set_txn_object
      (object_key (new_object t0 string_type name))
      (with_sum (pos 42) name text t0)
      no_change
      t0).0
    ≡ ok tt
unfolding put lock_first write new_object object_key get_key_bytes be_bytes object_encode
    set_txn_object write_object count_change decoded format_int format_nat format_loop is_simple
incr_done = refl

incrby_handle-sum_example :
    ((incrby_handle (name ∷ codes "1" ∷ []) t0).0 ≡ simple_int (pos 41 +ℤ pos 1))
    × (mem_kv.get
          (incrby_handle (name ∷ codes "1" ∷ []) t0).1.store
          (object_key (new_object t0 string_type name))
        ≡ found (object_encode (with_sum (pos 41 +ℤ pos 1) name text t0)))
incrby_handle-sum_example =
    incrby_handle-sum mem_laws name (codes "1") (pos 41) (pos 1) text t0 short there refl refl
      parse-41 parse-1 refl (record { above = omega arith; below = omega arith }) incr_done
