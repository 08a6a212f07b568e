-- ===== src/Tests/Generic.antt =====
-- Results about expiries, DEL, SET and SETRANGE at concrete inputs.
use mathlib.Core.Option
use lancelot.Base.{
  ◌≡◌, ◌<◌, refl, true, none, some, [], ◌∷◌, Bytes, codes, length, get_or, ◌^◌, ◌-◌, arith,
  if◌then◌else◌, bytes_eq,
}
use lancelot.Base.Int.{pos}
use lancelot.Base.BigEndian.{be_bytes}
use lancelot.Base.{some}
use lancelot.Store.Txn.{Txn}
use lancelot.Command.Reply.{simple_int}
use lancelot.Base.Decimal.{parse_int, parse_digits}
use lancelot.Utils.Hash.{get_shard, sum64}
use lancelot.Store.Kv.{found, missing}
use lancelot.Store.Error.{ok}
use lancelot.Store.Txn.{max_key_size, get, put, del, lock_first, write, erase}
use lancelot.Command.Object.{
  Object, bytes_of, object_key, object_encode, ttl_key, get_ttl_bytes, get_key_bytes, is_simple,
  unknown_type,
}
use lancelot.Command.Object.Codec.{decoded}
use lancelot.Command.Count.{get_count, new_count, set_count, encode_count}
use lancelot.Command.Access.{
  new_object, set_txn_object, write_object, count_change, size_count, add_to_count, clean_key,
  clean_apart, delete_key, minus_count,
}
use lancelot.Command.Access.Reads.{Stored, present}
use lancelot.Command.Reply.{ok_reply, slice_reply}
use lancelot.Command.Generic.{touch_or_delete}
use lancelot.Command.Generic.Expire.{expire_handle, set_expiry, ttl_entry}
use lancelot.Command.Generic.Laws.{set_expiry-ok, expire_handle-gone, touch_or_delete-gone}
use lancelot.Command.Strings.Set.{ExpireOption, no_options, kept_option, store_set, set_found}
use lancelot.Command.Strings.Set.Laws.{set_object, expiry_after, set_found-ok, set_found-entry}
use lancelot.Command.Strings.SetRange.{overwrite, byte_after, overwrite-get_or}
use lancelot.Tests.Memory.{mem_kv, mem_laws}
use lancelot.Tests.Objects.{text, text_key, t0, text-Stored, data_key}

expiry_done : (set_expiry text_key (pos 9000) text t0).0 ≡ ok (pos 1)
unfolding set_expiry ttl_entry is_simple set_txn_object write_object count_change put lock_first
    write object_key ttl_key get_ttl_bytes get_key_bytes be_bytes object_encode
expiry_done = refl

abbrev later : Object
later = record text { ttl = pos 9000; timestamp = t0.timestamp }

set_expiry-ok_example :
    (mem_kv.get (set_expiry text_key (pos 9000) text t0).1.store text_key
      ≡ found (object_encode later))
    × (mem_kv.get (set_expiry text_key (pos 9000) text t0).1.store (bytes_of (ttl_key later))
        ≡ found (ttl_entry later))
set_expiry-ok_example =
    set_expiry-ok mem_laws text_key (pos 9000) text t0 (pos 1) data_key (omega arith) expiry_done

abbrev name : Bytes
name = codes "n"

same_key : object_key (new_object t0 unknown_type name) ≡ text_key
unfolding new_object object_key get_key_bytes be_bytes
same_key = refl

short : length (object_key (new_object t0 unknown_type name)) < max_key_size
unfolding new_object object_key get_key_bytes be_bytes
short = omega arith

there : Stored t0 (object_key (new_object t0 unknown_type name)) (present text)
there = rw same_key text-Stored

delete_done :
    (delete_key
      (object_key (new_object t0 unknown_type name))
      (decoded text (new_object t0 unknown_type name))
      t0.now
      minus_count
      t0).0
    ≡ ok tt
unfolding delete_key clean_key clean_apart is_simple set_txn_object write_object count_change
    size_count add_to_count get_count new_count set_count get_shard sum64 get put del lock_first
    write erase new_object decoded object_key ttl_key get_ttl_bytes get_key_bytes be_bytes
    encode_count bytes_eq
delete_done = refl

touch_or_delete-gone_example :
    ((touch_or_delete true 0 (name ∷ []) t0).0 ≡ ok 1)
    × (mem_kv.get
          (touch_or_delete true 0 (name ∷ []) t0).1.store
          (object_key (new_object t0 unknown_type name))
        ≡ missing)
touch_or_delete-gone_example =
    touch_or_delete-gone mem_laws name text t0 short there refl (omega arith) delete_done

-- Two seconds after the epoch, and a number of seconds just below the bound of EXPIRE.
abbrev t2 : Txn mem_kv
t2 = record t0 { now = pos 2000 }

abbrev many_seconds : Bytes
many_seconds = codes "9223372036854774"

parse-many_seconds : parse_int many_seconds ≡ some (pos 9223372036854774)
unfolding parse_int parse_digits
parse-many_seconds = refl

short_at_two : length (object_key (new_object t2 unknown_type name)) < max_key_size
unfolding new_object object_key get_key_bytes be_bytes
short_at_two = omega arith

same_at_two : object_key (new_object t2 unknown_type name) ≡ text_key
unfolding new_object object_key get_key_bytes be_bytes
same_at_two = refl

there_at_two : Stored t2 (object_key (new_object t2 unknown_type name)) (present text)
there_at_two = rw same_at_two text-Stored

delete_at_two :
    (delete_key
      (object_key (new_object t2 unknown_type name))
      (decoded text (new_object t2 unknown_type name))
      t2.now
      minus_count
      t2).0
    ≡ ok tt
unfolding delete_key clean_key clean_apart is_simple set_txn_object write_object count_change
    size_count add_to_count get_count new_count set_count get_shard sum64 get put del lock_first
    write erase new_object decoded object_key ttl_key get_ttl_bytes get_key_bytes be_bytes
    encode_count bytes_eq
delete_at_two = refl

expire_handle-gone_example :
    ((expire_handle (λ n. pos 0) (name ∷ many_seconds ∷ []) t2).0 ≡ simple_int (pos 1))
    × (mem_kv.get
          (expire_handle (λ n. pos 0) (name ∷ many_seconds ∷ []) t2).1.store
          (object_key (new_object t2 unknown_type name))
        ≡ missing)
expire_handle-gone_example =
    expire_handle-gone mem_laws (λ n. pos 0) name many_seconds 2000 9223372036854774 text t2 refl
      (omega arith) (record { above = omega arith; below = omega arith }) parse-many_seconds refl
      (omega arith) short_at_two there_at_two refl delete_at_two

abbrev in_a_minute : ExpireOption
in_a_minute = record no_options { expire = pos 61000 }

set_done : (set_found name (codes "x") in_a_minute text t0).0 ≡ ok (ok_reply Bytes)
unfolding set_found kept_option store_set new_object set_txn_object write_object count_change put
    lock_first write object_key ttl_key get_ttl_bytes get_key_bytes be_bytes object_encode del
set_done = refl

set_found-ok_example :
    (ok_reply Bytes ≡ (if in_a_minute.get then slice_reply text.value else ok_reply Bytes))
    × (mem_kv.get
          (set_found name (codes "x") in_a_minute text t0).1.store
          (object_key (set_object name (codes "x") (expiry_after in_a_minute text) t0))
        ≡ found (object_encode (set_object name (codes "x") (expiry_after in_a_minute text) t0)))
set_found-ok_example =
    set_found-ok mem_laws name (codes "x") in_a_minute text t0 (ok_reply Bytes) (λ e. cc) set_done

set_found-entry_example :
    mem_kv.get
      (set_found name (codes "x") in_a_minute text t0).1.store
      (bytes_of (ttl_key (set_object name (codes "x") (expiry_after in_a_minute text) t0)))
    ≡ found (1 ∷ [])
set_found-entry_example =
    set_found-entry mem_laws name (codes "x") in_a_minute text t0 (ok_reply Bytes) (λ e. cc) refl
      refl set_done

overwrite-get_or_example :
    Option.map (λ value. get_or value 3 0) (overwrite (codes "ab") 4 (codes "cd"))
    ≡ some (byte_after (codes "ab") 4 (codes "cd") 3)
overwrite-get_or_example = overwrite-get_or (codes "ab") 4 (codes "cd") 3

-- At the greatest int the end of the written bytes wraps, and SETRANGE panics.
setrange_panics : overwrite (codes "ab") (2 ^ 63 - 1) (codes "cd") ≡ none
unfolding overwrite
setrange_panics = refl
