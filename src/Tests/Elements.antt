-- ===== src/Tests/Elements.antt =====
-- Results about hashes, sets and their elements at concrete inputs.
use lancelot.Base.{
  ◌≡◌, refl, false, none, some, List, [], ◌∷◌, ◌++◌, Bytes, codes, bytes_eq, bytes_lt, replicate,
  arith,
}
use lancelot.Base.Int.{int64_of, uint64_of, pos}
use lancelot.Base.BigEndian.{be_bytes, be_value}
use lancelot.Utils.Bytes.{prefix_next, bump_loop}
use lancelot.Utils.Hash.{get_shard, sum64}
use lancelot.Store.Kv.{found}
use lancelot.Store.Error.{Result, ok}
use lancelot.Store.Txn.{Txn, get, put, del, lock_first, write, erase}
use lancelot.Store.Scan.{list, list_loop}
use lancelot.Command.Object.{
  Object, Slice, hash_type, set_type, object_encode, object_decode, object_key, object_value_key,
  ttl_key, get_key_bytes, is_simple, disable_count,
}
use lancelot.Command.Object.Codec.{IsEncodable, decoded}
use lancelot.Command.Count.{get_count, new_count, set_count, encode_count, decode_count}
use lancelot.Command.Access.{
  new_object, set_txn_object, write_object, count_change, size_count, add_to_count, with_object,
  get_txn_object, examine, drop_expired,
}
use lancelot.Command.Access.Reads.{Stored, absent, present}
use lancelot.Command.Reply.{simple_int, respond}
use lancelot.Command.Elements.{
  encode_value, decode_value, find, write_element, store_count, element_count, count_element,
  put_or_delete_kv, create_uuid_object, get_or_create_uuid_object,
}
use lancelot.Command.Elements.Codec.{decode_value-encode_value}
use lancelot.Command.Elements.Open.{HasObject, IsShortKey, opened}
use lancelot.Command.Elements.Create.{Fits}
use lancelot.Command.Hash.Read.{hget, get_field, hgetall, list_fields, collect, both_kv}
use lancelot.Command.Hash.Write.{
  element, put_field, set_old, set_field, hset_loop, hset, remove_old, remove_field, remove_loop,
  hdel_handle,
}
use lancelot.Command.Hash.Get.{hget-hset}
use lancelot.Command.Hash.Delete.{hget-hdel_handle}
use lancelot.Command.Hash.All.{IsReadable, value_of, hgetall-hget}
use lancelot.Command.Set.Read.{sismember}
use lancelot.Command.Set.Write.{add_old, add_member, sadd_loop, sadd}
use lancelot.Command.Set.Contains.{sismember-sadd}
use lancelot.Command.Set.Merged.{union}
use lancelot.Command.Set.Union.{union-total}
use lancelot.Tests.Memory.{mem_kv, mem_laws, mem_scan, txn_on}
use lancelot.Tests.Memory.Table.{Log}

decode_value-encode_value_example :
    decode_value (encode_value (record { timestamp = 7; value = codes "x" }))
    ≡ some (record { timestamp = 7; value = codes "x" })
decode_value-encode_value_example =
    decode_value-encode_value (record { timestamp = 7; value = codes "x" }) (omega arith)

-- A hash at the key "h", with "x" in its field "a".
abbrev fields : Object
fields = record {
  user_id = 258;
  db = 3;
  key = codes "h";
  typo = hash_type;
  ttl = pos 6000;
  timestamp = 7;
  value = some (replicate 16 1);
  hash = 5;
  extra = some (1 ∷ []);
}

abbrev name : Bytes
name = codes "h"

abbrev hash_log : Log
hash_log =
    (object_key fields, found (object_encode fields))
    ∷ (object_value_key fields (codes "a"), found (be_bytes 8 7 ++ codes "x"))
    ∷ []

abbrev t1 : Txn mem_kv
t1 = txn_on hash_log

fields-IsEncodable : IsEncodable fields
unfolding is_simple
fields-IsEncodable = record {
  ttl_range = record { above = omega arith; below = omega arith };
  timestamp_range = omega arith;
  hash_range = omega arith;
  no_extra = λ e. absurd (ground arith);
  uuid = λ e. refl;
}

fields-Stored : Stored t1 (object_key (new_object t1 hash_type name)) (present fields)
unfolding bytes_eq new_object object_key get_key_bytes be_bytes
fields-Stored = (refl, fields-IsEncodable)

has_fields : HasObject t1 hash_type name fields
has_fields = (fields-Stored, refl, refl)

short : IsShortKey t1 hash_type name
unfolding new_object object_key get_key_bytes be_bytes
short = omega arith

abbrev uuid : Bytes
uuid = replicate 16 2

fits : Fits t1 hash_type name uuid
fits = record {
  short_key = short;
  uuid_type = (λ e. absurd (ground (arith, e)), λ e. absurd (ground (arith, e)));
  uuid_size = refl;
  timestamp_range = omega arith;
  hash_range = omega arith;
}

old_value : (hget name (codes "a") t1).0 ≡ ok (some (codes "x"))
unfolding hget with_object get_txn_object examine drop_expired get_field find decode_value be_value
    get new_object object_key object_value_key get_key_bytes be_bytes object_encode object_decode
    is_simple bytes_eq int64_of uint64_of
old_value = refl

abbrev given : List Bytes
given = codes "a" ∷ codes "y" ∷ codes "b" ∷ codes "z" ∷ []

set_done : (hset (ok uuid) name given false t1).0 ≡ ok 1
unfolding hset hset_loop set_field set_old put_field element encode_value get_or_create_uuid_object
    create_uuid_object with_object get_txn_object examine drop_expired find get put lock_first write
    put_or_delete_kv write_element count_element element_count store_count get_count new_count
    set_count encode_count decode_count get_shard sum64 new_object object_key object_value_key
    get_key_bytes be_bytes object_encode object_decode is_simple bytes_eq be_value disable_count
set_done = refl

hget-hset_example :
    (hget name (codes "a") (hset (ok uuid) name given false t1).1).0 ≡ ok (some (codes "y"))
unfolding bytes_eq
hget-hset_example =
    hget-hset mem_laws uuid name (codes "a") given (present fields) t1 1 (some (codes "x")) fits
      has_fields tt (omega arith) old_value set_done

delete_done : (hdel_handle (name ∷ codes "b" ∷ codes "a" ∷ []) t1).0 ≡ simple_int (pos 1)
unfolding hdel_handle remove_loop remove_field remove_old with_object get_txn_object examine
    drop_expired find get del lock_first erase put_or_delete_kv write_element count_element
    element_count store_count get_count new_count set_count put write encode_count decode_count
    get_shard sum64 new_object object_key object_value_key get_key_bytes be_bytes object_encode
    object_decode is_simple bytes_eq be_value disable_count respond
delete_done = refl

hget-hdel_handle_example :
    (hget name (codes "a") (hdel_handle (name ∷ codes "b" ∷ codes "a" ∷ []) t1).1).0 ≡ ok none
unfolding bytes_eq
hget-hdel_handle_example =
    hget-hdel_handle mem_laws name (codes "b") (codes "a") (codes "a" ∷ []) (present fields) t1
      (pos 1) (some (codes "x")) short has_fields (omega arith) old_value delete_done

abbrev listed : List Slice
listed = some (codes "a") ∷ some (codes "x") ∷ []

all_done : (hgetall name both_kv 0 t1).0 ≡ ok listed
unfolding hgetall list_fields list list_loop collect bytes_lt prefix_next bump_loop with_object
    get_txn_object examine drop_expired get decode_value new_object object_key object_value_key
    get_key_bytes be_bytes object_encode object_decode is_simple bytes_eq be_value int64_of
    uint64_of
all_done = refl

readable : IsReadable mem_scan t1 (opened t1 hash_type name fields)
unfolding new_object object_key object_value_key get_key_bytes be_bytes bytes_lt prefix_next
    bump_loop decoded bytes_eq is_simple
readable = record {
  prefix_bytes = ground arith;
  ends = refl;
  few = omega arith;
  byte_keys = ground arith;
}

hgetall-hget_example : value_of (codes "a") listed ≡ some (codes "x")
hgetall-hget_example =
    hgetall-hget mem_scan name (codes "a") fields t1 listed (some (codes "x")) short has_fields
      readable all_done old_value

abbrev t0 : Txn mem_kv
t0 = txn_on []

absent_short : IsShortKey t0 set_type name
unfolding new_object object_key get_key_bytes be_bytes
absent_short = omega arith

absent-Fits : Fits t0 set_type name uuid
absent-Fits = record {
  short_key = absent_short;
  uuid_type = (λ e. absurd (ground (arith, e)), λ e. absurd (ground (arith, e)));
  uuid_size = refl;
  timestamp_range = omega arith;
  hash_range = omega arith;
}

not_member : (sismember name (codes "m") t0).0 ≡ ok (pos 0)
unfolding sismember with_object get_txn_object get new_object object_key get_key_bytes be_bytes
not_member = refl

add_done : (sadd (ok uuid) name (codes "m" ∷ codes "n" ∷ codes "m" ∷ []) false t0).0 ≡ ok 2
unfolding sadd sadd_loop add_member add_old encode_value get_or_create_uuid_object
    create_uuid_object set_txn_object write_object count_change size_count add_to_count
    object_encode ttl_key with_object get_txn_object find get put lock_first write put_or_delete_kv
    write_element count_element element_count store_count get_count new_count set_count encode_count
    decode_count get_shard sum64 new_object object_key object_value_key get_key_bytes be_bytes
    is_simple bytes_eq be_value disable_count element
add_done = refl

sismember-sadd_example :
    (sismember name
      (codes "m")
      (sadd (ok uuid) name (codes "m" ∷ codes "n" ∷ codes "m" ∷ []) false t0).1).0
    ≡ ok (pos 1)
unfolding bytes_eq
sismember-sadd_example =
    sismember-sadd mem_laws uuid name (codes "m") (codes "m" ∷ codes "n" ∷ codes "m" ∷ []) absent t0
      2 (pos 0) absent-Fits refl (λ m. refl) (omega arith) not_member add_done

union-total_example :
    (r : Result Bytes (List Slice)) × (u : Txn mem_kv) × (union (name ∷ name ∷ []) t0 ≡ some (r, u))
union-total_example = union-total (name ∷ name ∷ []) t0

abbrev other_key : Bytes
other_key = object_value_key fields (codes "b")
