-- ===== src/Tests/Objects.antt =====
-- Results about the objects, the counts and the transactions at concrete inputs.
use lancelot.Base.{
  ◌≡◌, refl, inl, true, false, none, some, [], ◌∷◌, Bytes, codes, get_or, bytes_eq, replicate,
  length, bytes_lt, ◌<◌, arith,
}
use lancelot.Base.Int.{pos, negsuc}
use lancelot.Base.BigEndian.{be_bytes}
use lancelot.Utils.Hash.{get_shard, sum64}
use lancelot.Store.Kv.{found, missing}
use lancelot.Store.Error.{ok}
use lancelot.Store.Txn.{Txn, get, max_key_size, put, del, lock_first, write, erase}
use lancelot.Store.Txn.Frame.{Touches}
use lancelot.Command.Object.{
  Object, data_prefix, bytes_of, string_type, hash_type, object_encode, object_decode, object_key,
  ttl_key, get_ttl_bytes, get_key_bytes, object_from_ttl, encode_ttl_value, is_simple,
}
use lancelot.Command.Object.Codec.{IsEncodable, decoded, object_decode-object_encode}
use lancelot.Command.Object.Keys.{object_key-injective, ttl_key_order, object_from_ttl-ttl_key}
use lancelot.Command.Count.{Count, encode_count, decode_count, get_count, new_count, set_count}
use lancelot.Command.Count.Codec.{decode_count-encode_count}
use lancelot.Command.Access.{
  get_txn_object, set_txn_object, delete_key, no_change, plus_count, minus_count, size_count,
  add_to_count, count_change, write_object, clean_key, clean_apart,
}
use lancelot.Command.Access.Reads.{Stored, present, answer, get_txn_object-answer}
use lancelot.Command.Access.Writes.{
  IsCountKey, KeyOrCount, DeletedKeys, set_txn_object-Touches, delete_key-Touches, delete_key-ok,
}
use lancelot.Tests.Memory.{mem_kv, mem_laws, txn_on}
use lancelot.Tests.Memory.Table.{Log}

-- A string "41" at the key "n", with an expiry, and a hash at "h".
abbrev pub text : Object
text = record {
  user_id = 258;
  db = 3;
  key = codes "n";
  typo = string_type;
  ttl = pos 5000;
  timestamp = 7;
  value = some (codes "41");
  hash = 5;
  extra = none;
}

abbrev fields : Object
fields = record text {
  key = codes "h";
  typo = hash_type;
  ttl = pos 6000;
  value = some (replicate 16 1);
  extra = some (1 ∷ []);
}

abbrev blank : Object
blank = record text { typo = 0; ttl = pos 0; timestamp = 0; value = none; hash = 0 }

pub text-IsEncodable : IsEncodable text
unfolding is_simple
text-IsEncodable = record {
  ttl_range = record { above = omega arith; below = omega arith };
  timestamp_range = omega arith;
  hash_range = omega arith;
  no_extra = λ e. refl;
  uuid = λ e. absurd (ground arith);
}

fields-IsEncodable : IsEncodable fields
unfolding is_simple
fields-IsEncodable = record {
  ttl_range = record { above = omega arith; below = omega arith };
  timestamp_range = omega arith;
  hash_range = omega arith;
  no_extra = λ e. absurd (ground arith);
  uuid = λ e. refl;
}

object_decode-object_encode_example :
    object_decode (object_encode fields) blank ≡ (true, decoded fields blank)
object_decode-object_encode_example = object_decode-object_encode fields blank fields-IsEncodable

object_key-injective_example :
    (text.user_id ≡ text.user_id) × (text.db ≡ text.db) × (text.key ≡ text.key)
object_key-injective_example = object_key-injective text text (omega arith) (omega arith) refl

abbrev text_ttl : Bytes
text_ttl = bytes_of (ttl_key text)

text_ttl-eq : ttl_key text ≡ some text_ttl
unfolding ttl_key get_ttl_bytes
text_ttl-eq = refl

abbrev fields_ttl : Bytes
fields_ttl = bytes_of (ttl_key fields)

fields_ttl-eq : ttl_key fields ≡ some fields_ttl
unfolding ttl_key get_ttl_bytes
fields_ttl-eq = refl

ttl_key_order_example : bytes_lt text_ttl fields_ttl ≡ true
ttl_key_order_example =
    ttl_key_order text fields text_ttl fields_ttl refl refl text-IsEncodable.ttl_range
      fields-IsEncodable.ttl_range (omega arith) text_ttl-eq fields_ttl-eq

object_from_ttl-ttl_key_example :
    object_from_ttl {F = Bytes} fields_ttl (encode_ttl_value hash_type (replicate 16 1))
    ≡ ok (record fields {
      typo = hash_type;
      timestamp = 0;
      value = some (replicate 16 1);
      hash = 0;
      extra = none;
    })
object_from_ttl-ttl_key_example =
    object_from_ttl-ttl_key {F = Bytes} fields fields_ttl hash_type (replicate 16 1)
      fields-IsEncodable.ttl_range (omega arith) (omega arith) fields_ttl-eq

abbrev tally : Count
tally = record {
  timestamp = 7;
  value = negsuc 2;
  key = codes "c";
  shard = 1;
  user_value = codes "u";
}

decode_count-encode_count_example :
    decode_count (record tally { value = pos 0 }) (encode_count tally)
    ≡ record tally { timestamp = 7; value = negsuc 2; user_value = codes "u" }
decode_count-encode_count_example =
    decode_count-encode_count (record tally { value = pos 0 }) tally (omega arith)
      (record { above = omega arith; below = omega arith })

-- The key of the string, and a store that has it.
abbrev pub text_key : Bytes
text_key = object_key text

abbrev pub with_text : Log
with_text = (text_key, found (object_encode text)) ∷ []

abbrev pub t0 : Txn mem_kv
t0 = txn_on with_text

put_done : (put text_key (1 ∷ []) t0).0 ≡ ok tt
unfolding put lock_first write object_key get_key_bytes be_bytes
put_done = refl

short_key : length text_key < max_key_size
unfolding object_key get_key_bytes be_bytes
short_key = omega arith

pub text-Stored : Stored t0 text_key (present text)
unfolding bytes_eq object_key get_key_bytes be_bytes
text-Stored = (refl, text-IsEncodable)

get_txn_object-answer_example :
    get_txn_object text_key blank false t0 ≡ (answer t0 blank (present text), t0)
get_txn_object-answer_example =
    get_txn_object-answer text_key blank (present text) t0 short_key text-Stored

set_done : (set_txn_object text_key text no_change t0).0 ≡ ok tt
unfolding set_txn_object write_object count_change put lock_first write object_key get_key_bytes
    be_bytes object_encode
set_done = refl

not_count : ¬ IsCountKey text_key
unfolding object_key get_key_bytes be_bytes
not_count h = absurd (ground (arith, h))

set_txn_object-Touches_example :
    Touches {kv = mem_kv} (KeyOrCount text_key) (set_txn_object text_key text plus_count)
set_txn_object-Touches_example = set_txn_object-Touches mem_laws text_key text plus_count

delete_done : (delete_key text_key text (pos 1000) minus_count t0).0 ≡ ok tt
unfolding delete_key clean_key clean_apart is_simple set_txn_object write_object count_change
    size_count add_to_count get_count new_count set_count get_shard sum64 get put del lock_first
    write erase object_key ttl_key get_ttl_bytes get_key_bytes be_bytes encode_count bytes_eq
delete_done = refl

pub data_key : get_or text_key 0 0 ≡ data_prefix
unfolding object_key get_key_bytes be_bytes
data_key = refl

delete_key-ok_example :
    mem_kv.get (delete_key text_key text (pos 1000) minus_count t0).1.store text_key ≡ missing
delete_key-ok_example =
    delete_key-ok mem_laws text_key text (pos 1000) minus_count t0 data_key (inl refl) delete_done

delete_key-Touches_example :
    Touches {kv = mem_kv} (DeletedKeys text_key) (delete_key text_key text (pos 1000) minus_count)
delete_key-Touches_example =
    delete_key-Touches mem_laws text_key text (pos 1000) minus_count (inl refl)
