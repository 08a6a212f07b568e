-- ===== src/Command/Object.antt =====
-- command/object.go: the object that a key holds, its encoding, and the keys of the store.
pub mod Codec
pub mod Keys
use lancelot.Base.{
  ℕ, ◌+◌, ◌-◌, ◌≤◌, ◌≡◌, Bool, true, false, not, ◌&&◌, ◌||◌, Option, none, some, List, [], ◌∷◌,
  ◌++◌, ltb, leb, ◌==◌, if◌then◌else◌, Bytes, length, get_or, take, drop,
}
use lancelot.Base.Int.{ℤ, pos, leb_ℤ, ltb_ℤ, uint64_of, int64_of}
use lancelot.Base.BigEndian.{be_bytes, be_value}
use lancelot.Store.Error.{Error, value_too_short, not_ttl, Result, ok, err}

-- ObjectType
abbrev pub unknown_type : ℕ
unknown_type = b'?'

abbrev pub alist_type : ℕ
alist_type = b'a'

abbrev pub blist_type : ℕ
blist_type = b'b'

abbrev pub hll_type : ℕ
hll_type = b'f'

abbrev pub hash_type : ℕ
hash_type = b'h'

abbrev pub json_type : ℕ
json_type = b'j'

abbrev pub string_type : ℕ
string_type = b'k'

abbrev pub geo_type : ℕ
geo_type = b'o'

abbrev pub set_type : ℕ
set_type = b's'

abbrev pub zset_type : ℕ
zset_type = b'z'

-- PrefixType
abbrev pub data_prefix : ℕ
data_prefix = b'd'

abbrev pub count_prefix : ℕ
count_prefix = b'c'

abbrev pub count_general : ℕ
count_general = b'C'

abbrev pub ttl_prefix : ℕ
ttl_prefix = b't'

abbrev pub key_prefix : ℕ
key_prefix = b'k'

abbrev pub value_prefix : ℕ
value_prefix = b'v'

abbrev pub default_hash_mark : ℕ
default_hash_mark = 1023

-- A Go slice that may be nil.
abbrev pub Slice : Type 0
Slice = Option Bytes

abbrev pub bytes_of : Slice → Bytes
bytes_of none = []
bytes_of (some b) = b

pub record Object : Type 0 where
  pub user_id : ℕ
  pub db : ℕ
  pub key : Bytes
  pub typo : ℕ
  pub ttl : ℤ
  pub timestamp : ℕ
  pub value : Slice
  pub hash : ℕ
  pub extra : Slice

-- IsSimple
unfoldable pub is_simple : Object → Bool
is_simple o = o.typo == string_type || o.typo == json_type

-- DisableCount
unfoldable pub disable_count : Object → Bool
disable_count o =
    o.typo == hash_type
    || o.typo == alist_type
    || o.typo == zset_type
    || o.typo == set_type
    || o.typo == geo_type

-- IsCountable
unfoldable pub is_countable : Object → Bool
is_countable o =
    not (o.typo == string_type)
    && not (o.typo == json_type)
    && not (o.typo == hll_type)
    && not (o.typo == blist_type)

abbrev pub concat : List Bytes → Bytes
concat [] = []
concat (v ∷ vs) = v ++ concat vs

-- GetKeyBytes, the function
unfoldable pub get_key_bytes : ℕ → ℕ → ℕ → ℕ → List Bytes → Bytes
get_key_bytes typo user db keyPrefix parts =
    typo ∷ (be_bytes 2 user ++ db ∷ keyPrefix ∷ concat parts)

-- Object.GetKeyBytes
unfoldable pub object_key : Object → Bytes
unfolding get_key_bytes
object_key o = get_key_bytes data_prefix o.user_id o.db key_prefix (o.key ∷ [])

-- Object.GetValueBytes
unfoldable pub object_value_key : Object → Bytes → Bytes
unfolding get_key_bytes
object_value_key o field =
    get_key_bytes data_prefix o.user_id o.db value_prefix (bytes_of o.value ∷ field ∷ [])

-- getTTLBytes
unfoldable pub get_ttl_bytes : Object → ℕ → Bytes → Slice
unfolding get_key_bytes
get_ttl_bytes o typo suffix =
    if leb_ℤ o.ttl (pos 0)
    then none
    else some
        (get_key_bytes ttl_prefix o.user_id o.db typo (be_bytes 8 (uint64_of o.ttl) ∷ suffix ∷ []))

-- GetTTLKeyBytes
unfoldable pub ttl_key : Object → Slice
unfolding get_ttl_bytes
ttl_key o = get_ttl_bytes o key_prefix o.key

-- GetTTLValueBytes
unfoldable pub ttl_value_key : Object → Slice
unfolding get_ttl_bytes
ttl_value_key o = get_ttl_bytes o value_prefix (bytes_of o.value)

-- EncodeTTLValue
unfoldable pub encode_ttl_value : ℕ → Bytes → Bytes
encode_ttl_value typo value = typo ∷ value

abbrev new_object_of_key : Bytes → Object
new_object_of_key k = record {
  user_id = be_value (take 2 (drop 1 k));
  db = get_or k 3 0;
  key = [];
  typo = 0;
  ttl = int64_of (be_value (take 8 (drop 5 k)));
  timestamp = 0;
  value = none;
  hash = 0;
  extra = none;
}

-- GetObjectFromTTL, with DecodeTTLValue in its first branch
unfoldable pub object_from_ttl : {F : Type 0} → Bytes → Bytes → Result F Object
object_from_ttl k v =
    if ltb (length k) 13
    then err value_too_short
    else if not (get_or k 0 0 == ttl_prefix)
    then err not_ttl
    else if get_or k 4 0 == key_prefix
    then ok (
        if leb 17 (length v)
        then record (new_object_of_key k) {
          key = drop 13 k;
          typo = get_or v 0 0;
          value = some (drop 1 v);
        }
        else record (new_object_of_key k) { key = drop 13 k })
    else if get_or k 4 0 == value_prefix
    then ok (record (new_object_of_key k) { value = some (drop 13 k) })
    else err not_ttl

-- ObjectEncode
unfoldable pub object_encode : Object → Bytes
object_encode o =
    o.typo
    ∷ (be_bytes 8 (uint64_of o.ttl)
        ++ (be_bytes 8 o.timestamp
            ++ (be_bytes 2 o.hash ++ (bytes_of o.value ++ bytes_of o.extra))))

-- CleanValue
unfoldable pub clean_value : ℕ → ℕ → Object → Object
clean_value hash typo o = record o {
  typo = typo;
  ttl = pos 0;
  timestamp = 0;
  hash = if hash == 0 then default_hash_mark else hash;
  value = none;
  extra = none;
}

-- ObjectDecode, with the fields that it has written when it fails
unfoldable pub object_decode : Bytes → Object → Bool × Object
unfolding is_simple
object_decode b o =
    let o' = record o {
      typo = get_or b 0 0;
      ttl = int64_of (be_value (take 8 (drop 1 b)));
      timestamp = be_value (take 8 (drop 9 b));
      hash = be_value (take 2 (drop 17 b));
    } in
    if ltb (length b) 19
    then (false, o)
    else if is_simple o'
    then (true, record o' { value = some (drop 19 b) })
    else if ltb (length b) 35
    then (false, o')
    else (true, record o' { value = some (take 16 (drop 19 b)); extra = some (drop 35 b) })

-- GetObjectFromKV
unfoldable pub object_from_kv : {F : Type 0} → Bytes → Bytes → Result F Object
unfolding object_decode
object_from_kv key value =
    let o = record (new_object_of_key key) { ttl = pos 0; key = drop 5 key } in
    let (decoded, o') = object_decode value o in
    if ltb (length key) 5 || ltb (length value) 1
    then err value_too_short
    else if decoded
    then ok o'
    else err value_too_short
