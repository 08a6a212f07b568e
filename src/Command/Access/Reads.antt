-- ===== src/Command/Access/Reads.antt =====
-- What getTxnObject finds.
use lancelot.Base.{
  ℕ, ◌<◌, ◌≡◌, Bool, false, not, ◌&&◌, ◌==◌, none, some, Bytes, arith, if◌then◌else◌, length,
}
use lancelot.Base.Int.{ℤ, pos, ltb_ℤ, leb_ℤ}
use lancelot.Store.Kv.{Kv, found, missing}
use lancelot.Store.Error.{key_not_found, wrong_type}
use lancelot.Store.Txn.{Txn, get, max_key_size}
use lancelot.Command.Object.{Object, object_encode, clean_value, unknown_type}
use lancelot.Command.Object.Codec.{IsEncodable, decoded, object_decode-object_encode}
use lancelot.Command.Access.{Lookup, drop_expired, examine, get_txn_object}

-- `object.TTL > 0 && object.TTL <= txn.Now`
abbrev pub is_expired : ℤ → ℤ → Bool
is_expired ttl now = ltb_ℤ (pos 0) ttl && leb_ℤ ttl now

-- A reading handler asked for one type and the key has another.
abbrev pub is_mismatch : ℕ → ℕ → Bool
is_mismatch asked typo = not (asked == unknown_type) && not (asked == typo)

-- What a key holds: nothing, or an object that its encoding determines.
pub data Content : Type 0 where
  absent : Content
  present : Object → Content

abbrev pub Stored : {kv : Kv} → Txn kv → Bytes → Content → Type 0
Stored {kv} t key absent = kv.get t.store key ≡ missing
Stored {kv} t key (present o) = (kv.get t.store key ≡ found (object_encode o)) × IsEncodable o

-- What a lookup without clearing answers, by the content of the key.
abbrev pub answer : {kv : Kv} → Txn kv → Object → Content → Lookup kv
answer t into absent = (some key_not_found, into)
answer t into (present o) =
    if is_expired o.ttl t.now
    then (some key_not_found, clean_value t.config.object_hash into.typo (decoded o into))
    else if is_mismatch into.typo o.typo
    then (some wrong_type, decoded o into)
    else (none, decoded o into)

module _ {kv : Kv} where
  -- A lookup that does not clear expired objects leaves the transaction as it was.
  pub get_txn_object-unchanged :
      (key : Bytes) (into : Object) (t : Txn kv) → (get_txn_object key into false t).1 ≡ t
  unfolding get_txn_object examine drop_expired get
  get_txn_object-unchanged key into t = ground arith

  examine-encoded :
      (key : Bytes) (into o : Object) (t : Txn kv)
      → IsEncodable o
      → examine key (object_encode o) into false t ≡ (answer t into (present o), t)
  unfolding examine drop_expired
  examine-encoded key into o t h =
      rw (object_decode-object_encode o into h) (unfold decoded in ground arith)

  -- A lookup that does not clear, of a key below the size limit that holds nothing or an encoded
  -- object, leaves the transaction as it was and answers by the content: not found where it is
  -- absent or expired, a type error where it has another type than the one asked for, and its object
  -- otherwise.
  pub get_txn_object-answer :
      (key : Bytes) (into : Object) (c : Content) (t : Txn kv)
      → length key < max_key_size
      → Stored t key c
      → get_txn_object key into false t ≡ (answer t into c, t)
  unfolding get_txn_object get
  get_txn_object-answer key into absent t hk h = ground arith
  get_txn_object-answer key into (present o) t hk (h, e) =
      ground (arith, examine-encoded key into o t e)

-- The object of the key has not expired.
abbrev pub IsLive : ℤ → Content → Type 0
IsLive now absent = Unit
IsLive now (present o) = is_expired o.ttl now ≡ false

module _ {kv : Kv} where
  examine-live :
      (key : Bytes) (into o : Object) (clear : Bool) (t : Txn kv)
      → IsEncodable o
      → is_expired o.ttl t.now ≡ false
      → examine key (object_encode o) into clear t ≡ (answer t into (present o), t)
  unfolding examine
  examine-live key into o clear t h l =
      rw (object_decode-object_encode o into h) (unfold decoded in ground (arith, l))

  -- A key that holds no expired object is looked up alike with and without clearing.
  pub get_txn_object-live :
      (key : Bytes) (into : Object) (clear : Bool) (c : Content) (t : Txn kv)
      → length key < max_key_size
      → Stored t key c
      → IsLive t.now c
      → get_txn_object key into clear t ≡ (answer t into c, t)
  unfolding get_txn_object get
  get_txn_object-live key into clear absent t hk h l = ground arith
  get_txn_object-live key into clear (present o) t hk (h, e) l =
      ground (arith, examine-live key into o clear t e l)
