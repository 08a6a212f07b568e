-- ===== src/Command/Count/Laws.antt =====
-- What reading and writing a count does to a transaction.
use lancelot.Base.{ℕ, ◌≡◌, Bool, Bytes, arith, get_or}
use lancelot.Store.Kv.{Kv, KvLaws}
use lancelot.Store.Error.{ok}
use lancelot.Store.Txn.{Txn, get}
use lancelot.Store.Txn.Frame.{Touches, Touches-put}
use lancelot.Store.Txn.Laws.{SameSession, put-SameSession}
use lancelot.Command.Object.{Slice, get_key_bytes, count_prefix}
use lancelot.Command.Count.{Count, new_count, get_count, set_count, decode_count, encode_count}

module _ {kv : Kv} where
  pub get_count-unchanged :
      (user db hash part : ℕ) (key : Bytes) (v : Slice) (t : Txn kv)
      → (get_count user db hash part key v t).1 ≡ t
  unfolding get_count get
  get_count-unchanged user db hash part key v t = ground arith

  pub get_count-key :
      (user db hash part : ℕ) (key : Bytes) (v : Slice) (t : Txn kv) (b : Bool) (c : Count)
      → (get_count user db hash part key v t).0 ≡ ok (b, c)
      → get_or c.key 0 0 ≡ count_prefix
  unfolding get_count new_count get decode_count get_key_bytes
  get_count-key user db hash part key v t b c h = ground arith

  pub set_count-SameSession : (c : Count) (t : Txn kv) → SameSession t (set_count c t).1
  unfolding set_count
  set_count-SameSession c t = put-SameSession c.key _ t

module _ {kv : Kv} (laws : KvLaws kv) {Q : Bytes → Type 0} where
  pub set_count-Touches : (c : Count) → Q c.key → Touches {kv = kv} Q (set_count c)
  unfolding set_count
  set_count-Touches c q =
      let at = λ (t : Txn kv).
        Touches-put laws {Q = Q} c.key (encode_count (record c { timestamp = t.timestamp })) q in
      record { session = λ t. (at t).session t; others = λ t. (at t).others t }
