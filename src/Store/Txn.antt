-- ===== src/Store/Txn.antt =====
-- store/txn.go: reads and writes of a transaction, with their size limits and their locks.
pub mod Laws
pub mod Frame
use lancelot.Base.{
  ℕ, zero, suc, ◌+◌, ◌*◌, ◌≤◌, ◌<◌, ◌≡◌, Bool, true, false, not, ◌&&◌, ◌||◌, Option, none, some,
  List, [], ◌∷◌, arith, ltb, leb, if◌then◌else◌, Bytes, length, codes, has_prefix, bytes_lt,
}
use lancelot.Base.Int.{ℤ}
use lancelot.Store.Kv.{Kv, Found, found, missing, failed, Cursor, ended, broken, item}
use lancelot.Store.Error.{
  Error, Result, ok, err, key_not_found, key_is_locked, exceed_max_size, fault, reach_limit,
}

abbrev pub max_key_size : ℕ
max_key_size = 4 * 1024

abbrev pub max_value_size : ℕ
max_value_size = 5 * 1024 * 1024

-- The settings of `config.Config` that transactions and commands read.
pub record Config : Type 0 where
  pub object_hash : ℕ
  pub db_size_hash : ℕ
  pub disable_count : Bool
  pub blist : Bool
  pub ttl_sensitive : ℤ
  pub scan_max_count : ℕ
  pub skip_conflict : Bool
  pub pessimistic : Bool
  pub set_operation_get : Bool

pub record Txn (kv : Kv) : Type 0 where
  pub store : kv.Store
  pub error : Option (Error kv.Fault)
  pub timestamp : ℕ
  pub now : ℤ
  pub user_id : ℕ
  pub db_id : ℕ
  pub config : Config

-- A function that works on a transaction and may return an error; what it wrote stays written.
abbrev pub Exec {ℓ} : Kv → Type ℓ → Type ℓ
Exec kv A = Txn kv → Result kv.Fault A × Txn kv

abbrev pub continue {ℓ κ} :
    {kv : Kv} {A : Type ℓ} {B : Type κ} → Result kv.Fault A → (A → Exec kv B) → Exec kv B
continue (ok a) f t = f a t
continue (err e) f t = (err e, t)

infixl 5 ◌>>=◌ ◌>>◌
abbrev pub ◌>>=◌ {ℓ κ} :
    {kv : Kv} {A : Type ℓ} {B : Type κ} → Exec kv A → (A → Exec kv B) → Exec kv B
◌>>=◌ {kv} m f t = let (r, t') = m t in continue {kv = kv} r f t'

abbrev pub ◌>>◌ {ℓ} : {kv : Kv} {B : Type ℓ} → Exec kv (Unit {0}) → Exec kv B → Exec kv B
◌>>◌ {kv} m k = ◌>>=◌ {kv = kv} m (λ _. k)

-- returnErr
unfoldable pub return_err : (kv : Kv) → kv.Fault → Error kv.Fault
return_err kv f =
    if kv.is_write_conflict f
    then key_is_locked
    else if kv.is_lock_no_wait f || kv.is_lock_timeout f
    then key_is_locked
    else if has_prefix (kv.message f) (codes "2PC prewrite lockedKeys")
    then key_is_locked
    else fault f

abbrev pub read : {F : Type 0} → Found F → Result F Bytes
read (found v) = ok v
read missing = err key_not_found
read (failed f) = err (fault f)

abbrev pub written : (kv : Kv) → Option kv.Fault → Result kv.Fault (Unit {0})
written kv none = ok tt
written kv (some f) = err (return_err kv f)

module _ {kv : Kv} where
  abbrev pub pure {ℓ} : {A : Type ℓ} → A → Exec kv A
  pure a t = (ok a, t)

  abbrev pub raise {ℓ} : {A : Type ℓ} → Error kv.Fault → Exec kv A
  raise e t = (err e, t)

  -- IsSkipConflict
  abbrev pub is_skip_conflict : Txn kv → Bool
  is_skip_conflict t = t.config.skip_conflict

  -- IsPessimistic
  abbrev pub is_pessimistic : Txn kv → Bool
  is_pessimistic t = t.config.skip_conflict || t.config.pessimistic

  -- Get
  unfoldable pub get : Bytes → Exec kv Bytes
  get key t =
      if leb max_key_size (length key)
      then (err exceed_max_size, t)
      else (read (kv.get t.store key), t)

  -- The lock that Put and Del take in a pessimistic transaction.
  unfoldable pub lock_first : Bytes → Exec kv (Unit {0})
  lock_first key t =
      if is_pessimistic t
      then (let (e, s) = kv.lock t.store key in (written kv e, record t { store = s }))
      else (ok tt, t)

  unfoldable pub write : Bytes → Bytes → Exec kv (Unit {0})
  write key val t = let (e, s) = kv.put t.store key val in (written kv e, record t { store = s })

  unfoldable pub erase : Bytes → Exec kv (Unit {0})
  erase key t = let (e, s) = kv.delete t.store key in (written kv e, record t { store = s })

  -- Put
  unfoldable pub put : Bytes → Bytes → Exec kv (Unit {0})
  unfolding lock_first write
  put key val t =
      if leb max_key_size (length key)
      then (err exceed_max_size, t)
      else if leb max_value_size (length val)
      then (err exceed_max_size, t)
      else (lock_first key >> write key val) t

  -- Del
  unfoldable pub del : Bytes → Exec kv (Unit {0})
  unfolding lock_first erase
  del key t =
      if leb max_key_size (length key)
      then (err exceed_max_size, t)
      else (lock_first key >> erase key) t

  -- The loop of Iterator.DeleteUntil over the iterator's entries. The callback keeps a state, and
  -- answers false to stop.
  pub delete_until {ℓ} :
      {S : Type ℓ}
      → Cursor kv.Fault
      → Bytes
      → Bytes
      → ℕ
      → ℕ
      → (S → Bytes → Bytes → Bool × S)
      → S
      → Exec kv (S)
  delete_until ended start end limit count callback s t = (ok s, t)
  delete_until (broken f) start end limit count callback s t = (err (fault f), t)
  delete_until {S = S} (item key val rest) start end limit count callback s t =
      let again =
        λ (s' : S) (t' : Txn kv). delete_until rest start end limit (count + 1) callback s' t' in
      let (more, s') = callback s key val in
      if bytes_lt key start || not (bytes_lt key end)
      then (ok s, t)
      else if not more
      then (ok s', t)
      else (del key
            >> (λ t'. if leb 1 limit && leb limit (count + 1) then (ok s', t') else again s' t'))
          t
