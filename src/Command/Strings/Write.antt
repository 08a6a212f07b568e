-- ===== src/Command/Strings/Write.antt =====
-- command/string.go: APPEND, GETSET, SETNX, MSET, MSETNX, SETEX and PSETEX.
pub mod Laws
pub mod Get
use mathlib.Core.List.{reverse}
use lancelot.Base.{
  ℕ, ◌+◌, ◌*◌, ◌/◌, ◌≡◌, Bool, true, false, not, ◌&&◌, ◌||◌, Option, none, some, List, [], ◌∷◌,
  ◌++◌, if◌then◌else◌, Bytes, codes, length, bytes_eq,
}
use lancelot.Base.Int.{ℤ, pos, ◌+ℤ◌, ◌-ℤ◌, leb_ℤ, ltb_ℤ, wrap_int64, pos_part}
use lancelot.Base.Decimal.{parse_int}
use lancelot.Store.Kv.{Kv}
use lancelot.Store.Error.{Error, Result, ok, err, check_failed, not_integer, invalid_expire}
use lancelot.Store.Txn.{Txn, Exec, continue, put, del, ◌>>=◌, ◌>>◌, pure, raise}
use lancelot.Command.Object.{Object, bytes_of, object_key, ttl_key, string_type}
use lancelot.Command.Access.{
  new_object, with_object, set_txn_object, when, Change, no_change, plus_count,
}
use lancelot.Command.Strings.Counter.{is_zero}
use lancelot.Command.Reply.{
  Reply, simple_int, bulk, null, failure, slice_reply, ok_reply, Handler, set_error, set_wrong_args,
  respond,
}

-- The `check` of setString.
pub data Check : Type 0 where
  no_check check_not_exist check_exist : Check

-- TTLSensitive of command/generic.go; `draw n` stands for rand.Int63n(n).
unfoldable pub ttl_sensitive : (ℤ → ℤ) → ℤ → ℤ → ℤ → Bool
unfolding wrap_int64
ttl_sensitive draw new old sensitive =
    let closer = ltb_ℤ new old in
    let delta = if closer then wrap_int64 (old -ℤ new) else wrap_int64 (new -ℤ old) in
    let s = pos (pos_part (if closer then new else old) / 1000 / 100) in
    let sensitive' = if is_zero sensitive then s else sensitive in
    let margin = wrap_int64 (pos (pos_part sensitive' * 1000)) in
    if ltb_ℤ sensitive (pos 0)
    then true
    else if leb_ℤ new (pos 0) || leb_ℤ old (pos 0)
    then true
    else if is_zero sensitive'
    then true
    else leb_ℤ (wrap_int64 (margin +ℤ draw margin)) delta

-- The pairs of MSET and MSETNX; `none` for an odd number of arguments.
abbrev pub pairs : List Bytes → Option (List (Bytes × Bytes))
pairs [] = some []
pairs (k ∷ []) = none
pairs (k ∷ v ∷ rest) = elim (pairs rest) [ none ↦ none | some ps ↦ some ((k, v) ∷ ps) ]

-- The `exists` map of MSetNXHandle.
abbrev pub seen : Bytes → List Bytes → Bool
seen k [] = false
seen k (j ∷ js) = bytes_eq j k || seen k js

module _ {kv : Kv} where
  -- The object is stored with the transaction's timestamp.
  unfoldable pub store_object : Bytes → Change → Object → Exec kv (Unit {0})
  store_object key create o t = set_txn_object key (record o { timestamp = t.timestamp }) create t

  -- The value that AppendHandle stores, and its length.
  unfoldable pub append_value : Bytes → Change → Bytes → Object → Exec kv (Reply kv.Fault)
  append_value key create value o =
      store_object key create (record o { value = some value })
      >> pure (simple_int (pos (length value)))

  -- AppendHandle
  unfoldable pub append_handle : List Bytes → Handler kv
  unfolding new_object respond set_wrong_args append_value store_object
  append_handle (key ∷ value ∷ []) t =
      let o = new_object t string_type key in
      respond
        (with_object (object_key o) o true (λ o'. append_value (object_key o) plus_count value o')
          (λ o'. append_value (object_key o) no_change (bytes_of o'.value ++ value) o'))
        t
  append_handle _ t = set_wrong_args (codes "append") t

  -- GetSetHandle; the old expiry key goes, and the old expiry stays in the object.
  unfoldable pub getset_handle : List Bytes → Handler kv
  unfolding new_object respond set_wrong_args store_object
  getset_handle (key ∷ value ∷ []) t =
      let o = new_object t string_type key in
      respond
        (with_object (object_key o) o true
          (λ o'.
            store_object (object_key o) plus_count (record o' { value = some value }) >> pure null)
          (λ o'.
            when (ltb_ℤ (pos 0) o'.ttl) (del (bytes_of (ttl_key o')))
            >> store_object (object_key o) no_change (record o' { value = some value })
            >> pure (slice_reply o'.value)))
        t
  getset_handle _ t = set_wrong_args (codes "getset") t

module _ {kv : Kv} (draw : ℤ → ℤ) where
  -- setString, once the old object is known and the check has passed.
  unfoldable pub store_string : Bytes → Bytes → ℤ → Change → Object → Exec kv (Unit {0})
  store_string key value expire create o t =
      let sensitive =
        is_zero expire
        || is_zero o.ttl
        || ttl_sensitive draw (wrap_int64 (o.ttl -ℤ t.now)) (wrap_int64 (expire -ℤ t.now))
            t.config.ttl_sensitive in
      let o' : Object = record o { value = some value; timestamp = t.timestamp } in
      let expiring = ltb_ℤ (pos 0) expire && sensitive in
      let o'' : Object = if expiring then record o' { ttl = expire } else o' in
      (when (ltb_ℤ (pos 0) o.ttl && sensitive) (del (bytes_of (ttl_key o)))
          >> (when expiring (put (bytes_of (ttl_key o'')) (1 ∷ []))
              >> set_txn_object key o'' create))
        t

  unfoldable pub store_if_missing : Bytes → Bytes → ℤ → Check → Object → Exec kv (Unit {0})
  store_if_missing key value expire check_exist o = raise check_failed
  store_if_missing key value expire _ o = store_string key value expire plus_count o

  unfoldable pub store_if_found : Bytes → Bytes → ℤ → Check → Object → Exec kv (Unit {0})
  store_if_found key value expire check_not_exist o = raise check_failed
  store_if_found key value expire _ o = store_string key value expire no_change o

  -- setString
  unfoldable pub set_string : Bytes → Bytes → ℤ → Check → Exec kv (Unit {0})
  unfolding new_object store_if_missing store_if_found
  set_string key value expire check t =
      let o = new_object t string_type key in
      with_object (object_key o) o true (store_if_missing (object_key o) value expire check)
        (store_if_found (object_key o) value expire check) t

  -- SetNXHandle
  unfoldable pub setnx_handle : List Bytes → Handler kv
  unfolding set_error set_wrong_args
  setnx_handle (key ∷ value ∷ []) t =
      let (r, t') = set_string key value (pos 0) check_not_exist t in
      elim r [
        | ok _ ↦ (simple_int (pos 1), t')
        | err check_failed ↦ (simple_int (pos 0), t')
        | err e ↦ set_error e t'
      ]
  setnx_handle _ t = set_wrong_args (codes "setnx") t

  -- The loop of MSetHandle.
  unfoldable pub mset_loop : List (Bytes × Bytes) → Exec kv (Unit {0})
  mset_loop [] = pure tt
  mset_loop ((k, v) ∷ ps) = set_string k v (pos 0) no_check >> mset_loop ps

  -- MSetHandle
  unfoldable pub mset_handle : List Bytes → Handler kv
  unfolding mset_loop respond set_wrong_args
  mset_handle [] t = set_wrong_args (codes "mset") t
  mset_handle args t = elim (pairs args) [
    | none ↦ set_wrong_args (codes "mset") t
    | some ps ↦ respond (mset_loop ps >> pure (ok_reply kv.Fault)) t
  ]

  -- The loop of MSetNXHandle, from the last pair to the first; a key that came is passed over.
  unfoldable pub msetnx_loop : List (Bytes × Bytes) → List Bytes → Exec kv (Unit {0})
  msetnx_loop [] exists = pure tt
  msetnx_loop ((k, v) ∷ ps) exists =
      let skip = msetnx_loop ps exists in
      let set_it = set_string k v (pos 0) check_not_exist >> msetnx_loop ps (k ∷ exists) in
      if seen k exists then skip else set_it

  -- MSetNXHandle; where a key is there, the transaction is marked to be rolled back.
  unfoldable pub msetnx_handle : List Bytes → Handler kv
  unfolding msetnx_loop set_error set_wrong_args
  msetnx_handle [] t = set_wrong_args (codes "msetnx") t
  msetnx_handle args t = elim (pairs args) [
    | none ↦ set_wrong_args (codes "msetnx") t
    | some ps ↦
        (let (r, t') = msetnx_loop (reverse ps) [] t in
          elim r [
            | ok _ ↦ (simple_int (pos 1), t')
            | err check_failed ↦ (simple_int (pos 0), record t' { error = some check_failed })
            | err e ↦ set_error e t'
          ])
  ]

  -- setExpireHandle
  unfoldable pub set_expire_handle : List Bytes → ℕ → Handler kv
  unfolding respond set_error set_wrong_args
  set_expire_handle (key ∷ seconds ∷ value ∷ []) unit t = elim (parse_int seconds) [
    | none ↦ set_error not_integer t
    | some n ↦
        if leb_ℤ n (pos 0)
        then set_error (invalid_expire (codes "setex")) t
        else respond
            (set_string key value (wrap_int64 (t.now +ℤ wrap_int64 (pos (pos_part n * unit))))
                no_check
              >> pure (ok_reply kv.Fault))
            t
  ]
  set_expire_handle _ unit t = set_wrong_args (codes "setex") t

  -- SetExHandle
  unfoldable pub setex_handle : List Bytes → Handler kv
  unfolding set_expire_handle
  setex_handle args = set_expire_handle args 1000

  -- PSetExHandle
  unfoldable pub psetex_handle : List Bytes → Handler kv
  unfolding set_expire_handle set_wrong_args
  psetex_handle (key ∷ ms ∷ value ∷ []) t = set_expire_handle (key ∷ ms ∷ value ∷ []) 1 t
  psetex_handle _ t = set_wrong_args (codes "psetex") t
