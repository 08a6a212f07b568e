-- ===== src/Command/Generic/Expire.antt =====
-- command/generic.go: EXPIRE, EXPIREAT, PEXPIRE, PEXPIREAT, PERSIST and the commands that read an expiry.
use lancelot.Base.{
  ℕ, suc, ◌*◌, ◌/◌, ◌%◌, Bool, true, false, ◌&&◌, ◌||◌, not, none, some, List, [], ◌∷◌,
  if◌then◌else◌, Bytes, codes,
}
use lancelot.Base.Int.{ℤ, pos, negsuc, neg_int, ◌+ℤ◌, ◌-ℤ◌, leb_ℤ, ltb_ℤ, wrap_int64, max_int64}
use lancelot.Base.Decimal.{parse_int}
use lancelot.Store.Kv.{Kv}
use lancelot.Store.Error.{ok, err, not_integer, invalid_expire, key_is_locked}
use lancelot.Store.Txn.{Exec, put, del, ◌>>=◌, ◌>>◌, pure, is_skip_conflict}
use lancelot.Command.Object.{
  Object, bytes_of, object_key, ttl_key, is_simple, encode_ttl_value, unknown_type,
}
use lancelot.Command.Access.{
  new_object, with_object, delete_key, set_txn_object, minus_count, no_change,
}
use lancelot.Command.Reply.{Reply, simple_int, Handler, set_error, set_wrong_args, respond}
use lancelot.Command.Strings.Counter.{is_zero}
use lancelot.Command.Strings.Write.{ttl_sensitive}
use lancelot.Command.Generic.Options.{CheckOption, expire_options}

-- Go's division and remainder of signed integers, by a positive number.
abbrev pub quot : ℤ → ℕ → ℤ
quot (pos a) n = pos (a / n)
quot (negsuc a) n = neg_int (pos (suc a / n))

abbrev pub rem : ℤ → ℕ → ℤ
rem (pos a) n = pos (a % n)
rem (negsuc a) n = neg_int (pos (suc a % n))

-- `seconds * 1000` in an int64
abbrev pub millis : ℤ → ℤ
millis (pos n) = wrap_int64 (pos (n * 1000))
millis (negsuc n) = wrap_int64 (neg_int (pos (suc n * 1000)))

-- The guard of EXPIRE and EXPIREAT.
abbrev pub bad_seconds : ℤ → Bool
bad_seconds n = leb_ℤ (pos 9223372036854775) n || leb_ℤ n (negsuc 9223372036854774)

-- The value of the expiry entry of an object.
unfoldable pub ttl_entry : Object → Bytes
ttl_entry o = if is_simple o then 1 ∷ [] else encode_ttl_value o.typo (bytes_of o.value)

module _ {kv : Kv} where
  -- expire with clearTTL
  unfoldable pub persist_object : Bytes → Object → Exec kv ℤ
  persist_object key o t =
      if is_zero o.ttl
      then (ok (pos 0), t)
      else (del (bytes_of (ttl_key o))
            >> (set_txn_object key (record o { ttl = pos 0; timestamp = t.timestamp }) no_change
                >> pure (pos 1)))
          t

  -- The end of expire: the new expiry entry and the object.
  unfoldable pub set_expiry : Bytes → ℤ → Object → Exec kv ℤ
  set_expiry key new o t =
      let o' : Object = record o { ttl = new; timestamp = t.timestamp } in
      (put (bytes_of (ttl_key o')) (ttl_entry o')
          >> (set_txn_object key o' no_change >> pure (pos 1)))
        t

  -- expire, once the object is known; `draw` is the random number of TTLSensitive.
  unfoldable pub expire_object : (ℤ → ℤ) → CheckOption → ℤ → Bytes → Object → Exec kv ℤ
  expire_object draw opt new key o t =
      if leb_ℤ new t.now
      then (delete_key key o t.now minus_count >> pure (pos 1)) t
      else if ltb_ℤ (pos 0) o.ttl
      then (if opt.nx || leb_ℤ o.ttl new && opt.lt || leb_ℤ new o.ttl && opt.gt
          then (ok (pos 0), t)
          else if not (
              ttl_sensitive draw (wrap_int64 (new -ℤ t.now)) (wrap_int64 (o.ttl -ℤ t.now))
                t.config.ttl_sensitive)
          then (ok (pos 1), t)
          else (del (bytes_of (ttl_key o)) >> set_expiry key new o) t)
      else if opt.xx || opt.gt
      then (ok (pos 0), t)
      else set_expiry key new o t

  -- expire
  unfoldable pub expire : (ℤ → ℤ) → Bytes → List Bytes → ℤ → Bool → Exec kv ℤ
  expire draw arg options new clear t =
      let o = new_object t unknown_type arg in
      elim (expire_options options) [
        | err e ↦ (err e, t)
        | ok opt ↦
            with_object (object_key o) o true (λ _. pure (pos 0))
              (λ o'.
                if clear
                then persist_object (object_key o) o'
                else expire_object draw opt new (object_key o) o')
              t
      ]

  -- expireHandle
  unfoldable pub expire_reply : Exec kv ℤ → Handler kv
  expire_reply m t =
      let (r, t') = m t in
      elim r [
        | ok n ↦ (simple_int n, t')
        | err key_is_locked ↦
            if is_skip_conflict t then (simple_int (pos 0), t') else set_error key_is_locked t'
        | err e ↦ set_error e t'
      ]

  -- PersistHandle
  unfoldable pub persist_handle : (ℤ → ℤ) → List Bytes → Handler kv
  persist_handle draw (key ∷ []) t = expire_reply (expire draw key [] (pos 0) true) t
  persist_handle draw _ t = set_wrong_args (codes "persist") t

  -- ExpireHandle
  unfoldable pub expire_handle : (ℤ → ℤ) → List Bytes → Handler kv
  expire_handle draw (key ∷ seconds ∷ options) t = elim (parse_int seconds) [
    | none ↦ set_error not_integer t
    | some n ↦
        if bad_seconds n
        then set_error (invalid_expire (codes "expire")) t
        else expire_reply (expire draw key options (wrap_int64 (t.now +ℤ millis n)) false) t
  ]
  expire_handle draw _ t = set_wrong_args (codes "expire") t

  -- ExpireAtHandle
  unfoldable pub expireat_handle : (ℤ → ℤ) → List Bytes → Handler kv
  expireat_handle draw (key ∷ seconds ∷ options) t = elim (parse_int seconds) [
    | none ↦ set_error not_integer t
    | some n ↦
        if bad_seconds n
        then set_error (invalid_expire (codes "expireat")) t
        else expire_reply (expire draw key options (millis n) false) t
  ]
  expireat_handle draw _ t = set_wrong_args (codes "expireat") t

  -- PExpireHandle
  unfoldable pub pexpire_handle : (ℤ → ℤ) → List Bytes → Handler kv
  pexpire_handle draw (key ∷ ms ∷ options) t = elim (parse_int ms) [
    | none ↦ set_error not_integer t
    | some n ↦
        if leb_ℤ (wrap_int64 (max_int64 -ℤ t.now)) n
        then set_error (invalid_expire (codes "pexpire")) t
        else expire_reply (expire draw key options (wrap_int64 (t.now +ℤ n)) false) t
  ]
  pexpire_handle draw _ t = set_wrong_args (codes "pexpire") t

  -- PExpireAtHandle
  unfoldable pub pexpireat_handle : (ℤ → ℤ) → List Bytes → Handler kv
  pexpireat_handle draw (key ∷ ms ∷ options) t = elim (parse_int ms) [
    | none ↦ set_error not_integer t
    | some n ↦ expire_reply (expire draw key options n false) t
  ]
  pexpireat_handle draw _ t = set_wrong_args (codes "pexpireat") t

  -- Command.ttl
  unfoldable pub ttl_of : Bytes → Exec kv ℤ
  ttl_of arg t =
      let o = new_object t unknown_type arg in
      with_object (object_key o) o false (λ _. pure (negsuc 1))
        (λ o'. pure (if is_zero o'.ttl then negsuc 0 else o'.ttl)) t

  -- TTLHandle, which rounds to the nearest second
  unfoldable pub ttl_handle : List Bytes → Handler kv
  ttl_handle (key ∷ []) t =
      respond
        (ttl_of key >>= λ ttl. pure (
          simple_int (
            let val = wrap_int64 (ttl -ℤ t.now) in
            if ltb_ℤ ttl (pos 0)
            then ttl
            else if ltb_ℤ (rem val 1000) (pos 500)
            then quot val 1000
            else wrap_int64 (quot val 1000 +ℤ pos 1))))
        t
  ttl_handle _ t = set_wrong_args (codes "ttl") t

  -- PTTLHandle
  unfoldable pub pttl_handle : List Bytes → Handler kv
  pttl_handle (key ∷ []) t =
      respond
        (ttl_of key >>= λ ttl.
          pure (simple_int (if ltb_ℤ ttl (pos 0) then ttl else wrap_int64 (ttl -ℤ t.now))))
        t
  pttl_handle _ t = set_wrong_args (codes "pttl") t

  -- The reading of an object's expiry by EXPIRETIME and PEXPIRETIME.
  unfoldable pub expiry_by : (ℤ → ℤ) → Bytes → Exec kv (Reply kv.Fault)
  expiry_by f arg t =
      let o = new_object t unknown_type arg in
      with_object (object_key o) o false (λ _. pure (simple_int (negsuc 1)))
        (λ o'. pure (simple_int (if is_zero o'.ttl then negsuc 0 else f o'.ttl))) t

  -- ExpireTimeHandle
  unfoldable pub expiretime_handle : List Bytes → Handler kv
  expiretime_handle (key ∷ []) t = respond (expiry_by (λ ttl. quot ttl 1000) key) t
  expiretime_handle _ t = set_wrong_args (codes "expiretime") t

  -- PExpireTimeHandle
  unfoldable pub pexpiretime_handle : List Bytes → Handler kv
  pexpiretime_handle (key ∷ []) t = respond (expiry_by (λ ttl. ttl) key) t
  pexpiretime_handle _ t = set_wrong_args (codes "pexpiretime") t
