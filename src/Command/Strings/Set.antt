-- ===== src/Command/Strings/Set.antt =====
-- command/string.go: the options of SET and GETEX, and these commands.
pub mod Laws
use lancelot.Base.{
  ℕ, ◌+◌, ◌*◌, ◌/◌, Bool, true, false, ◌&&◌, ◌||◌, not, Option, none, some, List, [], ◌∷◌,
  if◌then◌else◌, Bytes, codes, bytes_eq, to_lower,
}
use lancelot.Base.Int.{ℤ, pos, ◌+ℤ◌, leb_ℤ, ltb_ℤ, wrap_int64, pos_part}
use lancelot.Base.Decimal.{parse_int}
use lancelot.Store.Kv.{Kv}
use lancelot.Store.Error.{Error, Result, ok, err, syntax, wrong_args, not_integer, invalid_expire}
use lancelot.Store.Txn.{Txn, Exec, put, del, ◌>>=◌, ◌>>◌, pure, raise}
use lancelot.Command.Object.{Object, Slice, bytes_of, object_key, ttl_key, string_type}
use lancelot.Command.Access.{
  Change, new_object, with_object, set_txn_object, when, plus_count, no_change,
}
use lancelot.Command.Reply.{
  Reply, null, bulk, slice_reply, ok_reply, Handler, set_wrong_args, respond,
}
use lancelot.Command.Generic.Expire.{quot}
use lancelot.Command.Strings.Counter.{is_zero}
use lancelot.Command.Strings.Write.{Check, no_check, check_exist, check_not_exist}

-- ExpireOption
pub record ExpireOption : Type 0 where
  pub keep_ttl : Bool
  pub get : Bool
  pub expire : ℤ
  pub check : Check
  pub persist : Bool

abbrev pub no_options : ExpireOption
no_options = record {
  keep_ttl = false;
  get = false;
  expire = pos 0;
  check = no_check;
  persist = false;
}

-- The words of the switch in checkExpireOption; the first four take a number.
pub data Word : Type 0 where
  word_ex word_px word_exat word_pxat word_keepttl word_persist word_nx word_xx word_get
        word_other :
      Word

unfoldable pub word_of : Bytes → Word
word_of s =
    if bytes_eq s (codes "ex")
    then word_ex
    else if bytes_eq s (codes "px")
    then word_px
    else if bytes_eq s (codes "exat")
    then word_exat
    else if bytes_eq s (codes "pxat")
    then word_pxat
    else if bytes_eq s (codes "keepttl")
    then word_keepttl
    else if bytes_eq s (codes "persist")
    then word_persist
    else if bytes_eq s (codes "nx")
    then word_nx
    else if bytes_eq s (codes "xx")
    then word_xx
    else if bytes_eq s (codes "get")
    then word_get
    else word_other

-- `nowTime.Add(n * unit).UnixNano() / 1e6`, for a unit in nanoseconds
abbrev pub after_now : ℤ → ℕ → ℕ → ℤ
after_now now n unit =
    quot (wrap_int64 (wrap_int64 (pos (pos_part now * 1000000)) +ℤ pos (n * unit))) 1000000

-- The number of an option that takes one, as a time of expiry in milliseconds.
unfoldable pub timed_expire : {F : Type 0} → Bytes → ℤ → Word → Bytes → Result F ℤ
timed_expire cmd now word arg = elim (parse_int arg) [
  | none ↦ err not_integer
  | some n ↦ if leb_ℤ n (pos 0) then err (invalid_expire cmd) else elim word [
    | word_ex ↦
        if leb_ℤ (pos 9223372036) n
        then err (invalid_expire cmd)
        else ok (after_now now (pos_part n) 1000000000)
    | word_px ↦
        if leb_ℤ (pos 9223372036854) n
        then err (invalid_expire cmd)
        else ok (after_now now (pos_part n) 1000000)
    | word_exat ↦
        if leb_ℤ (pos 9223372036854) n
        then err (invalid_expire cmd)
        else ok (pos (pos_part n * 1000))
    | _ ↦ if leb_ℤ (pos 9223372036854775) n then err (invalid_expire cmd) else ok n
  ]
]

-- A word without a number. The variables of the units are new in each turn of the Go loop, so its
-- tests on them always pass.
unfoldable pub flag_option : {F : Type 0} → Bool → Word → ExpireOption → Result F ExpireOption
flag_option is_set word_keepttl o = if is_set then ok (record o { keep_ttl = true }) else err syntax
flag_option is_set word_persist o = if is_set then err syntax else ok (record o { persist = true })
flag_option is_set word_nx o =
    if is_set then ok (record o { check = check_not_exist }) else err syntax
flag_option is_set word_xx o = if is_set then ok (record o { check = check_exist }) else err syntax
flag_option is_set word_get o = if is_set then ok (record o { get = true }) else err syntax
flag_option is_set _ o = err syntax

abbrev pub is_timed : Word → Bool
is_timed word_ex = true
is_timed word_px = true
is_timed word_exat = true
is_timed word_pxat = true
is_timed _ = false

-- checkExpireOption, over the arguments that are left
unfoldable pub check_expire_option :
    {F : Type 0} → Bytes → Bool → ℤ → ExpireOption → List Bytes → Result F ExpireOption
check_expire_option cmd is_set now o [] = ok o
check_expire_option cmd is_set now o (a ∷ []) =
    if is_timed (word_of (to_lower a))
    then (if o.keep_ttl || o.persist then err syntax else err (wrong_args cmd))
    else flag_option is_set (word_of (to_lower a)) o
check_expire_option cmd is_set now o (a ∷ b ∷ rest) =
    let word = word_of (to_lower a) in
    elim (is_timed word) [
      | true ↦ elim (o.keep_ttl || o.persist) [
        | true ↦ err syntax
        | false ↦ elim (timed_expire cmd now word b) [
          | err e ↦ err e
          | ok at ↦ check_expire_option cmd is_set now (record o { expire = at }) rest
        ]
      ]
      | false ↦ elim (flag_option is_set word o) [
        | err e ↦ err e
        | ok o' ↦ check_expire_option cmd is_set now o' (b ∷ rest)
      ]
    ]

abbrev pub eq_int : ℤ → ℤ → Bool
eq_int a b = leb_ℤ a b && leb_ℤ b a

-- The options, once the old object is known: KEEPTTL keeps its expiry.
unfoldable pub kept_option : ExpireOption → Object → ExpireOption
kept_option opt o =
    let expire' = if opt.keep_ttl && ltb_ℤ (pos 0) o.ttl then o.ttl else opt.expire in
    record opt { expire = expire'; keep_ttl = eq_int expire' o.ttl }

module _ {kv : Kv} where
  -- The end of SetHandle; `old` is the value of the old object.
  unfoldable pub store_set :
      Bytes → Bytes → ExpireOption → Change → Slice → Exec kv (Reply kv.Fault)
  store_set arg value opt create old t =
      let o : Object = record (new_object t string_type arg) {
        value = some value;
        ttl = opt.expire;
        timestamp = t.timestamp;
      } in
      (when (not opt.keep_ttl && ltb_ℤ (pos 0) opt.expire) (put (bytes_of (ttl_key o)) (1 ∷ []))
          >> (set_txn_object (object_key o) o create
              >> pure (if opt.get then slice_reply old else ok_reply kv.Fault)))
        t

  -- checkSetOption for a key without an object
  unfoldable pub set_missing : Bytes → Bytes → ExpireOption → Object → Exec kv (Reply kv.Fault)
  set_missing arg value opt o = elim opt.check [
    | check_exist ↦ pure null
    | _ ↦ store_set arg value opt plus_count none
  ]

  -- checkSetOption for a key with an object
  unfoldable pub set_found : Bytes → Bytes → ExpireOption → Object → Exec kv (Reply kv.Fault)
  set_found arg value opt o = elim opt.check [
    | check_not_exist ↦ pure (if opt.get then slice_reply o.value else null)
    | _ ↦
        when (ltb_ℤ (pos 0) o.ttl && not (kept_option opt o).keep_ttl) (del (bytes_of (ttl_key o)))
        >> store_set arg value (kept_option opt o) no_change o.value
  ]

  -- SetHandle, with checkSetOption and checkExist
  unfoldable pub set_handle : List Bytes → Handler kv
  set_handle (arg ∷ value ∷ options) t =
      let o = new_object t string_type arg in
      respond
        (λ t'. elim (check_expire_option (codes "set") true t.now no_options options) [
          | err e ↦ (err e, t')
          | ok opt ↦
              with_object (object_key o) o false (set_missing arg value opt)
                (set_found arg value opt) t'
        ])
        t
  set_handle _ t = set_wrong_args (codes "set") t

  -- The end of GetExHandle: the expiry keys stay as they are.
  unfoldable pub getex_write : Bytes → Object → ℤ → Exec kv (Reply kv.Fault)
  getex_write key o ttl t =
      (set_txn_object key (record o { ttl = ttl; timestamp = t.timestamp }) no_change
          >> pure (slice_reply o.value))
        t

  -- GetExHandle, once the options are known
  unfoldable pub getex_store : Bytes → ExpireOption → Object → Exec kv (Reply kv.Fault)
  getex_store key opt o t =
      if opt.persist
      then (if is_zero o.ttl then (ok (slice_reply o.value), t) else getex_write key o (pos 0) t)
      else if ltb_ℤ (pos 0) opt.expire
      then (if eq_int opt.expire o.ttl
          then (ok (slice_reply o.value), t)
          else getex_write key o opt.expire t)
      else getex_write key o o.ttl t

  -- GetExHandle
  unfoldable pub getex_handle : List Bytes → Handler kv
  getex_handle (arg ∷ options) t =
      let o = new_object t string_type arg in
      respond
        (with_object (object_key o) o true (λ _. pure null)
          (λ o'. λ t'. elim (check_expire_option (codes "getex") false t.now no_options options) [
            | err e ↦ (err e, t')
            | ok opt ↦ getex_store (object_key o) opt o' t'
          ]))
        t
  getex_handle _ t = set_wrong_args (codes "getex") t
