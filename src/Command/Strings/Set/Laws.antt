-- ===== src/Command/Strings/Set/Laws.antt =====
-- What SET stores at a key that holds an object.
use lancelot.Base.{
  ◌≡◌, ◌≢◌, refl, sym, ap, ◌∙◌, subst, true, false, not, ◌&&◌, some, [], ◌∷◌, inl, inr, Bytes,
  arith, if◌then◌else◌,
}
use lancelot.Base.Int.{ℤ, pos, ltb_ℤ}
use lancelot.Store.Kv.{Kv, KvLaws, found}
use lancelot.Store.Error.{ok}
use lancelot.Store.Txn.{Txn, put, del}
use lancelot.Store.Txn.Laws.{SameSession, put-ok, del-SameSession}
use lancelot.Command.Object.{
  Object, Slice, bytes_of, object_key, object_encode, ttl_key, string_type,
}
use lancelot.Command.Access.{Change, new_object, when, no_change}
use lancelot.Command.Access.Writes.{set_txn_object-ok, set_txn_object-Touches}
use lancelot.Command.Reply.{Reply, slice_reply, ok_reply}
use lancelot.Command.Generic.Laws.{object_key-data, live_ttl_key}
use lancelot.Command.Strings.Write.{check_not_exist}
use lancelot.Command.Strings.Set.{ExpireOption, eq_int, kept_option, store_set, set_found}

-- A string with the value and the expiry.
abbrev pub set_object : {kv : Kv} → Bytes → Bytes → ℤ → Txn kv → Object
set_object arg value expire t = record (new_object t string_type arg) {
  value = some value;
  ttl = expire;
  timestamp = t.timestamp;
}

-- The expiry that SET gives to an object that is there: its own with KEEPTTL, if it has one, and
-- otherwise that of the options.
abbrev pub expiry_after : ExpireOption → Object → ℤ
expiry_after opt o = if opt.keep_ttl && ltb_ℤ (pos 0) o.ttl then o.ttl else opt.expire

module _ {kv : Kv} (laws : KvLaws kv) where
  store_set-ok :
      (arg value : Bytes) (opt : ExpireOption) (create : Change) (old : Slice) (t : Txn kv)
      (r : Reply kv.Fault)
      → create.delete ≡ false
      → (store_set arg value opt create old t).0 ≡ ok r
      → (r ≡ (if opt.get then slice_reply old else ok_reply kv.Fault))
        × (kv.get
              (store_set arg value opt create old t).1.store
              (object_key (set_object arg value opt.expire t))
            ≡ found (object_encode (set_object arg value opt.expire t)))
  unfolding store_set
  store_set-ok arg value opt create old t r c h =
      let o = set_object arg value opt.expire t in
      let entry = bytes_of (ttl_key o) in
      let first = when (not opt.keep_ttl && ltb_ℤ (pos 0) opt.expire) (put entry (1 ∷ [])) t in
      let key_data = object_key-data o in
      ground (
        arith,
        set_txn_object-ok laws (object_key o) o create first.1
            (λ q. absurd (ground (arith, q, key_data))),
      )

  store_set-entry :
      (arg value : Bytes) (opt : ExpireOption) (create : Change) (old : Slice) (t : Txn kv)
      (r : Reply kv.Fault)
      → opt.keep_ttl ≡ false
      → ltb_ℤ (pos 0) opt.expire ≡ true
      → (store_set arg value opt create old t).0 ≡ ok r
      → kv.get
          (store_set arg value opt create old t).1.store
          (bytes_of (ttl_key (set_object arg value opt.expire t)))
        ≡ found (1 ∷ [])
  unfolding store_set
  store_set-entry arg value opt create old t r k e h =
      let o = set_object arg value opt.expire t in
      let entry = bytes_of (ttl_key o) in
      let first = put entry (1 ∷ []) t in
      let key_data = object_key-data o in
      let entry_ttl = live_ttl_key o e in
      ground (
        arith,
        k,
        e,
        h,
        put-ok laws entry (1 ∷ []) t,
        (set_txn_object-Touches laws (object_key o) o create).others first.1 entry (λ q. elim q [
          | inl p ↦ absurd (ground (arith, p, key_data, entry_ttl))
          | inr p ↦ absurd (ground (arith, p, entry_ttl))
        ]),
      )

  set_object-SameSession :
      (arg value : Bytes) (expire : ℤ) (t u : Txn kv)
      → SameSession t u
      → set_object arg value expire u ≡ set_object arg value expire t
  unfolding new_object
  set_object-SameSession arg value expire t u h =
      ap (λ (x : Txn kv). set_object arg value expire x) h

  -- The transaction in which SET at an object goes on to store.
  cleared : ExpireOption → Object → Txn kv → Txn kv
  cleared opt o t =
      (when (ltb_ℤ (pos 0) o.ttl && not (kept_option opt o).keep_ttl) (del (bytes_of (ttl_key o)))
        t).1

  cleared-SameSession :
      (opt : ExpireOption) (o : Object) (t : Txn kv) → SameSession t (cleared opt o t)
  unfolding cleared
  cleared-SameSession opt o t = ground (arith, del-SameSession (bytes_of (ttl_key o)) t)

  set_found-stores :
      (arg value : Bytes) (opt : ExpireOption) (o : Object) (t : Txn kv) (r : Reply kv.Fault)
      → opt.check ≢ check_not_exist
      → (set_found arg value opt o t).0 ≡ ok r
      → set_found arg value opt o t
        ≡ store_set arg value (kept_option opt o) no_change o.value (cleared opt o t)
  unfolding set_found cleared
  set_found-stores arg value opt o t r n h = ground arith

  -- SET at a key with an object, without NX: if it succeeds, the reply is OK, or the old value with
  -- GET, and the key holds a string with the value. Its expiry is the old one where KEEPTTL is given
  -- and there is one, and otherwise that of the options.
  pub set_found-ok :
      (arg value : Bytes) (opt : ExpireOption) (o : Object) (t : Txn kv) (r : Reply kv.Fault)
      → opt.check ≢ check_not_exist
      → (set_found arg value opt o t).0 ≡ ok r
      → (r ≡ (if opt.get then slice_reply o.value else ok_reply kv.Fault))
        × (kv.get
              (set_found arg value opt o t).1.store
              (object_key (set_object arg value (expiry_after opt o) t))
            ≡ found (object_encode (set_object arg value (expiry_after opt o) t)))
  unfolding kept_option
  set_found-ok arg value opt o t r n h =
      let u = cleared opt o t in
      let same = set_found-stores arg value opt o t r n h in
      let done =
        store_set-ok arg value (kept_option opt o) no_change o.value u r refl
          (ap (λ x. x.0) (sym same) ∙ h) in
      let x =
        set_object-SameSession arg value (expiry_after opt o) t u (cleared-SameSession opt o t) in
      (
        done.0,
        subst
            (λ y.
              kv.get (set_found arg value opt o t).1.store (object_key y) ≡ found (object_encode y))
            x
            (ap (λ y. kv.get y.1.store (object_key (set_object arg value (expiry_after opt o) u)))
                same
              ∙ done.1),
      )

  -- SET at a key with an object, without NX: if it succeeds, and the expiry that it leaves is a time
  -- other than the old expiry, the entry of that expiry for the collector is there.
  pub set_found-entry :
      (arg value : Bytes) (opt : ExpireOption) (o : Object) (t : Txn kv) (r : Reply kv.Fault)
      → opt.check ≢ check_not_exist
      → ltb_ℤ (pos 0) (expiry_after opt o) ≡ true
      → eq_int (expiry_after opt o) o.ttl ≡ false
      → (set_found arg value opt o t).0 ≡ ok r
      → kv.get
          (set_found arg value opt o t).1.store
          (bytes_of (ttl_key (set_object arg value (expiry_after opt o) t)))
        ≡ found (1 ∷ [])
  unfolding kept_option
  set_found-entry arg value opt o t r n e d h =
      let u = cleared opt o t in
      let same = set_found-stores arg value opt o t r n h in
      let done =
        store_set-entry arg value (kept_option opt o) no_change o.value u r d e
          (ap (λ x. x.0) (sym same) ∙ h) in
      let x =
        set_object-SameSession arg value (expiry_after opt o) t u (cleared-SameSession opt o t) in
      subst
        (λ y. kv.get (set_found arg value opt o t).1.store (bytes_of (ttl_key y)) ≡ found (1 ∷ []))
        x
        (ap
            (λ y.
              kv.get y.1.store (bytes_of (ttl_key (set_object arg value (expiry_after opt o) u))))
            same
          ∙ done)
