-- ===== src/Command/Bits/Get.antt =====
-- GETBIT after SETBIT, in one transaction.
use lancelot.Base.{
  ℕ, subst, ◌<◌, ◌^◌, ◌≡◌, refl, sym, ap, ◌∙◌, true, false, Option, none, some, inl, inr, Bytes,
  arith, length, leb, if◌then◌else◌, ◌==◌, [], ◌∷◌,
}
use lancelot.Base.Int.{ℤ, pos}
use lancelot.Utils.Int.{nonnegative_int}
use lancelot.Store.Kv.{Kv, KvLaws, found, missing}
use lancelot.Store.Error.{Result, ok, Result-cases}
use lancelot.Store.Txn.{Txn, Exec, max_key_size, max_value_size}
use lancelot.Store.Txn.Laws.{SameSession}
use lancelot.Command.Object.{Object, bytes_of, object_encode, object_key, is_simple, string_type}
use lancelot.Command.Object.Codec.{IsEncodable, decoded}
use lancelot.Command.Access.{new_object, set_txn_object, Change, no_change, plus_count}
use lancelot.Command.Access.Reads.{Content, absent, present, IsLive}
use lancelot.Command.Access.Writes.{set_txn_object-ok, set_txn_object-Touches}
use lancelot.Command.Elements.Open.{
  Holds, HasObject, IsShortKey, opened, new_object-SameSession, with_object-present,
  with_object-absent, object_key-not_element,
}
use lancelot.Command.Reply.{Reply, simple_int, respond, reply_of, set_error}
use lancelot.Command.Bits.{set_bit, store_bit, change_bit, setbit_handle, getbit_handle}
use lancelot.Command.Bits.Laws.{string_bit, value_after, string_bit-set_bit}
use lancelot.Command.Bits.Read.{getbit-present}

-- The string of a key.
abbrev pub text_of : Content → Bytes
text_of absent = []
text_of (present p) = bytes_of p.value

abbrev start_change : Content → Change
start_change absent = plus_count
start_change (present p) = no_change

module _ {kv : Kv} where
  -- The object that SETBIT starts from.
  abbrev start_object : Txn kv → Bytes → Content → Object
  start_object t key absent = new_object t string_type key
  start_object t key (present p) = opened t string_type key p

  change_bit-eq :
      (key : Bytes) (k b : ℕ) (c : Content) (t : Txn kv)
      → IsShortKey t string_type key
      → Holds t string_type key c
      → change_bit key k b t
        ≡ store_bit
            (object_key (new_object t string_type key))
            (start_change c)
            (start_object t key c)
            (set_bit (text_of c) k b)
            t
  unfolding change_bit decoded
  change_bit-eq key k b absent t hk s =
      let o = new_object t string_type key in
      with_object-absent t string_type key true
        (λ o'. store_bit (object_key o) plus_count o' (set_bit [] k b))
        (λ o'. store_bit (object_key o) no_change o' (set_bit (bytes_of o'.value) k b)) hk s
  change_bit-eq key k b (present p) t hk s =
      let o = new_object t string_type key in
      with_object-present t string_type key p true
        (λ o'. store_bit (object_key o) plus_count o' (set_bit [] k b))
        (λ o'. store_bit (object_key o) no_change o' (set_bit (bytes_of o'.value) k b)) hk s

  setbit_handle-eq :
      (key at bit : Bytes) (k b : ℕ) (t : Txn kv)
      → nonnegative_int at ≡ some (pos k)
      → k < max_value_size
      → nonnegative_int bit ≡ some (pos b)
      → b < 2
      → setbit_handle (key ∷ at ∷ bit ∷ []) t ≡ respond (change_bit key k b) t
  unfolding setbit_handle respond
  setbit_handle-eq key at bit k b t a hk e hb =
      let low : leb max_value_size k ≡ false = ground (arith, hk) in
      let small : leb 2 b ≡ false = ground (arith, hb) in rw (setbit_handle, a, low, e, small) refl

  respond-int :
      (m : Exec kv (Reply kv.Fault)) (t : Txn kv) (r : ℤ)
      → (respond m t).0 ≡ simple_int r
      → ((m t).0 ≡ ok (simple_int r)) × ((respond m t).1 ≡ (m t).1)
  unfolding respond reply_of set_error
  respond-int m t r h = elim (Result-cases (m t).0) [
    | inl (v, e) ↦ ground (arith, h, e)
    | inr (x, e) ↦ absurd (ground (arith, h, e))
  ]

  store_bit-some :
      (key v : Bytes) (create : Change) (o : Object) (origin : ℕ) (t : Txn kv) (r : Reply kv.Fault)
      → (store_bit key create o (origin, some v) t).0 ≡ ok r
      → ((set_txn_object key (record o { value = some v }) create t).0 ≡ ok tt)
        × ((store_bit key create o (origin, some v) t).1
            ≡ (set_txn_object key (record o { value = some v }) create t).1)
  unfolding store_bit
  store_bit-some key v create o origin t r h =
      elim (Result-cases (set_txn_object key (record o { value = some v }) create t).0) [
        | inl (tt, e) ↦ (e, ground (arith, e))
        | inr (x, e) ↦ absurd (ground (arith, h, e))
      ]

  start_object-IsEncodable :
      (v key : Bytes) (c : Content) (t : Txn kv)
      → Holds t string_type key c
      → t.config.object_hash < 2 ^ 16
      → IsEncodable (record (start_object t key c) { value = some v })
  unfolding new_object is_simple decoded
  start_object-IsEncodable v key absent t s hh = record {
    ttl_range = ground arith;
    timestamp_range = omega arith;
    hash_range = ground (arith, hh);
    no_extra = λ e. refl;
    uuid = λ e. absurd (ground arith);
  }
  start_object-IsEncodable v key (present p) t ((_, e), _, i) hh = record {
    ttl_range = e.ttl_range;
    timestamp_range = e.timestamp_range;
    hash_range = e.hash_range;
    no_extra = λ q. ground arith;
    uuid = λ q. absurd (ground (arith, i));
  }

  start_object-IsLive :
      (v key : Bytes) (c : Content) (t : Txn kv)
      → Holds t string_type key c
      → IsLive t.now (present (record (start_object t key c) { value = some v }))
  unfolding new_object decoded
  start_object-IsLive v key absent t s = refl
  start_object-IsLive v key (present p) t (_, l, _) = l

  start_object-typo :
      (key : Bytes) (c : Content) (t : Txn kv)
      → Holds t string_type key c
      → (start_object t key c).typo ≡ string_type
  unfolding new_object decoded
  start_object-typo key absent t s = refl
  start_object-typo key (present p) t (_, _, i) = i

-- The object of a string key after its SETBIT.
record AfterBit {kv : Kv} (u : Txn kv) (key value : Bytes) : Type 0 where
  object : Object
  has : HasObject u string_type key object
  holds : bytes_of object.value ≡ value
  short : IsShortKey u string_type key

module _ {kv : Kv} (laws : KvLaws kv) where
  stored-HasObject :
      (v key : Bytes) (create : Change) (c : Content) (t : Txn kv)
      → Holds t string_type key c
      → t.config.object_hash < 2 ^ 16
      → create.delete ≡ false
      → (set_txn_object
          (object_key (new_object t string_type key))
          (record (start_object t key c) { value = some v })
          create
          t).0
        ≡ ok tt
      → HasObject
          (set_txn_object
            (object_key (new_object t string_type key))
            (record (start_object t key c) { value = some v })
            create
            t).1
          string_type
          key
          (record (start_object t key c) { value = some v })
  stored-HasObject v key create c t s hh kept done =
      let k = object_key (new_object t string_type key) in
      let o : Object = record (start_object t key c) { value = some v } in
      let u = (set_txn_object k o create t).1 in
      let session = (set_txn_object-Touches laws k o create).session t in
      let same = ap object_key (new_object-SameSession string_type key t u session) in
      let written =
        set_txn_object-ok laws k o create t
          (λ h. object_key-not_element (new_object t string_type key) (inr h)) done in
      (
        (
          ap (kv.get u.store) same
              ∙ written
              ∙ ap (λ x. if x then missing else found (object_encode o)) kept,
          start_object-IsEncodable v key c t s hh,
        ),
        subst (λ (x : Txn kv). IsLive x.now (present o)) (sym session)
            (start_object-IsLive v key c t s),
        start_object-typo key c t s,
      )

  start_change-delete : (c : Content) → (start_change c).delete ≡ false
  start_change-delete absent = refl
  start_change-delete (present p) = refl

  store_bit-AfterBit :
      (key : Bytes) (k b origin : ℕ) (next : Option Bytes) (c : Content) (t : Txn kv)
      (r : Reply kv.Fault)
      → IsShortKey t string_type key
      → Holds t string_type key c
      → t.config.object_hash < 2 ^ 16
      → (set_bit (text_of c) k b).1 ≡ next
      → (store_bit
          (object_key (new_object t string_type key))
          (start_change c)
          (start_object t key c)
          (origin, next)
          t).0
        ≡ ok r
      → AfterBit
          (store_bit
            (object_key (new_object t string_type key))
            (start_change c)
            (start_object t key c)
            (origin, next)
            t).1
          key
          (value_after (text_of c) next)
  unfolding store_bit set_bit
  store_bit-AfterBit key k b origin none absent t r hk s hh e h = absurd (ground (arith, e))
  store_bit-AfterBit key k b origin none (present p) t r hk s hh e h = record {
    object = p;
    has = s;
    holds = refl;
    short = hk;
  }
  store_bit-AfterBit key k b origin (some v) c t r hk s hh e h =
      let (done, same) =
        store_bit-some (object_key (new_object t string_type key)) v (start_change c)
          (start_object t key c) origin t r h in
      record {
        object = record (start_object t key c) { value = some v };
        has =
            subst
              (λ (u : Txn kv).
                HasObject u string_type key (record (start_object t key c) { value = some v }))
              (sym same)
              (stored-HasObject v key (start_change c) c t s hh (start_change-delete c) done);
        holds = refl;
        short =
            subst (λ x. length (object_key x) < max_key_size)
              (sym (
                new_object-SameSession string_type key t _ (
                  subst (λ (u : Txn kv). SameSession t u) (sym same)
                    ((set_txn_object-Touches laws (object_key (new_object t string_type key))
                        (record (start_object t key c) { value = some v }) (start_change c)).session
                      t))))
              hk;
      }

  -- At a key below the size limit that holds nothing or a string that has not expired, with the
  -- configured hash in the range of its field: after a SETBIT of the offset `k` that answers with a
  -- number, GETBIT of any offset answers the bit that was set if the offset is `k`, and otherwise the
  -- bit that the string had before, which is 0 past its end.
  pub getbit_handle-setbit_handle :
      (key at bit arg : Bytes) (k b m : ℕ) (c : Content) (t : Txn kv) (r : ℤ)
      → IsShortKey t string_type key
      → Holds t string_type key c
      → t.config.object_hash < 2 ^ 16
      → nonnegative_int at ≡ some (pos k)
      → k < max_value_size
      → nonnegative_int bit ≡ some (pos b)
      → b < 2
      → nonnegative_int arg ≡ some (pos m)
      → (setbit_handle (key ∷ at ∷ bit ∷ []) t).0 ≡ simple_int r
      → getbit_handle (key ∷ arg ∷ []) (setbit_handle (key ∷ at ∷ bit ∷ []) t).1
        ≡ some (
          simple_int (pos (if m == k then b else string_bit (text_of c) m)),
          (setbit_handle (key ∷ at ∷ bit ∷ []) t).1,
        )
  getbit_handle-setbit_handle key at bit arg k b m c t r short s hh ha hk hb hb2 hm done =
      let o = new_object t string_type key in
      let res = set_bit (text_of c) k b in
      let out = store_bit (object_key o) (start_change c) (start_object t key c) res t in
      let whole = setbit_handle-eq key at bit k b t ha hk hb hb2 in
      let (fine, same) =
        respond-int (change_bit key k b) t r
          (ap (λ (x : Reply kv.Fault × Txn kv). x.0) (sym whole) ∙ done) in
      let stored = change_bit-eq key k b c t short s in
      let after =
        store_bit-AfterBit key k b res.0 res.1 c t (simple_int r) short s hh refl
          (ap (λ (x : Result kv.Fault (Reply kv.Fault) × Txn kv). x.0) (sym stored) ∙ fine) in
      let u : (setbit_handle (key ∷ at ∷ bit ∷ []) t).1 ≡ out.1 =
        ap (λ (x : Reply kv.Fault × Txn kv). x.1) whole
        ∙ same
        ∙ ap (λ (x : Result kv.Fault (Reply kv.Fault) × Txn kv). x.1) stored in
      subst
        (λ (x : Txn kv).
          getbit_handle (key ∷ arg ∷ []) x
          ≡ some (simple_int (pos (if m == k then b else string_bit (text_of c) m)), x))
        (sym u)
        (getbit-present key arg m after.object out.1 hm after.short after.has
          ∙ ap (λ n. some (simple_int (pos n), out.1))
              (ap (λ v. string_bit v m) after.holds ∙ string_bit-set_bit (text_of c) k b m hb2))
