-- ===== src/Command/Set/Contains.antt =====
-- SADD, SREM and SISMEMBER, on one transaction.
use lancelot.Base.{
  ℕ, ◌<◌, ◌≡◌, sym, ap, ◌∙◌, subst, Bool, true, false, List, Bytes, arith, length, if◌then◌else◌,
  some,
}
use lancelot.Base.Int.{ℤ, pos}
use lancelot.Store.Kv.{Kv, KvLaws}
use lancelot.Store.Error.{Result, ok}
use lancelot.Store.Txn.{Txn, max_key_size}
use lancelot.Store.Txn.Laws.{SameSession}
use lancelot.Command.Object.{Object, Slice, object_key, object_value_key, set_type, is_simple}
use lancelot.Command.Object.Codec.{decoded}
use lancelot.Command.Access.Reads.{Content}
use lancelot.Command.Elements.Laws.{left_at}
use lancelot.Command.Elements.Open.{Holds, HasObject, IsShortKey, opened, new_object-SameSession}
use lancelot.Command.Elements.Create.{Fits, stored_object}
use lancelot.Command.Elements.Run.{element_key, element_key-short, get_or_create-Ran, Ran-HasObject}
use lancelot.Command.Hash.Write.Laws.{is_named}
use lancelot.Command.Set.Read.{sismember, is_member, flag_of}
use lancelot.Command.Set.Write.{sadd_loop, sadd}
use lancelot.Command.Set.Member.{
  Added, sadd_loop-Touches, sadd_loop-Added, sismember-eq, is_member-flag_of, IsFreshSet,
  sismember-Before,
}

set-not_simple : (p : Object) → p.typo ≡ set_type → is_simple p ≡ false
unfolding is_simple
set-not_simple p i = ground (arith, i)

module _ {kv : Kv} (laws : KvLaws kv) where
  is_member-Added :
      (named : Bool) (m : Bytes) (o : Object) (raw : Slice) (u : Txn kv)
      → length (object_value_key o m) < max_key_size
      → Added laws named (left_at kv.Fault raw) (kv.get u.store (object_value_key o m))
      → (is_member m o u).0 ≡ ok (if named then pos 1 else flag_of raw)
  is_member-Added true m o raw u hm (v, e) =
      ap (λ (x : Result kv.Fault ℤ × Txn kv). x.0) (is_member-flag_of m o (some v) u hm e)
  is_member-Added false m o raw u hm e =
      ap (λ (x : Result kv.Fault ℤ × Txn kv). x.0) (is_member-flag_of m o raw u hm e)

  -- A SISMEMBER in a later transaction that has the set and the element.
  later-Added :
      (key m : Bytes) (p : Object) (named : Bool) (raw : Slice) (t u : Txn kv)
      → IsShortKey t set_type key
      → SameSession t u
      → HasObject u set_type key p
      → length m < 4075
      → Added laws named
          (left_at kv.Fault raw)
          (kv.get u.store (object_value_key (opened t set_type key p) m))
      → (sismember key m u).0 ≡ ok (if named then pos 1 else flag_of raw)
  later-Added key m p named raw t u hk session has hm added =
      let here = new_object-SameSession set_type key t u session in
      let short = subst (λ x. length (object_key x) < max_key_size) (sym here) hk in
      let same : object_value_key (opened u set_type key p) m
          ≡ object_value_key (opened t set_type key p) m =
        ap (λ x. object_value_key (decoded p x) m) here in
      let small = element_key-short set_type u key m p has.0.1 (set-not_simple p has.2) hm in
      ap (λ (x : Result kv.Fault ℤ × Txn kv). x.0) (sismember-eq key m p u short has)
      ∙ is_member-Added named m (opened u set_type key p) raw u small
          (subst (λ k. Added laws named (left_at kv.Fault raw) (kv.get u.store k)) (sym same) added)

  -- At a key below the size limit that holds nothing or a set that has not expired, with a UUID of 16
  -- bytes below which nothing is stored yet where a set is made, and the timestamp and the configured
  -- hash in the range of their fields: after a SADD that succeeds, SISMEMBER of a member of less than
  -- 4075 bytes answers 1 if SADD named the member, and what it answered before otherwise.
  pub sismember-sadd :
      (id key m : Bytes) (members : List Bytes) (c : Content) (t : Txn kv) (r : ℕ) (n : ℤ)
      → Fits t set_type key id
      → Holds t set_type key c
      → IsFreshSet id t key c
      → length m < 4075
      → (sismember key m t).0 ≡ ok n
      → (sadd (ok id) key members false t).0 ≡ ok r
      → (sismember key m (sadd (ok id) key members false t).1).0
        ≡ ok (if is_named m members then pos 1 else n)
  unfolding sadd
  sismember-sadd id key m members c t r n fits s new hm hold h =
      let loop = λ (o : Object). sadd_loop {kv = kv} o members 0 in
      let p = stored_object id t set_type key c in
      let ran = get_or_create-Ran laws set_type id key c t loop r fits s h in
      let u = (loop ran.object ran.mid).1 in
      let (session, has) =
        Ran-HasObject laws set_type id key c t loop r (λ o. sadd_loop-Touches laws o members 0)
          ran in
      let before = sismember-Before id key m c n t fits.short_key s new hold in
      let k = element_key set_type id t key c m in
      let earlier = ran.before m ∙ before.holds_raw in
      let added =
        subst (λ x. Added laws (is_named m members) (kv.get ran.mid.store x) (kv.get u.store x))
          (ran.same_key m) (sadd_loop-Added laws ran.object members 0 r m ran.mid ran.done) in
      ap (λ (x : Result kv.Fault ℕ × Txn kv). (sismember key m x.1).0) ran.run
      ∙ later-Added key m p (is_named m members) before.raw t u fits.short_key session has hm
          (subst (λ g. Added laws (is_named m members) g (kv.get u.store k)) earlier added)
      ∙ ap (λ x. ok (if is_named m members then pos 1 else x)) (sym before.flag)
