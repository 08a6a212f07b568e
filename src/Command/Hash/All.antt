-- ===== src/Command/Hash/All.antt =====
-- HGETALL and HGET, on one transaction.
use mathlib.Core.List.{append-nil, append_assoc}
use lancelot.Base.{
  ◌<◌, ◌≤◌, ◌≡◌, refl, sym, ap, ◌∙◌, subst, true, false, Option, none, some, List, [], ◌∷◌, ◌++◌,
  inl, inr, Bool-cases, ltb→lt, Bytes, AreBytes, All, arith, length, drop, leb, ltb, if◌then◌else◌,
  bytes_eq, has_prefix,
}
use lancelot.Utils.Bytes.{prefix_next}
use lancelot.Utils.Bytes.PrefixRange.{CanBump, prefix_next_range, append_within, prefix_next_above}
use lancelot.Store.Kv.{Kv, Cursor}
use lancelot.Store.Error.{Error, Result, ok}
use lancelot.Store.Txn.{Txn, pure}
use lancelot.Store.Scan.{up_to_limit}
use lancelot.Store.Scan.Laws.{
  Entry, entries, ending, AreWithin, lookup, fold, ScanLaws, Agrees, list-bounded,
}
use lancelot.Command.Object.{Object, Slice, object_value_key, get_key_bytes, hash_type}
use lancelot.Command.Elements.Laws.{left_at}
use lancelot.Command.Elements.Open.{HasObject, IsShortKey, opened, with_object-present}
use lancelot.Command.Hash.Read.{both_kv, collect, list_fields, hgetall, hget, value_slice}
use lancelot.Command.Hash.Write.Laws.{object_value_key-append}
use lancelot.Command.Hash.Get.{shown, hget-eq, get_field-ok}

-- The fields and the values of the entries below a prefix.
abbrev listed_pairs : Bytes → List Entry → List Slice
listed_pairs start [] = []
listed_pairs start ((k, v) ∷ es) =
    let later = listed_pairs start es in
    if ltb (length k) (length start)
    then later
    else some (drop (length start) k) ∷ value_slice v ∷ later

fold-pairs :
    (start : Bytes) (ret : List Slice) (es : List Entry)
    → fold (collect both_kv start) ret es ≡ ret ++ listed_pairs start es
unfolding collect
fold-pairs start ret [] = sym (append-nil ret)
fold-pairs start ret ((k, v) ∷ es) = elim (Bool-cases (ltb (length k) (length start))) [
  | inl s ↦ rw s (fold-pairs start ret es)
  | inr s ↦ rw s (
      fold-pairs start (ret ++ some (drop (length start) k) ∷ value_slice v ∷ []) es
      ∙ append_assoc ret (some (drop (length start) k) ∷ value_slice v ∷ [])
          (listed_pairs start es))
]

-- The value beside a field in the reply of HGETALL.
abbrev pub value_of : Bytes → List Slice → Slice
value_of f (some g ∷ v ∷ rest) = let later = value_of f rest in if bytes_eq g f then v else later
value_of f _ = none

drop-prefix :
    (p k f : Bytes) → has_prefix k p ≡ true → bytes_eq (drop (length p) k) f ≡ bytes_eq k (p ++ f)
unfolding has_prefix bytes_eq
drop-prefix [] k f h = refl
drop-prefix (x ∷ xs) [] f h = ground (arith, h)
drop-prefix (x ∷ xs) (y ∷ ys) f h = ground (arith, h, drop-prefix xs ys f)

length-differ : (k p f : Bytes) → length k < length p → bytes_eq k (p ++ f) ≡ false
unfolding bytes_eq
length-differ [] [] f h = absurd (omega arith)
length-differ [] (x ∷ xs) f h = refl
length-differ (y ∷ ys) [] f h = absurd (omega arith)
length-differ (y ∷ ys) (x ∷ xs) f h = ground (arith, h, length-differ ys xs f)

abbrev pub AreByteKeys : List Entry → Type 0
AreByteKeys = All (λ e. AreBytes e.0)

value_of-cons :
    (k v start f : Bytes) (es : List Entry)
    → value_of f (listed_pairs start es) ≡ shown (lookup es (start ++ f))
    → (if bytes_eq k (start ++ f) then value_slice v else value_of f (listed_pairs start es))
      ≡ shown (if bytes_eq k (start ++ f) then some v else lookup es (start ++ f))
value_of-cons k v start f es h = elim (Bool-cases (bytes_eq k (start ++ f))) [
  | inl e ↦ rw e refl
  | inr e ↦ rw e h
]

-- HGETALL's list has the value of the entry of a field.
value_of-pairs :
    (start f : Bytes) (es : List Entry)
    → AreBytes start
    → CanBump start
    → AreByteKeys es
    → AreWithin start (prefix_next start) es
    → value_of f (listed_pairs start es) ≡ shown (lookup es (start ++ f))
value_of-pairs start f [] hp hc hb hw = refl
value_of-pairs start f ((k, v) ∷ es) hp hc hb hw =
    elim (Bool-cases (ltb (length k) (length start))) [
      | inl s ↦
          rw (s, length-differ k start f (ltb→lt (length k) (length start) s))
            (value_of-pairs start f es hp hc hb.1 hw.1)
      | inr s ↦
          (let far : length start ≤ length k = ground (arith, s) in
            let here : has_prefix k start ≡ true =
              sym (prefix_next_range start k hp hb.0 far hc) ∙ hw.0 in
            rw (s, drop-prefix start k f here)
              (value_of-cons k v start f es (value_of-pairs start f es hp hc hb.1 hw.1)))
    ]

left_at-Agrees : (F : Type 0) (raw o : Slice) → Agrees (left_at F raw) o → o ≡ raw
left_at-Agrees F none o h = h
left_at-Agrees F (some v) o h = h

ok-injective : {F : Type 0} (a b : List Slice) → Path (Result F (List Slice)) (ok a) (ok b) → a ≡ b
ok-injective a b h = ground (arith, h)

module _ {kv : Kv} (scan : ScanLaws kv) where
  abbrev field_entries : Txn kv → Object → Cursor kv.Fault
  field_entries t o = kv.iter t.store (object_value_key o []) (prefix_next (object_value_key o []))

  -- The elements of the object can be listed: no error, fewer than the limit of the configuration,
  -- and keys made of bytes.
  pub record IsReadable (t : Txn kv) (o : Object) : Type 0 where
    pub prefix_bytes : AreBytes (object_value_key o [])
    pub ends : ending (field_entries t o) ≡ none
    pub few : length (entries (field_entries t o)) < t.config.scan_max_count
    pub byte_keys : AreByteKeys (entries (field_entries t o))

  start-CanBump : (o : Object) → CanBump (object_value_key o [])
  unfolding object_value_key get_key_bytes
  start-CanBump o = inl (λ e. absurd (ground (arith, e)))

  list_fields-pairs :
      (t : Txn kv) (o : Object)
      → IsReadable t o
      → list_fields both_kv 0 o t
        ≡ (ok (listed_pairs (object_value_key o []) (entries (field_entries t o))), t)
  unfolding list_fields
  list_fields-pairs t o r =
      let start = object_value_key o [] in
      let up = prefix_next_above start r.prefix_bytes (start-CanBump o) in
      let few : leb t.config.scan_max_count (length (entries (field_entries t o))) ≡ false =
        ground (arith, r.few) in
      ap (λ (x : Option (Error kv.Fault) × List Slice). up_to_limit {kv = kv} x t)
        (list-bounded scan t start (prefix_next start) t.config.scan_max_count
          (collect both_kv start) [] (omega (arith, r.few)) up)
      ∙ rw (few, r.ends, fold-pairs start [] (entries (field_entries t o))) refl

  -- For a key below the size limit that holds a hash that has not expired, with fewer elements than
  -- the limit of the configuration, in iterators that do not fail and keys that are made of bytes:
  -- the value that HGETALL replies beside a field is the one that HGET of the field gives, and there
  -- is none where HGET gives none.
  pub hgetall-hget :
      (key f : Bytes) (p : Object) (t : Txn kv) (ret : List Slice) (v : Slice)
      → IsShortKey t hash_type key
      → HasObject t hash_type key p
      → IsReadable t (opened t hash_type key p)
      → (hgetall key both_kv 0 t).0 ≡ ok ret
      → (hget key f t).0 ≡ ok v
      → value_of f ret ≡ v
  unfolding hgetall
  hgetall-hget key f p t ret v hk has r all one =
      let o = opened t hash_type key p in
      let start = object_value_key o [] in
      let es = entries (field_entries t o) in
      let listed : hgetall key both_kv 0 t ≡ (ok (listed_pairs start es), t) =
        with_object-present t hash_type key p false (λ _. pure []) (list_fields both_kv 0) hk has
        ∙ list_fields-pairs t o r in
      let (raw, e, shows) =
        get_field-ok f o v t (
          ap (λ (x : Result kv.Fault Slice × Txn kv). x.0) (sym (hget-eq key f p t hk has))
          ∙ one) in
      let agrees =
        scan.lookup-get t.store start (prefix_next start) (start ++ f) r.ends
          (append_within start f r.prefix_bytes (start-CanBump o)) in
      let same : lookup es (start ++ f) ≡ raw =
        left_at-Agrees kv.Fault raw (lookup es (start ++ f)) (
          subst (λ g. Agrees g (lookup es (start ++ f)))
            (ap (kv.get t.store) (sym (object_value_key-append o f)) ∙ e) agrees) in
      ap (value_of f) (
        ok-injective _ _ (sym all ∙ ap (λ (x : Result kv.Fault (List Slice) × Txn kv). x.0) listed))
      ∙ value_of-pairs start f es r.prefix_bytes (start-CanBump o) r.byte_keys
          (scan.within t.store start (prefix_next start))
      ∙ ap shown same
      ∙ sym shows
