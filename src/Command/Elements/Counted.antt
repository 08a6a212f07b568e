-- ===== src/Command/Elements/Counted.antt =====
-- GetCountByObject is the sum of the counts of an object, and how one count changes it.
use mathlib.Core.List.{append-nil, append_assoc}
use lancelot.Base.{
  ℕ, ◌^◌, ◌<◌, ◌≡◌, refl, sym, ap, ◌∙◌, subst, Bool, true, false, ◌&&◌, Option, none, some, List,
  [], ◌∷◌, ◌++◌, inl, inr, Bool-cases, Bytes, AreBytes, arith, length, leb, ltb,
}
use lancelot.Base.Int.{ℤ, pos, ◌+ℤ◌, wrap_int64, uint64_of, IsInt64, wrap_int64-IsInt64}
use lancelot.Base.BigEndian.{be_bytes}
use lancelot.Utils.Bytes.{prefix_next}
use lancelot.Utils.Bytes.PrefixRange.{CanBump, append_within, prefix_next_above}
use lancelot.Utils.Hash.{get_shard}
use lancelot.Store.Kv.{Kv, Found, found, missing, failed}
use lancelot.Store.Error.{Error, Result, ok, Result-cases}
use lancelot.Store.Txn.{Txn, get, put, max_key_size}
use lancelot.Store.Txn.Frame.{bind_ok}
use lancelot.Store.Scan.{up_to_limit}
use lancelot.Store.Scan.Laws.{
  Entry, entries, ending, in_range, lookup, upsert, fold, ScanLaws, Agrees, list-bounded,
}
use lancelot.Store.Scan.Update.{iter-put}
use lancelot.Command.Object.{
  Object, Slice, bytes_of, get_key_bytes, count_prefix, key_prefix, disable_count,
}
use lancelot.Command.Count.{Count, new_count, get_count, set_count, decode_count, encode_count}
use lancelot.Command.Count.Codec.{decode_count-encode_count}
use lancelot.Command.Elements.{
  add_count, list_count, get_count_by_object, count_element, element_count, store_count,
  is_zero_int,
}
use lancelot.Command.Elements.Laws.{element_count-unchanged}
use lancelot.Command.Elements.Tally.{
  count_of, decode_count-count_of, sum_entries, sum_counts-fold, word_at, sum_entries-upsert,
}

module _ {kv : Kv} where
  -- The prefix of the counts of an object.
  abbrev pub count_start : Txn kv → Object → Bytes
  count_start t o = get_key_bytes count_prefix t.user_id t.db_id key_prefix (bytes_of o.value ∷ [])

  abbrev pub count_entries : Txn kv → Object → List Entry
  count_entries t o = entries (kv.iter t.store (count_start t o) (prefix_next (count_start t o)))

  -- The counts can be listed: no error, and fewer of them than ListCount's limit.
  pub record IsListed (t : Txn kv) (o : Object) : Type 0 where
    pub ends : ending (kv.iter t.store (count_start t o) (prefix_next (count_start t o))) ≡ none
    pub few : length (count_entries t o) < 32767

  -- The object's elements are counted, and its prefix is made of bytes.
  pub record IsCounted (t : Txn kv) (o : Object) : Type 0 where
    pub start_bytes : AreBytes (count_start t o)
    pub counts_on : (disable_count o && t.config.disable_count) ≡ false
    pub timestamp_range : t.timestamp < 2 ^ 64

  count_start-CanBump : (t : Txn kv) (o : Object) → CanBump (count_start t o)
  unfolding get_key_bytes
  count_start-CanBump t o = inl (λ e. absurd (ground (arith, e)))

-- What the count was read as.
abbrev Reads : {F : Type 0} → ℤ → Found F → Type 0
Reads n (found v) = n ≡ count_of v
Reads n missing = n ≡ pos 0
Reads n (failed f) = ⊥

Reads-word_at :
    {F : Type 0} (g : Found F) (o : Option Bytes) (n : ℤ)
    → Reads n g
    → Agrees g o
    → uint64_of n ≡ word_at o
unfolding uint64_of
Reads-word_at (found v) o n h e = rw (h, e) refl
Reads-word_at missing o n h e = rw (h, e) refl
Reads-word_at (failed f) o n h e = absurd h

module _ {kv : Kv} where
  new_count-key :
      (user db hash part : ℕ) (key : Bytes) (hv : Slice) (t : Txn kv)
      → (s : Bytes) × ((new_count user db hash part key hv t).key
          ≡ get_key_bytes count_prefix user db part (key ∷ []) ++ s)
  unfolding new_count get_key_bytes
  new_count-key user db hash part key hv t =
      let shard : ℕ = elim hv [ none ↦ hash | some v ↦ get_shard v hash ] in
      elim (Bool-cases (ltb 0 hash)) [
        | inl h ↦ (be_bytes 2 shard, rw h (simp (append-nil, append_assoc)))
        | inr h ↦ ([], rw h (simp append-nil))
      ]

  new_count-value :
      (user db hash part : ℕ) (key : Bytes) (hv : Slice) (t : Txn kv)
      → (new_count user db hash part key hv t).value ≡ pos 0
  unfolding new_count
  new_count-value user db hash part key hv t = refl

  -- A count that GetCount answers: its key is that of the new count, and its value the stored one.
  get_count-ok :
      (user db hash part : ℕ) (key : Bytes) (hv : Slice) (t : Txn kv) (b : Bool) (c : Count)
      → (get_count user db hash part key hv t).0 ≡ ok (b, c)
      → (c.key ≡ (new_count user db hash part key hv t).key)
        × Reads c.value (kv.get t.store (new_count user db hash part key hv t).key)
        × (length c.key < max_key_size)
  unfolding get_count get decode_count
  get_count-ok user db hash part key hv t b c h =
      ground (arith, h, new_count-value user db hash part key hv t)

module _ {kv : Kv} (scan : ScanLaws kv) where
  disabled :
      (t : Txn kv) (o : Object)
      → IsCounted t o
      → (t.config.disable_count && disable_count o) ≡ false
  disabled t o c = ground (arith, c.counts_on)

  list_count-eq :
      (t : Txn kv) (o : Object)
      → IsCounted t o
      → IsListed t o
      → list_count t.user_id t.db_id key_prefix (bytes_of o.value) t
        ≡ (ok (fold add_count [] (count_entries t o)), t)
  unfolding list_count
  list_count-eq t o c l =
      let start = count_start t o in
      let few : leb 32767 (length (count_entries t o)) ≡ false = ground (arith, l.few) in
      ap (λ (r : Option (Error kv.Fault) × List Count). up_to_limit {kv = kv} r t)
        (list-bounded scan t start (prefix_next start) 32767 add_count [] (omega arith)
          (prefix_next_above start c.start_bytes (count_start-CanBump t o)))
      ∙ rw (few, l.ends) refl

  -- GetCountByObject is the sum of the counts.
  pub get_count_by_object-sum_entries :
      (t : Txn kv) (o : Object)
      → IsCounted t o
      → IsListed t o
      → get_count_by_object o t ≡ (ok (sum_entries (pos 0) (count_entries t o)), t)
  unfolding get_count_by_object
  get_count_by_object-sum_entries t o c l =
      rw (disabled t o c, list_count-eq t o c l, sum_counts-fold (pos 0) [] (count_entries t o))
        refl

  -- The count that an element belongs to, as a key of the range and as the entry there.
  element_count-within :
      (o : Object) (v : Slice) (t : Txn kv) (b : Bool) (c : Count)
      → IsCounted t o
      → IsListed t o
      → (element_count o v t).0 ≡ ok (b, c)
      → (in_range (count_start t o) (prefix_next (count_start t o)) c.key ≡ true)
        × (uint64_of c.value ≡ word_at (lookup (count_entries t o) c.key))
  unfolding element_count
  element_count-within o v t b c counted listed h =
      let start = count_start t o in
      let d = new_count t.user_id t.db_id o.hash key_prefix (bytes_of o.value) v t in
      let (same, reads, short) =
        get_count-ok t.user_id t.db_id o.hash key_prefix (bytes_of o.value) v t b c h in
      let (s, e) = new_count-key t.user_id t.db_id o.hash key_prefix (bytes_of o.value) v t in
      let inside : in_range start (prefix_next start) d.key ≡ true =
        rw e (append_within start s counted.start_bytes (count_start-CanBump t o)) in
      let agrees = scan.lookup-get t.store start (prefix_next start) d.key listed.ends inside in
      (
        rw same inside,
        subst (λ k. uint64_of c.value ≡ word_at (lookup (count_entries t o) k)) (sym same)
            (Reads-word_at (kv.get t.store d.key) (lookup (count_entries t o) d.key) c.value reads
              agrees),
      )

  encode_count-count_of :
      (c : Count) → c.timestamp < 2 ^ 64 → IsInt64 c.value → count_of (encode_count c) ≡ c.value
  encode_count-count_of c ht hv =
      sym (decode_count-count_of c (encode_count c))
      ∙ ap (λ (x : Count). x.value) (decode_count-encode_count c c ht hv)

  -- A count with `delta` more, as PutOrDeleteKV stores it.
  abbrev raised : ℤ → Txn kv → Count → Count
  raised delta t c = record c { value = wrap_int64 (c.value +ℤ delta); timestamp = t.timestamp }

  store_count-put :
      (delta : ℤ) (b : Bool) (c : Count) (t : Txn kv) (n : ℤ)
      → (store_count delta (b, c) t).0 ≡ ok n
      → ((put c.key (encode_count (raised delta t c)) t).0 ≡ ok tt)
        × ((store_count delta (b, c) t).1 ≡ (put c.key (encode_count (raised delta t c)) t).1)
  unfolding store_count set_count
  store_count-put delta b c t n h =
      elim (Result-cases (put c.key (encode_count (raised delta t c)) t).0) [
        | inr (x, w) ↦ absurd (ground (arith, h, w))
        | inl (tt, w) ↦ (w, ground (arith, w))
      ]

  -- PutOrDeleteKV's change of the counts: one count of the object is stored with `delta` more.
  pub record CountStep (t : Txn kv) (o : Object) (delta : ℤ) (u : Txn kv) : Type 0 where
    count : Count
    inside : in_range (count_start t o) (prefix_next (count_start t o)) count.key ≡ true
    word : uint64_of count.value ≡ word_at (lookup (count_entries t o) count.key)
    stored : (put count.key (encode_count (raised delta t count)) t).0 ≡ ok tt
    after : u ≡ (put count.key (encode_count (raised delta t count)) t).1

  pub count_element-CountStep :
      (o : Object) (v : Slice) (delta : ℤ) (t : Txn kv) (n : ℤ)
      → IsCounted t o
      → IsListed t o
      → is_zero_int delta ≡ false
      → (count_element o v delta t).0 ≡ ok n
      → CountStep t o delta (count_element o v delta t).1
  unfolding count_element
  count_element-CountStep o v delta t n counted listed z h =
      let same : (element_count o v t).1 ≡ t = element_count-unchanged o v t in
      elim (Result-cases (element_count o v t).0) [
        | inr (x, w) ↦ absurd (ground (arith, h, w, z, counted.counts_on))
        | inl ((b, c), w) ↦
            (let (inside, word) = element_count-within o v t b c counted listed w in
              let step : count_element o v delta t ≡ store_count delta (b, c) t =
                rw (z, counted.counts_on)
                  (bind_ok (element_count o v) (store_count delta) t (b, c) w
                    ∙ ap (store_count delta (b, c)) same) in
              let (stored, after) =
                store_count-put delta b c t n
                  (ap (λ (x : Result kv.Fault ℤ × Txn kv). x.0) (sym step) ∙ h) in
              record {
                count = c;
                inside = inside;
                word = word;
                stored = stored;
                after = ap (λ (x : Result kv.Fault ℤ × Txn kv). x.1) step ∙ after;
              })
      ]

  -- The sum of the counts after that step.
  pub CountStep-sum :
      (t : Txn kv) (o : Object) (delta : ℤ) (u : Txn kv)
      → IsCounted t o
      → IsListed t o
      → CountStep t o delta u
      → ending (kv.iter u.store (count_start t o) (prefix_next (count_start t o))) ≡ none
      → sum_entries
          (pos 0)
          (entries (kv.iter u.store (count_start t o) (prefix_next (count_start t o))))
        ≡ wrap_int64 (sum_entries (pos 0) (count_entries t o) +ℤ delta)
  CountStep-sum t o delta u counted listed step ends =
      let start = count_start t o in
      let d = raised delta t step.count in
      let listing = λ (x : Txn kv). kv.iter x.store start (prefix_next start) in
      let entries_after : entries (listing u) ≡ upsert d.key (encode_count d) (count_entries t o) =
        ap (λ x. entries (listing x)) step.after
        ∙ iter-put scan t d.key (encode_count d) start (prefix_next start) step.inside step.stored
            listed.ends (ap (λ x. ending (listing x)) (sym step.after) ∙ ends) in
      ap (sum_entries (pos 0)) entries_after
      ∙ sum_entries-upsert d.key (encode_count d) (count_entries t o) step.count.value delta
          (scan.ascending t.store start (prefix_next start)) step.word
          (encode_count-count_of d counted.timestamp_range
            (wrap_int64-IsInt64 (step.count.value +ℤ delta)))
