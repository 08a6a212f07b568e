-- ===== src/Store/Merge/Seek.antt =====
-- NextUntil of one iterator, asked for keys in their order.
use mathlib.Core.List.{append-nil}
use lancelot.Base.{
  ℕ, ◌≡◌, ◌≢◌, refl, sym, ap, ◌∙◌, subst, Bool, true, false, Option, none, some, List, [], ◌∷◌,
  ◌++◌, All, inl, inr, Bool-cases, Bytes, arith, length, length-append, drop, drop-length-append,
  leb, if◌then◌else◌, bytes_lt, bytes_eq, bytes_eq→eq, bytes_eq_refl,
}
use lancelot.Utils.Bytes.Order.{bytes_lt_irrefl, bytes_lt_trans, bytes_lt_total}
use lancelot.Store.Kv.{Cursor, ended, broken, item}
use lancelot.Store.Error.{Result, ok}
use lancelot.Store.Scan.Laws.{Entry, entries, ending, Above, IsAscending, lookup}
use lancelot.Store.Scan.Entries.{lookup-Above, Above-trans}
use lancelot.Store.Merge.{
  IterScan, Sought, sought_found, sought_past, sought_missing, step, seek, until,
}

-- The key continues the prefix.
abbrev pub Continues : Bytes → Bytes → Type 0
Continues p k = (h : Bytes) × (k ≡ p ++ h)

-- The entry that the iterator stands at, once one was read, and those that are left.
abbrev pub pending : {F : Type 0} → IterScan F → List Entry
pending it = elim it.cur_value [
  | none ↦ entries it.iter
  | some v ↦ (it.current, v) ∷ entries it.iter
]

-- The iterator has not failed, and its entries continue its prefix in the order of their keys.
pub record IsSeeking {F : Type 0} (it : IterScan F) : Type 0 where
  pub order : IsAscending (pending it)
  pub below : All (λ e. Continues it.prefix e.0) (pending it)
  pub unbroken : ending it.iter ≡ none
  pub fresh : it.cur_value ≡ none → it.current ≡ it.prefix

abbrev pub is_there : Option Bytes → Bool
is_there none = false
is_there (some v) = true

abbrev pub is_found : Sought → Bool
is_found sought_found = true
is_found _ = false

bytes_lt-append : (p a b : Bytes) → bytes_lt (p ++ a) (p ++ b) ≡ bytes_lt a b
unfolding bytes_lt
bytes_lt-append [] a b = refl
bytes_lt-append (x ∷ xs) a b = ground (arith, bytes_lt-append xs a b)

bytes_eq-append : (p a b : Bytes) → bytes_eq (p ++ a) (p ++ b) ≡ bytes_eq a b
unfolding bytes_eq
bytes_eq-append [] a b = refl
bytes_eq-append (x ∷ xs) a b = ground (arith, bytes_eq-append xs a b)

bytes_lt-not_eq : (a b : Bytes) → bytes_lt a b ≡ true → bytes_eq a b ≡ false
bytes_lt-not_eq a b h = elim (Bool-cases (bytes_eq a b)) [
  | inl e ↦ (let same = bytes_eq→eq a b e in absurd (ground (arith, h, same, bytes_lt_irrefl b)))
  | inr e ↦ e
]

-- What a search for `key` answers, from the entries `es`.
pub record Answers {F : Type 0} (prefix key : Bytes) (es : List Entry)
    (r : Result F (Sought × IterScan F)) : Type 0 where
  pub sought : Sought
  pub after : IterScan F
  pub returns : r ≡ ok (sought, after)
  pub same_prefix : after.prefix ≡ prefix
  pub right : is_found sought ≡ is_there (lookup es (prefix ++ key))
  pub seeking : IsSeeking after
  pub later :
      (k : Bytes)
      → bytes_lt key k ≡ true
      → lookup (pending after) (prefix ++ k) ≡ lookup es (prefix ++ k)

-- The entry that the iterator stands at comes before the key.
abbrev IsBefore : {F : Type 0} → IterScan F → Bytes → Type 0
IsBefore it key = elim it.cur_value [
  | none ↦ it.current ≡ it.prefix
  | some v ↦ (h : Bytes) × (it.current ≡ it.prefix ++ h) × (bytes_lt h key ≡ true)
]

bytes_eq_flip : (a b : Bytes) → bytes_eq a b ≡ false → bytes_eq b a ≡ false
bytes_eq_flip a b h = elim (Bool-cases (bytes_eq b a)) [
  | inl e ↦ (let same = bytes_eq→eq b a e in absurd (ground (arith, h, same, bytes_eq_refl a)))
  | inr e ↦ e
]

lookup-here :
    (p h key k v : Bytes) (es : List Entry)
    → k ≡ p ++ h
    → bytes_eq h key ≡ true
    → lookup ((k, v) ∷ es) (p ++ key) ≡ some v
lookup-here p h key k v es e s =
    rw (ap (λ x. bytes_eq x (p ++ key)) e ∙ bytes_eq-append p h key ∙ s) refl

lookup-skip :
    (p h key k v : Bytes) (es : List Entry)
    → k ≡ p ++ h
    → bytes_lt h key ≡ true
    → lookup ((k, v) ∷ es) (p ++ key) ≡ lookup es (p ++ key)
lookup-skip p h key k v es e s =
    rw (ap (λ x. bytes_eq x (p ++ key)) e ∙ bytes_eq-append p h key ∙ bytes_lt-not_eq h key s) refl

lookup-beyond :
    (p h key k v : Bytes) (es : List Entry)
    → k ≡ p ++ h
    → bytes_lt key h ≡ true
    → Above k es
    → lookup ((k, v) ∷ es) (p ++ key) ≡ none
lookup-beyond p h key k v es e s a =
    let before : bytes_lt (p ++ key) k ≡ true =
      ap (bytes_lt (p ++ key)) e ∙ bytes_lt-append p key h ∙ s in
    lookup-Above (p ++ key) ((k, v) ∷ es) (before, Above-trans (p ++ key) k es before a)

step-ok : {F : Type 0} (c : Cursor F) → ending c ≡ none → step c ≡ ok c
step-ok ended h = refl
step-ok (broken f) h = absurd (ground (arith, h))
step-ok (item k v rest) h = refl

-- The iterator, moved to an entry.
abbrev moved : {F : Type 0} → IterScan F → Bytes → Bytes → Cursor F → IterScan F
moved it k v rest = record it { current = k; cur_value = some v; iter = rest }

module _ {F : Type 0} where
  at_end :
      (p key current : Bytes) (value : Option Bytes) (idx : ℕ)
      → IsBefore {F = F}
          (record { prefix = p; current = current; cur_value = value; idx = idx; iter = ended })
          key
      → Answers {F = F} p key [] (
          ok (
            sought_missing,
            record { prefix = p; current = current; cur_value = value; idx = idx; iter = ended },
          ))
  at_end p key current none idx h = record {
    sought = sought_missing;
    after = record { prefix = p; current = current; cur_value = none; idx = idx; iter = ended };
    returns = refl;
    same_prefix = refl;
    right = refl;
    seeking = record { order = tt; below = tt; unbroken = refl; fresh = λ e. h };
    later = λ k l. refl;
  }
  at_end p key current (some v) idx (h, e, lt) = record {
    sought = sought_missing;
    after = record { prefix = p; current = current; cur_value = some v; idx = idx; iter = ended };
    returns = refl;
    same_prefix = refl;
    right = refl;
    seeking = record {
      order = (tt, tt);
      below = ((h, e), tt);
      unbroken = refl;
      fresh = λ e'. absurd (ground (arith, e'));
    };
    later = λ k l. lookup-skip p h k current v [] e (bytes_lt_trans h key k lt l);
  }

  -- The search ends where the iterator stands.
  stopped :
      (key : Bytes) (it : IterScan F) (sought : Sought)
      → IsSeeking it
      → is_found sought ≡ is_there (lookup (pending it) (it.prefix ++ key))
      → Answers it.prefix key (pending it) (ok (sought, it))
  stopped key it sought s r = record {
    sought = sought;
    after = it;
    returns = refl;
    same_prefix = refl;
    right = r;
    seeking = s;
    later = λ k l. refl;
  }

  -- An entry before the key makes no difference.
  skipped :
      (p h key k v : Bytes) (es : List Entry) (r : Result F (Sought × IterScan F))
      → k ≡ p ++ h
      → bytes_lt h key ≡ true
      → Answers p key es r
      → Answers p key ((k, v) ∷ es) r
  skipped p h key k v es r e lt a = record {
    sought = a.sought;
    after = a.after;
    returns = a.returns;
    same_prefix = a.same_prefix;
    right = a.right ∙ ap is_there (sym (lookup-skip p h key k v es e lt));
    seeking = a.seeking;
    later = λ q l. a.later q l ∙ sym (lookup-skip p h q k v es e (bytes_lt_trans h key q lt l));
  }

  seek-item :
      (key h k v : Bytes) (it : IterScan F) (rest : Cursor F)
      → k ≡ it.prefix ++ h
      → ending rest ≡ none
      → seek it.prefix key it (item k v rest) ≡ (
          if bytes_lt h key
          then seek it.prefix key (moved it k v rest) rest
          else if bytes_eq h key
          then ok (sought_found, moved it k v rest)
          else ok (sought_past, moved it k v rest))
  unfolding seek
  seek-item key h k v it rest e u =
      let long : leb (length it.prefix) (length k) ≡ true =
        ground (arith, ap length e, length-append it.prefix h) in
      let name : drop (length it.prefix) k ≡ h =
        ap (drop (length it.prefix)) e ∙ drop-length-append it.prefix h in
      rw (seek, step-ok rest u, long, name) refl

  seek-Answers :
      (key : Bytes) (it : IterScan F) (c : Cursor F)
      → IsAscending (entries c)
      → All (λ e. Continues it.prefix e.0) (entries c)
      → ending c ≡ none
      → IsBefore it key
      → Answers it.prefix key (entries c) (seek it.prefix key it c)
  unfolding seek
  seek-Answers key it ended o b u h = at_end it.prefix key it.current it.cur_value it.idx h
  seek-Answers key it (broken f) o b u h = absurd (ground (arith, u))
  seek-Answers key it (item k v rest) (above, o) ((n, e), b) u h =
      let it' = moved it k v rest in
      let whole = seek-item key n k v it rest e u in
      let s : IsSeeking it' = record {
        order = (above, o);
        below = ((n, e), b);
        unbroken = u;
        fresh = λ e'. absurd (ground (arith, e'));
      } in
      subst (Answers it.prefix key ((k, v) ∷ entries rest)) (sym whole)
        (elim (Bool-cases (bytes_lt n key)) [
          | inl lt ↦ rw lt (
              skipped it.prefix n key k v (entries rest) (seek it.prefix key it' rest) e lt
                (seek-Answers key it' rest o b u (n, e, lt)))
          | inr not_lt ↦ elim (Bool-cases (bytes_eq n key)) [
            | inl same ↦
                rw (not_lt, same)
                  (stopped key it' sought_found s
                    (ap is_there (sym (lookup-here it.prefix n key k v (entries rest) e same))))
            | inr other ↦
                rw (not_lt, other)
                  (stopped key it' sought_past s (
                    ap is_there (
                      sym (
                        lookup-beyond it.prefix n key k v (entries rest) e
                          (bytes_lt_total n key not_lt other) above))))
          ]
        ])

  -- What NextUntil does where the iterator stands at the name `n`.
  until-at :
      (key n : Bytes) (it : IterScan F)
      → it.current ≡ it.prefix ++ n
      → until key it ≡ (
          if bytes_eq n key
          then ok (sought_found, it)
          else if bytes_lt key n
          then ok (sought_past, it)
          else seek it.prefix key it it.iter)
  unfolding until
  until-at key n it e =
      let long : leb (length it.prefix) (length it.current) ≡ true =
        ground (arith, ap length e, length-append it.prefix n) in
      let name : drop (length it.prefix) it.current ≡ n =
        ap (drop (length it.prefix)) e ∙ drop-length-append it.prefix n in
      rw (until, long, name) refl

  until-fresh :
      (p key current : Bytes) (idx : ℕ) (iter : Cursor F)
      → IsSeeking
          (record { prefix = p; current = current; cur_value = none; idx = idx; iter = iter })
      → key ≢ []
      → Answers p key (entries iter) (
          until key
            (record { prefix = p; current = current; cur_value = none; idx = idx; iter = iter }))
  unfolding bytes_eq seek bytes_lt
  until-fresh p [] current idx iter s ne = absurd (ne refl)
  until-fresh p (x ∷ xs) current idx iter s ne =
      let it : IterScan F = record {
        prefix = p;
        current = current;
        cur_value = none;
        idx = idx;
        iter = iter;
      } in
      subst (Answers p (x ∷ xs) (entries iter))
        (sym (until-at (x ∷ xs) [] it (s.fresh refl ∙ sym (append-nil p))))
        (seek-Answers (x ∷ xs) it iter s.order s.below s.unbroken (s.fresh refl))

  until-read :
      (p key current v : Bytes) (idx : ℕ) (iter : Cursor F)
      → IsSeeking
          (record { prefix = p; current = current; cur_value = some v; idx = idx; iter = iter })
      → Answers p key ((current, v) ∷ entries iter) (
          until key
            (record { prefix = p; current = current; cur_value = some v; idx = idx; iter = iter }))
  until-read p key current v idx iter s =
      let it : IterScan F = record {
        prefix = p;
        current = current;
        cur_value = some v;
        idx = idx;
        iter = iter;
      } in
      let (n, e) = s.below.0 in
      subst (Answers p key (pending it)) (sym (until-at key n it e))
        (elim (Bool-cases (bytes_eq n key)) [
          | inl same ↦ rw same (
              stopped key it sought_found s
                (ap is_there (sym (lookup-here p n key current v (entries iter) e same))))
          | inr other ↦ elim (Bool-cases (bytes_lt key n)) [
            | inl past ↦
                rw (other, past)
                  (stopped key it sought_past s (
                    ap is_there
                      (sym (lookup-beyond p n key current v (entries iter) e past s.order.0))))
            | inr not_past ↦
                (let lt = bytes_lt_total key n not_past (bytes_eq_flip n key other) in
                  rw (other, not_past)
                    (skipped p n key current v (entries iter) (seek p key it iter) e lt
                      (seek-Answers key it iter s.order.1 s.below.1 s.unbroken (n, e, lt))))
          ]
        ])

  until-split :
      (p key current : Bytes) (value : Option Bytes) (idx : ℕ) (iter : Cursor F)
      → IsSeeking
          (record { prefix = p; current = current; cur_value = value; idx = idx; iter = iter })
      → (value ≡ none → key ≢ [])
      → Answers p key
          (pending {F = F}
            (record { prefix = p; current = current; cur_value = value; idx = idx; iter = iter }))
          (until key
            (record { prefix = p; current = current; cur_value = value; idx = idx; iter = iter }))
  until-split p key current none idx iter s h = until-fresh p key current idx iter s (h refl)
  until-split p key current (some v) idx iter s h = until-read p key current v idx iter s

  -- For an iterator whose entries continue its prefix in the order of their keys and that does not
  -- fail, NextUntil asked for a key, which is not empty if no entry was read yet: it answers, it
  -- finds the key exactly if it is among the entries from where the iterator stands, and the
  -- iterator that it leaves is such an iterator again and has every greater key that was there.
  pub until-Answers :
      (key : Bytes) (it : IterScan F)
      → IsSeeking it
      → (it.cur_value ≡ none → key ≢ [])
      → Answers it.prefix key (pending it) (until key it)
  until-Answers key it s h = until-split it.prefix key it.current it.cur_value it.idx it.iter s h
