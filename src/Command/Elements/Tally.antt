-- ===== src/Command/Elements/Tally.antt =====
-- The counts of an object: what GetCountByObject answers, before and after a change of one count.
use lancelot.Base.{
  ℕ, ◌+◌, ◌%◌, ◌^◌, ◌≡◌, refl, ap, ◌∙◌, Option, none, some, List, [], ◌∷◌, ◌++◌, inl, inr,
  Bool-cases, Bytes, arith, bytes_eq, bytes_lt, bytes_eq_refl, bytes_eq→eq,
}
use lancelot.Base.Int.{
  ℤ, pos, ◌+ℤ◌, wrap_int64, uint64_of, IsInt64, IsInt64-eq, uint64_of-add, uint64_of-wrap_int64,
  uint64_of-lt, wrap_int64-IsInt64,
}
use lancelot.Utils.Bytes.Order.{bytes_lt_irrefl, bytes_lt_total}
use lancelot.Store.Scan.Laws.{Entry, IsAscending, lookup, upsert, fold}
use lancelot.Store.Scan.Entries.{lookup-Above, Above-trans}
use lancelot.Command.Count.{Count, decode_count}
use lancelot.Command.Elements.{add_count, sum_counts}

abbrev blank : Bytes → Count
blank k = record { timestamp = 0; value = pos 0; key = k; shard = 0; user_value = [] }

-- The value of an encoded count.
abbrev pub count_of : Bytes → ℤ
count_of v = (decode_count (blank []) v).value

pub decode_count-count_of : (c : Count) (v : Bytes) → (decode_count c v).value ≡ count_of v
unfolding decode_count
decode_count-count_of c v = refl

-- GetCountByObject's sum over the entries.
abbrev pub sum_entries : ℤ → List Entry → ℤ
sum_entries s [] = s
sum_entries s ((k, v) ∷ es) = sum_entries (wrap_int64 (s +ℤ count_of v)) es

sum_counts-append :
    (s : ℤ) (cs ds : List Count) → sum_counts s (cs ++ ds) ≡ sum_counts (sum_counts s cs) ds
sum_counts-append s [] ds = refl
sum_counts-append s (c ∷ cs) ds = sum_counts-append (wrap_int64 (s +ℤ c.value)) cs ds

pub sum_counts-fold :
    (s : ℤ) (cs : List Count) (es : List Entry)
    → sum_counts s (fold add_count cs es) ≡ sum_entries (sum_counts s cs) es
sum_counts-fold s cs [] = refl
sum_counts-fold s cs ((k, v) ∷ es) =
    sum_counts-fold s (add_count cs k v) es
    ∙ ap (λ x. sum_entries x es) (sum_counts-append s cs (decode_count (blank k) v ∷ []))
    ∙ ap (λ x. sum_entries (wrap_int64 (sum_counts s cs +ℤ x)) es)
        (decode_count-count_of (blank k) v)

-- The words of the counts.
abbrev pub tally : List Entry → ℕ
tally [] = 0
tally ((k, v) ∷ es) = uint64_of (count_of v) + tally es

-- The sum, as a word, is the sum of the words modulo 2 ^ 64.
pub sum_entries-tally :
    (s : ℤ) (es : List Entry) → uint64_of (sum_entries s es) ≡ (uint64_of s + tally es) % 2 ^ 64
sum_entries-tally s [] = omega (arith, uint64_of-lt s)
sum_entries-tally s ((k, v) ∷ es) = omega (
  arith,
  sum_entries-tally (wrap_int64 (s +ℤ count_of v)) es,
  uint64_of-wrap_int64 (s +ℤ count_of v),
  uint64_of-add s (count_of v),
)

pub sum_entries-IsInt64 : (s : ℤ) (es : List Entry) → IsInt64 s → IsInt64 (sum_entries s es)
sum_entries-IsInt64 s [] h = h
sum_entries-IsInt64 s ((k, v) ∷ es) h =
    sum_entries-IsInt64 (wrap_int64 (s +ℤ count_of v)) es (wrap_int64-IsInt64 _)

-- The word of the count at a key, which is 0 where there is none.
abbrev pub word_at : Option Bytes → ℕ
word_at none = 0
word_at (some v) = uint64_of (count_of v)

-- Storing a count changes the sum of the words by its own change.
pub tally-upsert :
    (k v : Bytes) (es : List Entry)
    → IsAscending es
    → tally (upsert k v es) + word_at (lookup es k) ≡ tally es + uint64_of (count_of v)
tally-upsert k v [] h = omega arith
tally-upsert k v ((j, w) ∷ es) h = elim (Bool-cases (bytes_eq j k)) [
  | inl e ↦
      let same = bytes_eq→eq j k e in rw (same, bytes_lt_irrefl k, bytes_eq_refl k) (omega arith)
  | inr e ↦ elim (Bool-cases (bytes_lt j k)) [
    | inl l ↦ rw (e, l) (omega (arith, tally-upsert k v es h.1))
    | inr l ↦
        let gone = lookup-Above k es (Above-trans k j es (bytes_lt_total j k l e) h.0) in
        rw (e, l, gone) (omega arith)
  ]
]

pub zero-IsInt64 : IsInt64 (pos 0)
zero-IsInt64 = record { above = omega arith; below = omega arith }

-- Storing a count with `delta` more raises the sum by `delta`, where both wrap.
pub sum_entries-upsert :
    (k v : Bytes) (es : List Entry) (n delta : ℤ)
    → IsAscending es
    → uint64_of n ≡ word_at (lookup es k)
    → count_of v ≡ wrap_int64 (n +ℤ delta)
    → sum_entries (pos 0) (upsert k v es) ≡ wrap_int64 (sum_entries (pos 0) es +ℤ delta)
sum_entries-upsert k v es n delta h w e =
    IsInt64-eq (sum_entries (pos 0) (upsert k v es)) (wrap_int64 (sum_entries (pos 0) es +ℤ delta))
      (sum_entries-IsInt64 (pos 0) (upsert k v es) zero-IsInt64)
      (wrap_int64-IsInt64 (sum_entries (pos 0) es +ℤ delta))
      (omega (
        arith,
        w,
        ap uint64_of e,
        tally-upsert k v es h,
        sum_entries-tally (pos 0) (upsert k v es),
        sum_entries-tally (pos 0) es,
        uint64_of-wrap_int64 (n +ℤ delta),
        uint64_of-add n delta,
        uint64_of-wrap_int64 (sum_entries (pos 0) es +ℤ delta),
        uint64_of-add (sum_entries (pos 0) es) delta,
        uint64_of-lt n,
      ))
