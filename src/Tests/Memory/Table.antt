-- ===== src/Tests/Memory/Table.antt =====
-- The entries of a log in the order of their keys, for the iterators of the store in memory.
use lancelot.Base.{
  ◌≡◌, refl, ap, true, false, none, List, [], ◌∷◌, Bytes, arith, if◌then◌else◌, bytes_lt, bytes_eq,
  bytes_eq→eq, Bool-cases, inl, inr,
}
use lancelot.Utils.Bytes.Order.{bytes_lt_irrefl, bytes_lt_total}
use lancelot.Store.Kv.{Found, found, missing, failed, Cursor, ended, item}
use lancelot.Store.Scan.Entries.{Above-trans, upsert-Above, upsert-IsAscending, remove-IsAscending}
use lancelot.Store.Scan.Laws.{
  Entry, entries, ending, in_range, AreWithin, Above, IsAscending, lookup, upsert, remove,
}

abbrev pub Log : Type 0
Log = List (Bytes × Found Bytes)

abbrev pub table : Log → List Entry
table [] = []
table ((k, found v) ∷ s) = upsert k v (table s)
table ((k, missing) ∷ s) = remove k (table s)
table ((k, failed f) ∷ s) = table s

abbrev pub restrict : Bytes → Bytes → List Entry → List Entry
restrict a b [] = []
restrict a b ((k, v) ∷ es) =
    let later = restrict a b es in if in_range a b k then (k, v) ∷ later else later

abbrev pub cursor_of : List Entry → Cursor Bytes
cursor_of [] = ended
cursor_of ((k, v) ∷ es) = item k v (cursor_of es)

pub entries-cursor_of : (es : List Entry) → entries (cursor_of es) ≡ es
entries-cursor_of [] = refl
entries-cursor_of ((k, v) ∷ es) = ap (◌∷◌ (k, v)) (entries-cursor_of es)

pub ending-cursor_of : (es : List Entry) → ending (cursor_of es) ≡ none
ending-cursor_of [] = refl
ending-cursor_of ((k, v) ∷ es) = ending-cursor_of es

pub table-IsAscending : (s : Log) → IsAscending (table s)
table-IsAscending [] = tt
table-IsAscending ((k, found v) ∷ s) = upsert-IsAscending k v (table s) (table-IsAscending s)
table-IsAscending ((k, missing) ∷ s) = remove-IsAscending k (table s) (table-IsAscending s)
table-IsAscending ((k, failed f) ∷ s) = table-IsAscending s

Above-restrict : (j a b : Bytes) (es : List Entry) → Above j es → Above j (restrict a b es)
Above-restrict j a b [] h = tt
Above-restrict j a b ((k, v) ∷ es) h = ground (arith, Above-restrict j a b es)

pub restrict-IsAscending :
    (a b : Bytes) (es : List Entry) → IsAscending es → IsAscending (restrict a b es)
restrict-IsAscending a b [] h = tt
restrict-IsAscending a b ((k, v) ∷ es) h =
    ground (arith, restrict-IsAscending a b es, Above-restrict k a b es)

pub restrict-AreWithin : (a b : Bytes) (es : List Entry) → AreWithin a b (restrict a b es)
restrict-AreWithin a b [] = tt
restrict-AreWithin a b ((k, v) ∷ es) = ground (arith, restrict-AreWithin a b es)

pub lookup-restrict :
    (a b k : Bytes) (es : List Entry)
    → in_range a b k ≡ true
    → lookup (restrict a b es) k ≡ lookup es k
lookup-restrict a b k [] h = refl
lookup-restrict a b k ((j, v) ∷ es) h = ground (arith, h, lookup-restrict a b k es, bytes_eq→eq j k)

pub restrict-upsert :
    (a b k v : Bytes) (es : List Entry)
    → IsAscending es
    → in_range a b k ≡ true
    → restrict a b (upsert k v es) ≡ upsert k v (restrict a b es)
restrict-upsert a b k v [] h i = ground (arith, i)
restrict-upsert a b k v ((j, w) ∷ es) h i = elim (Bool-cases (bytes_eq j k)) [
  | inl e ↦
      let same = bytes_eq→eq j k e in
      ground (arith, same, e, i, restrict-upsert a b k v es, bytes_lt_irrefl k)
  | inr e ↦ elim (Bool-cases (bytes_lt j k)) [
    | inl l ↦ ground (arith, e, l, i, restrict-upsert a b k v es h.1 i)
    | inr l ↦ ground (
      arith,
      e,
      l,
      i,
      bytes_lt_total j k l e,
      upsert-Above k v (restrict a b es)
          (Above-restrict k a b es (Above-trans k j es (bytes_lt_total j k l e) h.0)),
    )
  ]
]

pub restrict-remove :
    (a b k : Bytes) (es : List Entry)
    → in_range a b k ≡ true
    → restrict a b (remove k es) ≡ remove k (restrict a b es)
restrict-remove a b k [] i = refl
restrict-remove a b k ((j, w) ∷ es) i = elim (Bool-cases (bytes_eq j k)) [
  | inl e ↦ let same = bytes_eq→eq j k e in ground (arith, same, e, i, restrict-remove a b k es)
  | inr e ↦ ground (arith, e, i, restrict-remove a b k es)
]

pub restrict-upsert_out :
    (a b k v : Bytes) (es : List Entry)
    → in_range a b k ≡ false
    → restrict a b (upsert k v es) ≡ restrict a b es
restrict-upsert_out a b k v [] i = ground (arith, i)
restrict-upsert_out a b k v ((j, w) ∷ es) i = elim (Bool-cases (bytes_eq j k)) [
  | inl e ↦
      let same = bytes_eq→eq j k e in ground (arith, same, e, i, restrict-upsert_out a b k v es)
  | inr e ↦ ground (arith, e, i, restrict-upsert_out a b k v es)
]

pub restrict-remove_out :
    (a b k : Bytes) (es : List Entry)
    → in_range a b k ≡ false
    → restrict a b (remove k es) ≡ restrict a b es
restrict-remove_out a b k [] i = refl
restrict-remove_out a b k ((j, w) ∷ es) i = elim (Bool-cases (bytes_eq j k)) [
  | inl e ↦ let same = bytes_eq→eq j k e in ground (arith, same, e, i, restrict-remove_out a b k es)
  | inr e ↦ ground (arith, e, i, restrict-remove_out a b k es)
]
