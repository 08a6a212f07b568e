-- ===== src/Store/Scan/Entries.antt =====
-- Lists of entries in the order of their keys: what is found in them after a change.
use lancelot.Base.{
  ◌≡◌, refl, sym, true, none, some, [], ◌∷◌, List, Bytes, arith, if◌then◌else◌, bytes_lt, bytes_eq,
  bytes_eq_refl, bytes_eq→eq, Bool-cases, inl, inr,
}
use lancelot.Utils.Bytes.Order.{bytes_lt_irrefl, bytes_lt_trans, bytes_lt_total}
use lancelot.Store.Scan.Laws.{Entry, Above, IsAscending, lookup, upsert, remove}

pub Above-trans : (j k : Bytes) (es : List Entry) → bytes_lt j k ≡ true → Above k es → Above j es
Above-trans j k [] h a = tt
Above-trans j k (e ∷ es) h a = (bytes_lt_trans j k e.0 h a.0, Above-trans j k es h a.1)

pub Above-upsert :
    (j k v : Bytes) (es : List Entry) → bytes_lt j k ≡ true → Above j es → Above j (upsert k v es)
Above-upsert j k v [] h a = (h, tt)
Above-upsert j k v ((i, w) ∷ es) h a = ground (arith, Above-upsert j k v es)

pub Above-remove : (j k : Bytes) (es : List Entry) → Above j es → Above j (remove k es)
Above-remove j k [] a = tt
Above-remove j k ((i, w) ∷ es) a = ground (arith, Above-remove j k es)

pub upsert-IsAscending :
    (k v : Bytes) (es : List Entry) → IsAscending es → IsAscending (upsert k v es)
upsert-IsAscending k v [] h = (tt, tt)
upsert-IsAscending k v ((j, w) ∷ es) h = elim (Bool-cases (bytes_lt j k)) [
  | inl l ↦ ground (arith, l, upsert-IsAscending k v es, Above-upsert j k v es)
  | inr l ↦ elim (Bool-cases (bytes_eq j k)) [
    | inl e ↦ let same = bytes_eq→eq j k e in ground (arith, l, e, same)
    | inr e ↦ ground (arith, l, e, bytes_lt_total j k l e, Above-trans k j es)
  ]
]

pub remove-IsAscending : (k : Bytes) (es : List Entry) → IsAscending es → IsAscending (remove k es)
remove-IsAscending k [] h = tt
remove-IsAscending k ((j, w) ∷ es) h =
    ground (arith, remove-IsAscending k es, Above-remove j k (es))

pub lookup-Above : (k : Bytes) (es : List Entry) → Above k es → lookup es k ≡ none
lookup-Above k [] h = refl
lookup-Above k ((j, w) ∷ es) h = elim (Bool-cases (bytes_eq j k)) [
  | inl e ↦ let same = bytes_eq→eq j k e in absurd (ground (arith, same, h.0, bytes_lt_irrefl k))
  | inr e ↦ ground (arith, e, lookup-Above k es h.1)
]

pub upsert-Above : (k v : Bytes) (es : List Entry) → Above k es → upsert k v es ≡ (k, v) ∷ es
upsert-Above k v [] h = refl
upsert-Above k v ((j, w) ∷ es) h = elim (Bool-cases (bytes_eq j k)) [
  | inl e ↦ let same = bytes_eq→eq j k e in absurd (ground (arith, same, h.0, bytes_lt_irrefl k))
  | inr e ↦ elim (Bool-cases (bytes_lt j k)) [
    | inl l ↦ absurd (ground (arith, bytes_lt_trans j k j l h.0, bytes_lt_irrefl j))
    | inr l ↦ ground (arith, e, l)
  ]
]

pub lookup-upsert :
    (k v j : Bytes) (es : List Entry)
    → lookup (upsert k v es) j ≡ (if bytes_eq k j then some v else lookup es j)
lookup-upsert k v j [] = refl
lookup-upsert k v j ((i, w) ∷ es) = elim (Bool-cases (bytes_eq i k)) [
  | inl e ↦
      let same = bytes_eq→eq i k e in
      ground (arith, same, e, lookup-upsert k v j es, bytes_lt_irrefl k)
  | inr e ↦ elim (Bool-cases (bytes_eq i j)) [
    | inl f ↦
        let same = bytes_eq→eq i j f in
        ground (arith, same, e, f, lookup-upsert k v j es, bytes_eq→eq k j, bytes_eq_refl j)
    | inr f ↦ ground (arith, e, f, lookup-upsert k v j es)
  ]
]

pub lookup-remove :
    (k j : Bytes) (es : List Entry)
    → IsAscending es
    → lookup (remove k es) j ≡ (if bytes_eq k j then none else lookup es j)
lookup-remove k j [] h = ground arith
lookup-remove k j ((i, w) ∷ es) h = elim (Bool-cases (bytes_eq i k)) [
  | inl e ↦
      let same = bytes_eq→eq i k e in
      elim (Bool-cases (bytes_eq k j)) [
        | inl f ↦
            let also = bytes_eq→eq k j f in
            rw (e, f) (rw (sym also, sym same) (lookup-Above i es h.0))
        | inr f ↦ ground (arith, same, e, f)
      ]
  | inr e ↦
      ground (arith, e, lookup-remove k j es h.1, bytes_eq→eq k j, bytes_eq→eq i j, bytes_eq_refl j)
]
