-- ===== src/Command/Strings/SetRange.antt =====
-- command/string.go: SETRANGE.
use mathlib.Core.Option
use lancelot.Base.{
  ℕ, zero, suc, ◌+◌, ◌-◌, ◌^◌, ◌≤◌, ◌<◌, ◌≡◌, refl, true, ◌&&◌, Option, none, some, List, [], ◌∷◌,
  ◌++◌, ltb, leb, if◌then◌else◌, ◌==◌, Bytes, codes, length, take, drop, replicate, get_or, arith,
  length-append, length-replicate, ap, inl, inr, Bool-cases,
}
use lancelot.Base.Int.{pos, ltb_ℤ, pos_part}
use lancelot.Base.Decimal.{parse_int}
use lancelot.Store.Kv.{Kv}
use lancelot.Store.Error.{Result, ok, err, not_integer, offset}
use lancelot.Store.Txn.{Txn, Exec, ◌>>◌, pure}
use lancelot.Command.Object.{Object, bytes_of, object_key, string_type}
use lancelot.Command.Access.{Change, new_object, with_object, plus_count, no_change}
use lancelot.Command.Hash.Read.{Outcome}
use lancelot.Command.Reply.{Reply, simple_int, set_error, set_wrong_args}
use lancelot.Command.Strings.Write.{store_object}

-- The bytes that SETRANGE makes of `old`: zeros fill a gap.
abbrev pub overwritten : Bytes → ℕ → Bytes → Bytes
overwritten old at patch =
    if ltb (length old) (at + length patch)
    then (if ltb (length old) at
        then old ++ (replicate (at - length old) 0 ++ patch)
        else take at old ++ patch)
    else take at old ++ (patch ++ drop (at + length patch) old)

-- The same, or `none` where `offset+len(args[2])` wraps to a negative int: then `make`, or the slice
-- at the offset of a shorter string, panics. The runtime's limit on the size of a `make` is left out.
unfoldable pub overwrite : Bytes → ℕ → Bytes → Option Bytes
overwrite old at patch =
    if ltb (at + length patch) (2 ^ 63) then some (overwritten old at patch) else none

module _ {kv : Kv} where
  -- SetRangeHandle, once the offset and the object are known; `none` is the panic.
  unfoldable pub store_range :
      Bytes → Change → ℕ → Bytes → Object → Exec kv (Option (Reply kv.Fault))
  store_range key create at patch o =
      if at + length patch == 0
      then pure (some (simple_int (pos (length (bytes_of o.value)))))
      else elim (overwrite (bytes_of o.value) at patch) [
        | none ↦ pure none
        | some value ↦
            store_object key create (record o { value = some value })
            >> pure (some (simple_int (pos (length value))))
      ]

  -- The reply of a handler that may have panicked.
  unfoldable pub range_outcome : Result kv.Fault (Option (Reply kv.Fault)) × Txn kv → Outcome kv
  range_outcome (err e, t) = some (set_error e t)
  range_outcome (ok none, t) = none
  range_outcome (ok (some r), t) = some (r, t)

  -- SetRangeHandle; a key without an object starts from nothing.
  unfoldable pub setrange_handle : List Bytes → Txn kv → Outcome kv
  setrange_handle (key ∷ at ∷ patch ∷ []) t = elim (parse_int at) [
    | none ↦ some (set_error not_integer t)
    | some n ↦
        if ltb_ℤ n (pos 0)
        then some (set_error offset t)
        else (let o = new_object t string_type key in
            range_outcome (
              with_object (object_key o) o true
                (λ o'.
                  store_range (object_key o) plus_count (pos_part n) patch
                    (record o' { value = none }))
                (λ o'. store_range (object_key o) no_change (pos_part n) patch o') t))
  ]
  setrange_handle _ t = some (set_wrong_args (codes "setrange") t)

-- The byte at a position after SETRANGE, by what was there and what is written.
abbrev pub byte_after : Bytes → ℕ → Bytes → ℕ → ℕ
byte_after old at patch i =
    if leb at i && ltb i (at + length patch) then get_or patch (i - at) 0 else get_or old i 0

get_or-take : (n : ℕ) (xs : Bytes) (i : ℕ) → i < n → get_or (take n xs) i 0 ≡ get_or xs i 0
get_or-take zero xs i h = absurd (omega arith)
get_or-take (suc n) [] i h = refl
get_or-take (suc n) (x ∷ xs) zero h = refl
get_or-take (suc n) (x ∷ xs) (suc i) h = get_or-take n xs i (omega arith)

get_or-drop : (n : ℕ) (xs : Bytes) (i j : ℕ) → j ≡ n + i → get_or (drop n xs) i 0 ≡ get_or xs j 0
get_or-drop zero xs i j h = ground arith
get_or-drop (suc n) [] i j h = refl
get_or-drop (suc n) (x ∷ xs) i zero h = absurd (omega arith)
get_or-drop (suc n) (x ∷ xs) i (suc j) h = get_or-drop n xs i j (omega arith)

get_or-append :
    (xs ys : Bytes) (i : ℕ)
    → get_or (xs ++ ys) i 0
      ≡ (if ltb i (length xs) then get_or xs i 0 else get_or ys (i - length xs) 0)
get_or-append [] ys i = ground arith
get_or-append (x ∷ xs) ys zero = ground arith
get_or-append (x ∷ xs) ys (suc i) = ground (arith, get_or-append xs ys i)

pub get_or-past : (xs : Bytes) (i : ℕ) → length xs ≤ i → get_or xs i 0 ≡ 0
get_or-past [] i h = refl
get_or-past (x ∷ xs) zero h = absurd (omega arith)
get_or-past (x ∷ xs) (suc i) h = get_or-past xs i (omega arith)

get_or-replicate : (n i : ℕ) → get_or (replicate {A = ℕ} n 0) i 0 ≡ 0
get_or-replicate zero i = refl
get_or-replicate (suc n) zero = refl
get_or-replicate (suc n) (suc i) = get_or-replicate n i

length-take : (n : ℕ) (xs : Bytes) → n ≤ length xs → length (take n xs) ≡ n
length-take zero xs h = refl
length-take (suc n) [] h = absurd (omega arith)
length-take (suc n) (x ∷ xs) h = ap suc (length-take n xs (omega arith))

length-drop : (n : ℕ) (xs : Bytes) → length (drop n xs) ≡ length xs - n
length-drop zero xs = omega arith
length-drop (suc n) [] = omega arith
length-drop (suc n) (x ∷ xs) = omega (arith, length-drop n xs)

overwritten-get_or :
    (old : Bytes) (at : ℕ) (patch : Bytes) (i : ℕ)
    → get_or (overwritten old at patch) i 0 ≡ byte_after old at patch i
overwritten-get_or old at patch i = ground (
  arith,
  get_or-append old (replicate (at - length old) 0 ++ patch) i,
  get_or-append (replicate (at - length old) 0) patch (i - length old),
  length-replicate {A = ℕ} (at - length old) 0,
  get_or-replicate (at - length old) (i - length old),
  get_or-past old i,
  get_or-past patch (i - at),
  get_or-append (take at old) patch i,
  length-take at old,
  get_or-take at old i,
  get_or-append (take at old) (patch ++ drop (at + length patch) old) i,
  get_or-append patch (drop (at + length patch) old) (i - at),
  get_or-drop (at + length patch) old (i - at - length patch) i,
)

-- Given the memory for its result, SETRANGE makes bytes where the end of what is written is an int,
-- and otherwise it panics. Each byte that it makes is the one written there, or the one that was
-- there; a gap before the written bytes is zero.
pub overwrite-get_or :
    (old : Bytes) (at : ℕ) (patch : Bytes) (i : ℕ)
    → Option.map (λ value. get_or value i 0) (overwrite old at patch)
      ≡ (if ltb (at + length patch) (2 ^ 63) then some (byte_after old at patch i) else none)
unfolding overwrite
overwrite-get_or old at patch i = elim (Bool-cases (ltb (at + length patch) (2 ^ 63))) [
  | inl h ↦ rw h (ap some (overwritten-get_or old at patch i))
  | inr h ↦ rw h refl
]

-- The length after SETRANGE: the string grows to the end of what is written, and never shrinks.
pub overwritten-length :
    (old : Bytes) (at : ℕ) (patch : Bytes)
    → length (overwritten old at patch)
      ≡ (if ltb (length old) (at + length patch) then at + length patch else length old)
overwritten-length old at patch = ground (
  arith,
  length-append old (replicate (at - length old) 0 ++ patch),
  length-append (replicate (at - length old) 0) patch,
  length-replicate {A = ℕ} (at - length old) 0,
  length-append (take at old) patch,
  length-take at old,
  length-append (take at old) (patch ++ drop (at + length patch) old),
  length-append patch (drop (at + length patch) old),
  length-drop (at + length patch) old,
)
