-- ===== src/Store/Merge.antt =====
-- store/iter.go and utils/heap.go: several iterators side by side.
pub mod Laws
pub mod Seek
use lancelot.Base.{
  ℕ, zero, suc, ◌+◌, ◌≡◌, Bool, true, false, not, ◌&&◌, ◌||◌, Option, none, some, List, [], ◌∷◌,
  ◌++◌, leb, ltb, ◌==◌, if◌then◌else◌, Bytes, length, drop, take, bytes_lt, bytes_eq,
}
use lancelot.Store.Kv.{Cursor, ended, broken, item}
use lancelot.Store.Error.{Error, Result, ok, err, fault}

-- IterScan
pub record IterScan (F : Type 0) : Type 0 where
  pub prefix : Bytes
  pub current : Bytes
  pub cur_value : Option Bytes
  pub idx : ℕ
  pub iter : Cursor F

-- Add: an iterator starts with its prefix for its current key.
unfoldable pub new_iter_scan : {F : Type 0} → Bytes → ℕ → Cursor F → IterScan F
new_iter_scan prefix idx iter = record {
  prefix = prefix;
  current = prefix;
  cur_value = none;
  idx = idx;
  iter = iter;
}

-- KV of utils/heap.go
pub record Pair : Type 0 where
  pub idx : ℕ
  pub key : Bytes
  pub value : Bytes

-- Less of BytesHeap
unfoldable pub less : Pair → Pair → Bool
less a b = bytes_lt a.key b.key

-- `heap.Push` and `heap.Pop` of container/heap keep a heap whose first element is a least one; here
-- its elements stand in their order.
unfoldable pub push : Pair → List Pair → List Pair
push x [] = x ∷ []
push x (y ∷ ys) = let later = push x ys in if less x y then x ∷ y ∷ ys else y ∷ later

-- `it.iter.Next()`: the iterator after its entry, or the error.
abbrev pub step : {F : Type 0} → Cursor F → Result F (Cursor F)
step (broken f) = err (fault f)
step c = ok c

-- The inner loop of IterList.Next: the next entry below the prefix, if any, and the iterator after it.
unfoldable pub pull : {F : Type 0} → Bytes → ℕ → Cursor F → Result F (Option Pair × Cursor F)
pull prefix idx ended = ok (none, ended)
pull prefix idx (broken f) = err (fault f)
pull prefix idx (item k v rest) =
    let later = pull prefix idx rest in
    if leb (length prefix) (length k)
    then (elim (step rest) [
      | err e ↦ err e
      | ok c ↦ ok (some (record { idx = idx; key = drop (length prefix) k; value = v }), c)
    ])
    else later

abbrev pub is_valid : {F : Type 0} → Cursor F → Bool
is_valid (item k v rest) = true
is_valid _ = false

-- The outer loop of IterList.Next over the map of iterators; one that is at its end is deleted.
unfoldable pub pull_all :
    {F : Type 0} → List (IterScan F) → List Pair → Result F (List (IterScan F) × List Pair)
pull_all [] heap = ok ([], heap)
pull_all (it ∷ its) heap = elim (pull it.prefix it.idx it.iter) [
  | err e ↦ err e
  | ok (got, rest) ↦ elim (pull_all its (elim got [ none ↦ heap | some x ↦ push x heap ])) [
    | err e ↦ err e
    | ok (its', heap') ↦
        ok (if is_valid rest then record it { iter = rest } ∷ its' else its', heap')
  ]
]

-- IterList.Next; `none` is a KV without a key.
unfoldable pub next :
    {F : Type 0}
    → List (IterScan F)
    → List Pair
    → Result F (Option Pair × List (IterScan F) × List Pair)
next its heap = elim (pull_all its heap) [
  | err e ↦ err e
  | ok (its', []) ↦ ok (none, its', [])
  | ok (its', x ∷ heap') ↦ ok (some x, its', heap')
]

-- The entries that are left.
abbrev pub count_items : {F : Type 0} → Cursor F → ℕ
count_items ended = 0
count_items (broken f) = 0
count_items (item k v rest) = suc (count_items rest)

abbrev pub count_all : {F : Type 0} → List (IterScan F) → ℕ
count_all [] = 0
count_all (it ∷ its) = count_items it.iter + count_all its

-- What NextUntil finds in one iterator: whether the key is there, or that the iterator is past it.
pub data Sought : Type 0 where
  sought_found sought_past sought_missing : Sought

-- The inner loop of NextUntil.
unfoldable pub seek :
    {F : Type 0} → Bytes → Bytes → IterScan F → Cursor F → Result F (Sought × IterScan F)
seek prefix key it ended = ok (sought_missing, record it { iter = ended })
seek prefix key it (broken f) = err (fault f)
seek prefix key it (item k v rest) =
    let it' : IterScan _ = record it { current = k; cur_value = some v; iter = rest } in
    let later = seek prefix key it' rest in
    elim (step rest) [
      | err e ↦ err e
      | ok c ↦
          if not (leb (length prefix) (length k))
          then later
          else if bytes_lt (drop (length prefix) k) key
          then later
          else if bytes_eq (drop (length prefix) k) key
          then ok (sought_found, it')
          else ok (sought_past, it')
    ]

-- NextUntil for one iterator.
unfoldable pub until : {F : Type 0} → Bytes → IterScan F → Result F (Sought × IterScan F)
until key it =
    let searched = seek it.prefix key it it.iter in
    let here = drop (length it.prefix) it.current in
    if leb (length it.prefix) (length it.current)
    then (if bytes_eq here key
        then ok (sought_found, it)
        else if bytes_lt key here
        then ok (sought_past, it)
        else searched)
    else searched

-- NextUntil with `all`: whether every iterator has the key. The first that is past it ends the loop.
unfoldable pub until_all :
    {F : Type 0} → Bytes → List (IterScan F) → Result F (Bool × List (IterScan F))
until_all key [] = ok (true, [])
until_all key (it ∷ its) = elim (until key it) [
  | err e ↦ err e
  | ok (sought_past, it') ↦ ok (false, it' ∷ its)
  | ok (sought_missing, it') ↦ elim (until_all key its) [
    | err e ↦ err e
    | ok (found, its') ↦ ok (false, it' ∷ its')
  ]
  | ok (sought_found, it') ↦ elim (until_all key its) [
    | err e ↦ err e
    | ok (found, its') ↦ ok (found, it' ∷ its')
  ]
]

-- NextUntil without `all`: whether some iterator has the key. The first that has it ends the loop.
unfoldable pub until_any :
    {F : Type 0} → Bytes → List (IterScan F) → Result F (Bool × List (IterScan F))
until_any key [] = ok (false, [])
until_any key (it ∷ its) = elim (until key it) [
  | err e ↦ err e
  | ok (sought_found, it') ↦ ok (true, it' ∷ its)
  | ok (_, it') ↦ elim (until_any key its) [
    | err e ↦ err e
    | ok (found, its') ↦ ok (found, it' ∷ its')
  ]
]
