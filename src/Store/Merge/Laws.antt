-- ===== src/Store/Merge/Laws.antt =====
-- IterList.Next makes progress: each entry is pushed once and popped once.
use lancelot.Base.{
  ℕ, suc, ◌+◌, ◌<◌, ◌≤◌, ◌≡◌, refl, Option, none, some, List, [], ◌∷◌, inl, inr, Bytes, arith,
  length, if◌then◌else◌,
}
use lancelot.Store.Kv.{Cursor, ended, broken, item}
use lancelot.Store.Error.{ok, Result-cases}
use lancelot.Store.Merge.{
  IterScan, Pair, push, pull, pull_all, next, is_valid, count_items, count_all,
}

abbrev got_size : Option Pair → ℕ
got_size none = 0
got_size (some x) = 1

-- What is left after a pull, with the entry that it has got, is no more than before.
pull-size :
    {F : Type 0} (prefix : Bytes) (idx : ℕ) (c c' : Cursor F) (got : Option Pair)
    → pull prefix idx c ≡ ok (got, c')
    → got_size got + count_items c' ≤ count_items c
unfolding pull
pull-size prefix idx ended c' got h = ground (arith, h)
pull-size prefix idx (broken f) c' got h = ground (arith, h)
pull-size prefix idx (item k v rest) c' got h = ground (arith, h, pull-size prefix idx rest c' got)

pub length-push : (x : Pair) (heap : List Pair) → length (push x heap) ≡ suc (length heap)
unfolding push
length-push x [] = refl
length-push x (y ∷ ys) = ground (arith, length-push x ys)

abbrev pushed : Option Pair → List Pair → List Pair
pushed got heap = elim got [ none ↦ heap | some x ↦ push x heap ]

length-pushed :
    (got : Option Pair) (heap : List Pair) → length (pushed got heap) ≡ got_size got + length heap
length-pushed none heap = omega arith
length-pushed (some x) heap = omega (arith, length-push x heap)

count_all-valid :
    {F : Type 0} (it : IterScan F) (its : List (IterScan F)) (c : Cursor F)
    → count_all (if is_valid c then record it { iter = c } ∷ its else its)
      ≤ count_items c + count_all its
count_all-valid it its ended = ground arith
count_all-valid it its (broken f) = ground arith
count_all-valid it its (item k v rest) = ground arith

pull_all-size :
    {F : Type 0} (its its' : List (IterScan F)) (heap heap' : List Pair)
    → pull_all its heap ≡ ok (its', heap')
    → count_all its' + length heap' ≤ count_all its + length heap
unfolding pull_all
pull_all-size [] its' heap heap' h = ground (arith, h)
pull_all-size (it ∷ its) its' heap heap' h = elim (Result-cases (pull it.prefix it.idx it.iter)) [
  | inr (x, e) ↦ absurd (ground (arith, h, e))
  | inl ((got, c), e) ↦ elim (Result-cases (pull_all its (pushed got heap))) [
    | inr (x, d) ↦ absurd (ground (arith, h, e, d))
    | inl ((its1, heap1), d) ↦ ground (
      arith,
      h,
      e,
      d,
      pull-size it.prefix it.idx it.iter c got e,
      pull_all-size its its1 (pushed got heap) heap1 d,
      length-pushed got heap,
      count_all-valid it its1 c,
    )
  ]
]

-- A Next that answers with an entry leaves one entry less.
pub next-size :
    {F : Type 0} (its its' : List (IterScan F)) (heap heap' : List Pair) (x : Pair)
    → next its heap ≡ ok (some x, its', heap')
    → count_all its' + length heap' < count_all its + length heap
unfolding next
next-size its its' heap heap' x h = elim (Result-cases (pull_all its heap)) [
  | inr (y, e) ↦ absurd (ground (arith, h, e))
  | inl ((its1, []), e) ↦ absurd (ground (arith, h, e))
  | inl ((its1, y ∷ heap1), e) ↦ ground (arith, h, e, pull_all-size its its1 heap (y ∷ heap1) e)
]
