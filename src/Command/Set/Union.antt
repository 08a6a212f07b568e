-- ===== src/Command/Set/Union.antt =====
-- SUNION: its loop ends, and what it makes of the empty member.
use lancelot.Base.{
  ℕ, zero, suc, ◌+◌, ◌<◌, ◌≡◌, refl, none, some, List, [], ◌∷◌, ◌++◌, inl, inr, Bytes, arith,
  length, if◌then◌else◌,
}
use lancelot.Store.Kv.{Kv}
use lancelot.Store.Error.{Error, Result, ok, err, Result-cases}
use lancelot.Store.Txn.{Txn}
use lancelot.Store.Merge.{IterScan, Pair, next, count_all}
use lancelot.Store.Merge.Laws.{next-size}
use lancelot.Command.Object.{Slice}
use lancelot.Command.Set.Merged.{union_loop, union_iters, union, is_new}

-- With more fuel than entries the loop of union answers.
union_loop-total :
    {F : Type 0} (fuel : ℕ) (its : List (IterScan F)) (heap : List Pair) (last : Slice)
    (ret : List Slice)
    → count_all its + length heap < fuel
    → (r : Result F (List Slice)) × (union_loop fuel its heap last ret ≡ some r)
unfolding union_loop
union_loop-total zero its heap last ret h = absurd (ground (arith, h))
union_loop-total (suc fuel) its heap last ret h = elim (Result-cases (next its heap)) [
  | inr (e, n) ↦ (err e, rw (union_loop, n) refl)
  | inl ((none, its', heap'), n) ↦
      (ok (if is_new last none then ret ++ last ∷ [] else ret), rw (union_loop, n) refl)
  | inl ((some x, its', heap'), n) ↦
      (let (r, e) =
          union_loop-total fuel its' heap' (some x.key)
            (if is_new last (some x.key) then ret ++ last ∷ [] else ret)
            (omega (arith, h, next-size its its' heap heap' x n)) in
        (r, rw (union_loop, n) e))
]

module _ {kv : Kv} where
  union-eq :
      (args : List Bytes) (t : Txn kv) (its : List (IterScan kv.Fault))
      (r : Result kv.Fault (List Slice))
      → (union_iters args 0 t).0 ≡ ok its
      → union_loop (suc (count_all its)) its [] none [] ≡ some r
      → union args t ≡ some (r, (union_iters args 0 t).1)
  unfolding union
  union-eq args t its r n e = rw (union, n, e) refl

  union-failed :
      (args : List Bytes) (t : Txn kv) (x : Error kv.Fault)
      → (union_iters args 0 t).0 ≡ err x
      → union args t ≡ some (err x, (union_iters args 0 t).1)
  unfolding union
  union-failed args t x n = rw (union, n) refl

  -- SUNION of any keys, in any store, answers: its loop takes at most one turn for each entry of the
  -- sets and one more.
  pub union-total :
      (args : List Bytes) (t : Txn kv)
      → (r : Result kv.Fault (List Slice)) × (u : Txn kv) × (union args t ≡ some (r, u))
  union-total args t = elim (Result-cases (union_iters args 0 t).0) [
    | inr (e, n) ↦ (err e, (union_iters args 0 t).1, union-failed args t e n)
    | inl (its, n) ↦
        (let (r, e) = union_loop-total (suc (count_all its)) its [] none [] (omega arith) in
          (r, (union_iters args 0 t).1, union-eq args t its r n e))
  ]
