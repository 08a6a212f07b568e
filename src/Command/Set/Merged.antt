-- ===== src/Command/Set/Merged.antt =====
-- command/set.go: union, a merge of the iterators over its sets.
use lancelot.Base.{
  ℕ, zero, suc, Bool, false, not, Option, none, some, List, [], ◌∷◌, ◌++◌, if◌then◌else◌, Bytes,
  bytes_eq,
}
use lancelot.Utils.Bytes.{prefix_next}
use lancelot.Store.Kv.{Kv, broken}
use lancelot.Store.Error.{Result, ok, err, fault}
use lancelot.Store.Txn.{Txn, Exec, ◌>>=◌, pure}
use lancelot.Store.Merge.{IterScan, new_iter_scan, Pair, count_all, next}
use lancelot.Command.Object.{Slice, object_key, object_value_key, set_type}
use lancelot.Command.Access.{new_object, with_object}

module _ {kv : Kv} where
  -- The loop of union that opens the iterators
  unfoldable pub union_iters : List Bytes → ℕ → Exec kv (List (IterScan kv.Fault))
  union_iters [] idx t = (ok [], t)
  union_iters (arg ∷ args) idx t =
      let o = new_object t set_type arg in
      with_object (object_key o) o false (λ _. union_iters args (suc idx))
        (λ o' t'.
          let p = object_value_key o' [] in
          elim (kv.iter t'.store p (prefix_next p)) [
            | broken f ↦ (err (fault f), t')
            | c ↦ (union_iters args (suc idx) >>= λ its. pure (new_iter_scan p idx c ∷ its)) t'
          ])
        t

-- `new` in union: the last key is another one than the key at hand; the key nil is empty.
unfoldable pub is_new : Slice → Slice → Bool
is_new none key = false
is_new (some last) none = not (bytes_eq last [])
is_new (some last) (some key) = not (bytes_eq last key)

-- The main loop of union: `none` where the fuel runs out.
unfoldable pub union_loop :
    {F : Type 0}
    → ℕ
    → List (IterScan F)
    → List Pair
    → Slice
    → List Slice
    → Option (Result F (List Slice))
union_loop zero its heap last ret = none
union_loop (suc fuel) its heap last ret = elim (next its heap) [
  | err e ↦ some (err e)
  | ok (none, its', heap') ↦ some (ok (if is_new last none then ret ++ last ∷ [] else ret))
  | ok (some x, its', heap') ↦
      union_loop fuel its' heap' (some x.key)
        (if is_new last (some x.key) then ret ++ last ∷ [] else ret)
]

module _ {kv : Kv} where
  -- union; the loop takes one turn for each entry and one more. The outer `none` would be a loop that
  -- does not end.
  unfoldable pub union : List Bytes → Txn kv → Option (Result kv.Fault (List Slice) × Txn kv)
  union args t =
      let (r, t') = union_iters args 0 t in
      elim r [
        | err e ↦ some (err e, t')
        | ok its ↦ elim (union_loop (suc (count_all its)) its [] none []) [
          | none ↦ none
          | some result ↦ some (result, t')
        ]
      ]
