-- ===== src/Command/Set/Algebra.antt =====
-- command/set.go: inter and diff, of sets (`typo` SetType, `getType` OnlyKey); the same Go functions
-- serve sorted sets too.
use lancelot.Base.{
  ℕ, suc, Bool, true, false, Option, none, some, List, [], ◌∷◌, ◌++◌, ltb, if◌then◌else◌, Bytes,
  length, drop,
}
use lancelot.Utils.Bytes.{prefix_next}
use lancelot.Store.Kv.{Kv, broken}
use lancelot.Store.Error.{Error, Result, ok, err, fault}
use lancelot.Store.Txn.{Txn, Exec, ◌>>=◌, ◌>>◌, pure}
use lancelot.Store.Scan.{list, whole}
use lancelot.Store.Merge.{IterScan, new_iter_scan, until_all, until_any}
use lancelot.Command.Object.{Object, Slice, object_key, object_value_key, set_type}
use lancelot.Command.Access.{new_object, with_object}
use lancelot.Command.Elements.{find}
use lancelot.Command.Set.Read.{collect_members}

module _ {kv : Kv} where
  -- checkValidObjectArgs
  unfoldable pub check_valid_object_args : List Bytes → Exec kv (Unit {0})
  check_valid_object_args [] t = (ok tt, t)
  check_valid_object_args (arg ∷ args) t =
      let o = new_object t set_type arg in
      with_object (object_key o) o false (λ _. check_valid_object_args args)
        (λ _. check_valid_object_args args) t

  -- The first loop of inter: the sets, or nothing where one of them is missing.
  unfoldable pub inter_objects : List Bytes → List Object → Exec kv (Option (List Object))
  inter_objects [] os t = (ok (some os), t)
  inter_objects (arg ∷ args) os t =
      let o = new_object t set_type arg in
      with_object (object_key o) o false (λ _. check_valid_object_args args >> pure none)
        (λ o'. inter_objects args (os ++ o' ∷ [])) t

  -- The loop of diff over its other sets; a missing one takes nothing away.
  unfoldable pub diff_objects : List Bytes → List Object → Exec kv (List Object)
  diff_objects [] os t = (ok os, t)
  diff_objects (arg ∷ args) os t =
      let o = new_object t set_type arg in
      with_object (object_key o) o false (λ _. diff_objects args os)
        (λ o'. diff_objects args (os ++ o' ∷ [])) t

-- The state of the callbacks: what was kept, the error of the callback, and the iterators over the
-- other sets once they are open.
pub record Sifting (F : Type 0) : Type 0 where
  pub kept : List Slice
  pub failed : Option (Error F)
  pub iters : Option (List (IterScan F))

abbrev pub sifting : {F : Type 0} → Sifting F
sifting = record { kept = []; failed = none; iters = none }

-- What a callback decides of a member: keep it, skip it, or stop with an error.
pub data Verdict (F : Type 0) : Type 0 where
  keep : Verdict F
  skip : Verdict F
  stop : Error F → Verdict F

unfoldable pub settle : {F : Type 0} → Sifting F → Bytes → Verdict F → Bool × Sifting F
settle s member keep = (true, record s { kept = s.kept ++ some member ∷ [] })
settle s member skip = (true, s)
settle s member (stop e) = (false, record s { failed = some e })

abbrev pub is_empty : List Object → Bool
is_empty [] = true
is_empty (o ∷ os) = false

module _ {kv : Kv} where
  -- "get check" of inter: the member is in every other set.
  unfoldable pub in_every : Txn kv → Bytes → List Object → Verdict kv.Fault
  in_every t member [] = keep
  in_every t member (o ∷ os) =
      let later = in_every t member os in
      elim (find (object_value_key o member) t).0 [
        | err e ↦ stop e
        | ok none ↦ skip
        | ok (some _) ↦ later
      ]

  -- "get check" of diff: the member is in no other set.
  unfoldable pub in_none : Txn kv → Bytes → List Object → Verdict kv.Fault
  in_none t member [] = keep
  in_none t member (o ∷ os) =
      let later = in_none t member os in
      elim (find (object_value_key o member) t).0 [
        | err e ↦ stop e
        | ok none ↦ later
        | ok (some _) ↦ skip
      ]

  -- The iterators over the other sets, from the member on.
  unfoldable pub open_iters :
      Txn kv → Bytes → List Object → ℕ → Result kv.Fault (List (IterScan kv.Fault))
  open_iters t member [] idx = ok []
  open_iters t member (o ∷ os) idx =
      let p = object_value_key o [] in
      elim (kv.iter t.store (object_value_key o member) (prefix_next p)) [
        | broken f ↦ err (fault f)
        | c ↦ elim (open_iters t member os (suc idx)) [
          | err e ↦ err e
          | ok its ↦ ok (new_iter_scan p idx c ∷ its)
        ]
      ]

  abbrev opened_iters :
      Txn kv → Bytes → List Object → Sifting kv.Fault → Result kv.Fault (List (IterScan kv.Fault))
  opened_iters t member os s = elim s.iters [ none ↦ open_iters t member os 1 | some its ↦ ok its ]

  -- "list check" of inter and of diff: `until` answers whether the member is found, and `wanted` is
  -- the answer that keeps it.
  unfoldable pub list_check :
      (Bytes → List (IterScan kv.Fault) → Result kv.Fault (Bool × List (IterScan kv.Fault)))
      → Bool
      → Txn kv
      → List Object
      → Sifting kv.Fault
      → Bytes
      → Bool × Sifting kv.Fault
  list_check until wanted t os s member = elim (opened_iters t member os s) [
    | err e ↦ settle s member (stop e)
    | ok its ↦ elim (until member its) [
      | err e ↦ settle (record s { iters = some its }) member (stop e)
      | ok (found, its') ↦
          settle (record s { iters = some its' }) member
            (if found then (if wanted then keep else skip) else (if wanted then skip else keep))
    ]
  ]

  -- The callback of inter. Without other sets there is nothing to check.
  unfoldable pub inter_member :
      Txn kv → List Object → Bytes → Sifting kv.Fault → Bytes → Bytes → Bool × Sifting kv.Fault
  inter_member t os start s key value =
      let member = drop (length start) key in
      if ltb (length key) (length start)
      then (true, s)
      else if t.config.set_operation_get
      then settle s member (in_every t member os)
      else if is_empty os
      then settle s member keep
      else list_check until_all true t os s member

  -- The callback of diff
  unfoldable pub diff_member :
      Txn kv → List Object → Bytes → Sifting kv.Fault → Bytes → Bytes → Bool × Sifting kv.Fault
  diff_member t os start s key value =
      let member = drop (length start) key in
      if ltb (length key) (length start)
      then (true, s)
      else if t.config.set_operation_get
      then settle s member (in_none t member os)
      else if is_empty os
      then settle s member keep
      else list_check until_any false t os s member

  -- The ends of inter and diff: the error of the callback first, then that of List.
  unfoldable pub sifted : Option (Error kv.Fault) × Sifting kv.Fault → Exec kv (List Slice)
  sifted (e, s) t = elim s.failed [
    | some x ↦ (err x, t)
    | none ↦ elim e [ some x ↦ (err x, t) | none ↦ (ok s.kept, t) ]
  ]

  unfoldable pub sift_inter : List Object → Exec kv (List Slice)
  sift_inter [] t = (ok [], t)
  sift_inter (o ∷ os) t =
      let start = object_value_key o [] in
      sifted
        (list t start (prefix_next start) t.config.scan_max_count (inter_member t os start) sifting)
        t

  -- inter
  unfoldable pub inter : List Bytes → Exec kv (List Slice)
  inter args =
      inter_objects args [] >>= λ found. elim found [ none ↦ pure [] | some os ↦ sift_inter os ]

  -- diff, once all its sets are there
  unfoldable pub sift_others : Object → List Object → Exec kv (List Slice)
  sift_others o os t =
      let start = object_value_key o [] in
      sifted
        (list t start (prefix_next start) t.config.scan_max_count (diff_member t os start) sifting)
        t

  -- diff, once its first set is there
  unfoldable pub sift_diff : List Bytes → Object → Exec kv (List Slice)
  sift_diff [] o t =
      let start = object_value_key o [] in
      whole
        (list t start (prefix_next start) t.config.scan_max_count
          (λ s k v. (true, collect_members start s k v)) [])
        t
  sift_diff (arg ∷ args) o t = (diff_objects (arg ∷ args) [] >>= sift_others o) t

  -- diff
  unfoldable pub diff : List Bytes → Exec kv (List Slice)
  diff [] t = (ok [], t)
  diff (arg ∷ args) t =
      let o = new_object t set_type arg in
      with_object (object_key o) o false (λ _. check_valid_object_args args >> pure [])
        (sift_diff args) t
