-- ===== src/Command/Set/Pop.antt =====
-- command/set.go: SPOP. The iterator is the one that List has opened before the first deletion.
use lancelot.Base.{
  Bool, true, false, Option, none, some, List, [], ◌∷◌, ◌++◌, ltb, if◌then◌else◌, Bytes, codes,
  length, drop, ◌==◌,
}
use lancelot.Base.Int.{ℤ, pos, negsuc, pos_part, neg_part}
use lancelot.Base.Decimal.{parse_int}
use lancelot.Utils.Bytes.{prefix_next}
use lancelot.Utils.Int.{positive_int}
use lancelot.Store.Kv.{Kv}
use lancelot.Store.Error.{Error, Result, ok, err, reach_limit, not_positive_integer}
use lancelot.Store.Txn.{Txn, Exec, pure}
use lancelot.Store.Scan.{list}
use lancelot.Command.Object.{Object, Slice, object_key, object_value_key, set_type}
use lancelot.Command.Access.{new_object, with_object}
use lancelot.Command.Elements.{put_or_delete_kv}
use lancelot.Command.Reply.{Reply, array, slice_reply, Handler, set_error, set_wrong_args, respond}

-- The state of the callback: the transaction that it changes, its error, and the members so far.
pub record Popping (kv : Kv) : Type 0 where
  pub txn : Txn kv
  pub failed : Option (Error kv.Fault)
  pub popped : List Slice

-- The argument of SPOP: what GetPositiveInt makes of it.
pub data PopCount : Type 0 where
  pop_nothing pop_invalid : PopCount
  pop_count : ℤ → PopCount

-- `err == utils.ErrInvalidInt && count == 0` holds for the argument 0 alone.
unfoldable pub pop_count_of : Bytes → PopCount
pop_count_of arg = elim (positive_int arg) [
  | some n ↦ pop_count n
  | none ↦ elim (parse_int arg) [
    | none ↦ pop_invalid
    | some n ↦
        if pos_part n == 0
        then (if neg_part n == 0 then pop_nothing else pop_invalid)
        else pop_invalid
  ]
]

module _ {kv : Kv} where
  -- The callback of SPopHandle, once the element is deleted or not.
  unfoldable pub after_delete : Popping kv → Bytes → Result kv.Fault ℤ × Txn kv → Bool × Popping kv
  after_delete s member (err e, t) = (false, record s { txn = t; failed = some e })
  after_delete s member (ok n, t) =
      (true, record s { txn = t; popped = s.popped ++ some member ∷ [] })

  -- The callback of SPopHandle
  unfoldable pub pop_member : Object → Bytes → Popping kv → Bytes → Bytes → Bool × Popping kv
  pop_member o start s key value =
      if ltb (length key) (length start)
      then (true, s)
      else after_delete s (drop (length start) key) (put_or_delete_kv o key none (negsuc 0) s.txn)

  -- The end of SPopHandle; `simple` is SPOP without a count.
  unfoldable pub popped_reply :
      Bool → Option (Error kv.Fault) × Popping kv → Exec kv (Reply kv.Fault)
  popped_reply simple (e, s) t = elim s.failed [
    | some x ↦ (err x, s.txn)
    | none ↦
        (let answer : Result kv.Fault (Reply kv.Fault) × Txn kv = (
          ok (elim s.popped [
            | [] ↦ array []
            | m ∷ ms ↦ if simple then slice_reply m else array (m ∷ ms)
          ]),
          s.txn,
        ) in
          elim e [ none ↦ answer | some reach_limit ↦ answer | some x ↦ (err x, s.txn) ])
  ]

  -- SPopHandle, once the set is there
  unfoldable pub pop_members : Bool → ℤ → Object → Exec kv (Reply kv.Fault)
  pop_members simple count o t =
      let start = object_value_key o [] in
      popped_reply simple
        (list t start (prefix_next start) (pos_part count) (pop_member o start)
          (record { txn = t; failed = none; popped = [] }))
        t

  unfoldable pub spop : Bytes → Bool → ℤ → Exec kv (Reply kv.Fault)
  spop key simple count t =
      let o = new_object t set_type key in
      with_object (object_key o) o false (λ _. pure (array [])) (pop_members simple count) t

  -- SPopHandle
  unfoldable pub spop_handle : List Bytes → Handler kv
  spop_handle (key ∷ []) t = respond (spop key true (pos 1)) t
  spop_handle (key ∷ arg ∷ []) t = elim (pop_count_of arg) [
    | pop_nothing ↦ (array [], t)
    | pop_invalid ↦ set_error not_positive_integer t
    | pop_count n ↦ respond (spop key false n) t
  ]
  spop_handle _ t = set_wrong_args (codes "spop") t
