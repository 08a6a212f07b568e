-- ===== src/Command/Set/Read.antt =====
-- command/set.go: SISMEMBER, SMISMEMBER, SCARD, SMEMBERS and SRANDMEMBER.
use mathlib.Core.Option
use lancelot.Base.{
  ℕ, ◌-◌, true, false, not, ◌&&◌, ◌||◌, Option, none, some, List, [], ◌∷◌, ◌++◌, ltb, ◌==◌,
  if◌then◌else◌, Bytes, length, drop, get_or, codes, zero, suc,
}
use lancelot.Base.Int.{ℤ, pos, ltb_ℤ, pos_part, neg_part}
use lancelot.Base.Decimal.{parse_int}
use lancelot.Utils.Bytes.{prefix_next}
use lancelot.Store.Kv.{Kv}
use lancelot.Store.Error.{ok, err, not_integer}
use lancelot.Store.Txn.{Txn, Exec, ◌>>=◌, pure}
use lancelot.Store.Scan.{list, up_to_limit}
use lancelot.Command.Object.{Object, Slice, object_key, object_value_key, set_type}
use lancelot.Command.Access.{new_object, with_object}
use lancelot.Command.Elements.{find, get_count_by_key}
use lancelot.Command.Hash.Read.{Outcome, wanted_count}
use lancelot.Command.Reply.{
  null, array, ints, simple_int, slice_reply, Handler, set_error, set_wrong_args, respond,
}

abbrev pub flag_of : Slice → ℤ
flag_of none = pos 0
flag_of (some raw) = pos 1

abbrev pub zeros : List Bytes → List ℤ
zeros [] = []
zeros (m ∷ ms) = pos 0 ∷ zeros ms

-- The callback of smembers, and of SDIFF of one set.
abbrev pub collect_members : Bytes → List Slice → Bytes → Bytes → List Slice
collect_members start ret key value =
    if ltb (length key) (length start) then ret else ret ++ some (drop (length start) key) ∷ []

module _ {kv : Kv} where
  -- SISMEMBER, once the set is there
  unfoldable pub is_member : Bytes → Object → Exec kv ℤ
  is_member member o = find (object_value_key o member) >>= λ raw. pure (flag_of raw)

  unfoldable pub sismember : Bytes → Bytes → Exec kv ℤ
  sismember key member t =
      let o = new_object t set_type key in
      with_object (object_key o) o false (λ _. pure (pos 0)) (is_member member) t

  -- SIsMemberHandle
  unfoldable pub sismember_handle : List Bytes → Handler kv
  sismember_handle (key ∷ member ∷ []) t =
      respond (sismember key member >>= λ n. pure (simple_int n)) t
  sismember_handle _ t = set_wrong_args (codes "sismember") t

  -- The loop of SMIsMemberHandle
  unfoldable pub are_members : Object → List Bytes → Exec kv (List ℤ)
  are_members o [] = pure []
  are_members o (m ∷ ms) = is_member m o >>= λ n. (are_members o ms >>= λ ns. pure (n ∷ ns))

  -- SMIsMemberHandle
  unfoldable pub smismember_handle : List Bytes → Handler kv
  smismember_handle (key ∷ member ∷ members) t =
      let o = new_object t set_type key in
      respond
        (with_object (object_key o) o false (λ _. pure (ints (zeros (member ∷ members))))
          (λ o'. are_members o' (member ∷ members) >>= λ ns. pure (ints ns)))
        t
  smismember_handle _ t = set_wrong_args (codes "smismember") t

  -- SCardHandle
  unfoldable pub scard_handle : List Bytes → Handler kv
  scard_handle (key ∷ []) t = respond (get_count_by_key key set_type >>= λ n. pure (simple_int n)) t
  scard_handle _ t = set_wrong_args (codes "scard") t

  -- smembers, once the set is there
  unfoldable pub list_members : ℕ → Object → Exec kv (List Slice)
  list_members limit o t =
      let start = object_value_key o [] in
      up_to_limit
        (list t start (prefix_next start) limit (λ s k v. (true, collect_members start s k v)) []) t

  -- smembers
  unfoldable pub smembers : Bytes → ℕ → Exec kv (List Slice)
  smembers key limit t =
      let o = new_object t set_type key in
      with_object (object_key o) o false (λ _. pure []) (list_members limit) t

  -- SMembersHandle
  unfoldable pub smembers_handle : List Bytes → Handler kv
  smembers_handle (key ∷ []) t =
      respond (smembers key t.config.scan_max_count >>= λ r. pure (array r)) t
  smembers_handle _ t = set_wrong_args (codes "smembers") t

-- The loop of SRandMemberHandle with a negative count: `draw i n` is the i-th `rand.Intn(n)`.
unfoldable pub repeat_members : (ℕ → ℕ → ℕ) → ℕ → ℕ → List Slice → List Slice
repeat_members draw i zero ret = ret
repeat_members draw i (suc missing) ret =
    repeat_members draw (suc i) missing (ret ++ get_or ret (draw i (length ret)) none ∷ [])

-- The end of SRandMemberHandle with a count; `none` is the panic of `rand.Intn(0)`.
unfoldable pub pad_members : (ℕ → ℕ → ℕ) → ℤ → List Slice → Option (List Slice)
pad_members draw count ret =
    let wanted = wanted_count count in
    if not (ltb_ℤ count (pos 0)) || not (ltb (length ret) wanted)
    then some ret
    else if length ret == 0
    then none
    else some (repeat_members draw 0 (wanted - length ret) ret)

module _ {kv : Kv} (draw : ℕ → ℕ → ℕ) where
  -- SRandMemberHandle; the outer `none` is a panic.
  unfoldable pub srandmember_handle : List Bytes → Txn kv → Outcome kv
  srandmember_handle (key ∷ []) t =
      some (respond (smembers key 1 >>= λ r. pure (elim r [ [] ↦ null | m ∷ _ ↦ slice_reply m ])) t)
  srandmember_handle (key ∷ n ∷ []) t = elim (parse_int n) [
    | none ↦ some (set_error not_integer t)
    | some count ↦
        if pos_part count == 0 && neg_part count == 0
        then some (array [], t)
        else (let (r, t') = smembers key (wanted_count count) t in
            elim r [
              | err e ↦ some (set_error e t')
              | ok ret ↦ Option.map (λ l. (array l, t')) (pad_members draw count ret)
            ])
  ]
  srandmember_handle _ t = some (set_wrong_args (codes "srandmember") t)
