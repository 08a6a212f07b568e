-- ===== src/Command/Set/Write.antt =====
-- command/set.go: SADD, SREM, SMOVE and SPOP.
use lancelot.Base.{
  ℕ, ◌+◌, Bool, false, none, some, List, [], ◌∷◌, ◌==◌, if◌then◌else◌, Bytes, codes,
}
use lancelot.Base.Int.{pos}
use lancelot.Store.Kv.{Kv}
use lancelot.Store.Error.{Result, ok}
use lancelot.Store.Txn.{Exec, ◌>>=◌, pure}
use lancelot.Command.Object.{Object, Slice, object_key, object_value_key, set_type}
use lancelot.Command.Access.{new_object, with_object}
use lancelot.Command.Elements.{find, put_or_delete_kv, get_or_create_uuid_object}
use lancelot.Command.Hash.Write.{element, remove_loop}
use lancelot.Command.Reply.{simple_int, Handler, set_wrong_args, respond}

module _ {kv : Kv} where
  unfoldable pub add_old : Object → Bytes → Slice → Exec kv ℕ
  add_old o member none t =
      (put_or_delete_kv o (object_value_key o member) (some (element [] t)) (pos 1) >>= λ _. pure 1)
        t
  add_old o member (some _) t = (ok 0, t)

  -- One turn of the loop of sadd: 1 for a member that is new.
  unfoldable pub add_member : Object → Bytes → Exec kv ℕ
  add_member o member = find (object_value_key o member) >>= add_old o member

  -- The loop of sadd
  unfoldable pub sadd_loop : Object → List Bytes → ℕ → Exec kv ℕ
  sadd_loop o [] count = pure count
  sadd_loop o (m ∷ ms) count = add_member o m >>= λ n. sadd_loop o ms (count + n)

  -- sadd; with `check` it makes the set and adds nothing.
  unfoldable pub sadd : Result kv.Fault Bytes → Bytes → List Bytes → Bool → Exec kv ℕ
  sadd uuid key members check = get_or_create_uuid_object uuid set_type key >>= λ o.
      if check then pure 0 else sadd_loop o members 0

  -- SAddHandle
  unfoldable pub sadd_handle : Result kv.Fault Bytes → List Bytes → Handler kv
  sadd_handle uuid (key ∷ member ∷ members) t =
      respond (sadd uuid key (member ∷ members) false >>= λ n. pure (simple_int (pos n))) t
  sadd_handle uuid _ t = set_wrong_args (codes "sadd") t

  -- srem
  unfoldable pub srem : Bytes → List Bytes → Exec kv ℕ
  srem key members t =
      let o = new_object t set_type key in
      with_object (object_key o) o false (λ _. pure 0) (λ o'. remove_loop o' members 0) t

  -- SRemHandle
  unfoldable pub srem_handle : List Bytes → Handler kv
  srem_handle (key ∷ member ∷ members) t =
      respond (srem key (member ∷ members) >>= λ n. pure (simple_int (pos n))) t
  srem_handle _ t = set_wrong_args (codes "srem") t

  -- SMoveHandle
  unfoldable pub smove_handle : Result kv.Fault Bytes → List Bytes → Handler kv
  smove_handle uuid (source ∷ destination ∷ member ∷ []) t =
      respond
        (srem source (member ∷ []) >>= λ gone.
          (sadd uuid destination (member ∷ []) (gone == 0) >>= λ n. pure (simple_int (pos n))))
        t
  smove_handle uuid _ t = set_wrong_args (codes "smove") t
