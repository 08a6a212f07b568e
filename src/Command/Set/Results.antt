-- ===== src/Command/Set/Results.antt =====
-- command/set.go: the commands of the algebra of sets, and sstore, which keeps a result.
use lancelot.Base.{
  not, Option, none, some, List, [], ◌∷◌, ◌==◌, if◌then◌else◌, Bytes, length, codes,
}
use lancelot.Base.Int.{pos}
use lancelot.Store.Kv.{Kv}
use lancelot.Store.Error.{Result, ok}
use lancelot.Store.Txn.{Txn, Exec, ◌>>=◌, ◌>>◌, pure}
use lancelot.Command.Object.{Object, Slice, bytes_of, object_value_key, set_type}
use lancelot.Command.Elements.{put_or_delete_kv, delete_then_create_uuid_object}
use lancelot.Command.Hash.Write.{element}
use lancelot.Command.Reply.{Reply, array, simple_int, Handler, set_wrong_args, respond}
use lancelot.Command.Set.Algebra.{inter, diff}
use lancelot.Command.Set.Merged.{union}

module _ {kv : Kv} where
  -- SInterHandle
  unfoldable pub sinter_handle : List Bytes → Handler kv
  sinter_handle (key ∷ keys) t = respond (inter (key ∷ keys) >>= λ r. pure (array r)) t
  sinter_handle [] t = set_wrong_args (codes "sinter") t

  -- SDiffHandle
  unfoldable pub sdiff_handle : List Bytes → Handler kv
  sdiff_handle (key ∷ keys) t = respond (diff (key ∷ keys) >>= λ r. pure (array r)) t
  sdiff_handle [] t = set_wrong_args (codes "sdiff") t

  -- The loop of sstore over the members
  unfoldable pub store_members : Object → List Slice → Exec kv (Unit {0})
  store_members o [] t = (ok tt, t)
  store_members o (m ∷ ms) t =
      (put_or_delete_kv o (object_value_key o (bytes_of m)) (some (element [] t)) (pos 1) >>= λ _.
      store_members o ms)
        t

  -- sstore, once the members are known
  unfoldable pub store_result :
      Result kv.Fault Bytes → Bytes → List Slice → Exec kv (Reply kv.Fault)
  store_result uuid key ret =
      delete_then_create_uuid_object uuid set_type key (not (length ret == 0)) >>= λ o.
      if length ret == 0
      then pure (simple_int (pos 0))
      else (store_members o ret >> pure (simple_int (pos (length ret))))

  -- SInterStoreHandle and SDiffStoreHandle, with sstore
  unfoldable pub sinterstore_handle : Result kv.Fault Bytes → List Bytes → Handler kv
  sinterstore_handle uuid (destination ∷ key ∷ keys) t =
      respond (inter (key ∷ keys) >>= store_result uuid destination) t
  sinterstore_handle uuid _ t = set_wrong_args (codes "sinterstore") t

  unfoldable pub sdiffstore_handle : Result kv.Fault Bytes → List Bytes → Handler kv
  sdiffstore_handle uuid (destination ∷ key ∷ keys) t =
      respond (diff (key ∷ keys) >>= store_result uuid destination) t
  sdiffstore_handle uuid _ t = set_wrong_args (codes "sdiffstore") t

  -- SUnionHandle and SUnionStoreHandle; the outer `none` is that of `union`.
  unfoldable pub answer_union :
      (List Slice → Exec kv (Reply kv.Fault))
      → Option (Result kv.Fault (List Slice) × Txn kv)
      → Option (Reply kv.Fault × Txn kv)
  answer_union f none = none
  answer_union f (some (r, t)) = some (respond ((λ u. (r, u)) >>= f) t)

  unfoldable pub sunion_handle : List Bytes → Txn kv → Option (Reply kv.Fault × Txn kv)
  sunion_handle (key ∷ keys) t = answer_union (λ r. pure (array r)) (union (key ∷ keys) t)
  sunion_handle [] t = some (set_wrong_args (codes "sunion") t)

  unfoldable pub sunionstore_handle :
      Result kv.Fault Bytes → List Bytes → Txn kv → Option (Reply kv.Fault × Txn kv)
  sunionstore_handle uuid (destination ∷ key ∷ keys) t =
      answer_union (store_result uuid destination) (union (key ∷ keys) t)
  sunionstore_handle uuid _ t = some (set_wrong_args (codes "sunionstore") t)
