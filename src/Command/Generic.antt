-- ===== src/Command/Generic.antt =====
-- command/generic.go: EXISTS, TOUCH, DEL, UNLINK, RENAME and RENAMENX.
pub mod Options
pub mod Expire
pub mod Laws
use lancelot.Base.{
  ℕ, ◌+◌, Bool, true, false, Option, none, some, List, [], ◌∷◌, if◌then◌else◌, ◌==◌, not, Bytes,
  codes, bytes_eq,
}
use lancelot.Base.Int.{ℤ, pos, ltb_ℤ}
use lancelot.Store.Kv.{Kv}
use lancelot.Store.Error.{Error, Result, ok, err, no_such_key, wrong_type, key_not_found}
use lancelot.Store.Txn.{Txn, Exec, put, del, ◌>>=◌, ◌>>◌, pure, raise}
use lancelot.Command.Object.{Object, bytes_of, object_key, ttl_key, unknown_type}
use lancelot.Command.Access.{
  Change, new_object, with_object, delete_key, set_txn_object, when, minus_count, no_change,
}
use lancelot.Command.Reply.{
  Reply, simple_int, ok_reply, Handler, set_error, set_wrong_args, respond,
}

-- DeleteKeyType|MinusCount, and DeleteKeyType
abbrev pub delete_minus : Change
delete_minus = record { minus = true; plus = false; gc = false; delete = true }

abbrev pub delete_only : Change
delete_only = record { minus = false; plus = false; gc = false; delete = true }

module _ {kv : Kv} where
  -- The loop of ExistsHandle.
  unfoldable pub exists_loop : ℕ → List Bytes → Exec kv ℕ
  exists_loop count [] t = (ok count, t)
  exists_loop count (arg ∷ args) t =
      let o = new_object t unknown_type arg in
      with_object (object_key o) o false (λ _. exists_loop count args)
        (λ _. exists_loop (count + 1) args) t

  -- ExistsHandle
  unfoldable pub exists_handle : List Bytes → Handler kv
  exists_handle [] t = set_wrong_args (codes "exists") t
  exists_handle args t = respond (exists_loop 0 args >>= λ n. pure (simple_int (pos n))) t

  -- touchORDelete
  unfoldable pub touch_or_delete : Bool → ℕ → List Bytes → Exec kv ℕ
  touch_or_delete delete count [] t = (ok count, t)
  touch_or_delete delete count (arg ∷ args) t =
      let o = new_object t unknown_type arg in
      with_object (object_key o) o false (λ _. touch_or_delete delete count args)
        (λ o'.
          when delete (delete_key (object_key o) o' t.now minus_count)
          >> touch_or_delete delete (count + 1) args)
        t

  -- TouchHandle
  unfoldable pub touch_handle : List Bytes → Handler kv
  touch_handle [] t = set_wrong_args (codes "touch") t
  touch_handle args t = respond (touch_or_delete false 0 args >>= λ n. pure (simple_int (pos n))) t

  -- DELHandle
  unfoldable pub del_handle : List Bytes → Handler kv
  del_handle [] t = set_wrong_args (codes "del") t
  del_handle args t = respond (touch_or_delete true 0 args >>= λ n. pure (simple_int (pos n))) t

  -- UnlinkHandle
  unfoldable pub unlink_handle : List Bytes → Handler kv
  unlink_handle [] t = set_wrong_args (codes "unlink") t
  unlink_handle args t = respond (touch_or_delete true 0 args >>= λ n. pure (simple_int (pos n))) t

  -- The entry of the expiry follows the object to its new key.
  unfoldable pub move_ttl : Object → Bytes → Exec kv (Unit {0})
  move_ttl o to =
      when (ltb_ℤ (pos 0) o.ttl)
        (del (bytes_of (ttl_key o)) >> put (bytes_of (ttl_key (record o { key = to }))) (1 ∷ []))

  -- The end of rename: the object goes from its key to the new one, and keeps its time of writing. The
  -- field Key of the object changes only where there is an expiry.
  unfoldable pub move_object : Bytes → Bytes → Object → Bytes → Exec kv ℕ
  move_object from_key to_key o to =
      set_txn_object from_key o delete_only
      >> (move_ttl o to
          >> (set_txn_object to_key (if ltb_ℤ (pos 0) o.ttl then record o { key = to } else o)
                no_change
              >> pure 1))

  -- rename, once the object of the first key is known.
  unfoldable pub rename_found : Bytes → Bytes → Bool → Bytes → Object → Exec kv ℕ
  rename_found arg to check_exist from_key o t =
      let into = new_object t unknown_type to in
      if bytes_eq arg to
      then (ok 0, t)
      else with_object (object_key into) into false
          (λ _. move_object from_key (object_key into) o to)
          (λ o'.
            if check_exist
            then pure 0
            else if not (o.typo == o'.typo)
            then raise wrong_type
            else set_txn_object (object_key into) o' delete_minus
              >> move_object from_key (object_key into) o to)
          t

  -- rename
  unfoldable pub rename : Bytes → Bytes → Bool → Exec kv ℕ
  rename arg to check_exist t =
      let o = new_object t unknown_type arg in
      with_object (object_key o) o false (λ _. raise no_such_key)
        (rename_found arg to check_exist (object_key o)) t

  -- RenameNXHandle
  unfoldable pub renamenx_handle : List Bytes → Handler kv
  renamenx_handle (arg ∷ to ∷ []) t =
      respond (rename arg to true >>= λ n. pure (simple_int (pos n))) t
  renamenx_handle _ t = set_wrong_args (codes "renamenx") t

  -- RenameHandle
  unfoldable pub rename_handle : List Bytes → Handler kv
  rename_handle (arg ∷ to ∷ []) t =
      respond (rename arg to false >>= λ _. pure (ok_reply kv.Fault)) t
  rename_handle _ t = set_wrong_args (codes "rename") t
