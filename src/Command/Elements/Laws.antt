-- ===== src/Command/Elements/Laws.antt =====
-- What PutOrDeleteKV does to an element, and which object the commands on elements work on.
use lancelot.Base.{◌≡◌, refl, Bool, ◌&&◌, ◌||◌, none, some, inl, inr, Bytes, arith, length, ◌<◌}
use lancelot.Base.Int.{ℤ, ◌+ℤ◌, wrap_int64}
use lancelot.Store.Kv.{Kv, KvLaws, Found, found, missing}
use lancelot.Store.Error.{ok}
use lancelot.Store.Txn.{Txn, get, pure, max_key_size}
use lancelot.Store.Txn.Laws.{put-ok, del-ok}
use lancelot.Store.Txn.Frame.{
  Touches, Touches-pure, Touches-if, Touches-state, Touches-unchanged, Touches-bind,
  Touches-bind_ok, Touches-weaken, Touches-put, Touches-del,
}
use lancelot.Command.Object.{
  Object, Slice, bytes_of, object_value_key, get_key_bytes, disable_count, key_prefix,
}
use lancelot.Command.Count.{Count}
use lancelot.Command.Count.Laws.{get_count-unchanged, get_count-key, set_count-Touches}
use lancelot.Command.Access.Writes.{IsCountKey, KeyOrCount}
use lancelot.Command.Elements.{
  find, write_element, element_count, store_count, count_element, put_or_delete_kv, is_zero_int,
}

-- What a key holds after PutOrDeleteKV.
abbrev pub left_at : (F : Type 0) → Slice → Found F
left_at F none = missing
left_at F (some v) = found v

pub object_value_key-not_count :
    (o : Object) (field : Bytes) → ¬ IsCountKey (object_value_key o field)
unfolding object_value_key get_key_bytes
object_value_key-not_count o field h = absurd (ground (arith, h))

module _ {kv : Kv} where
  pub find-unchanged : (k : Bytes) (t : Txn kv) → (find k t).1 ≡ t
  unfolding find get
  find-unchanged k t = ground arith

  -- What a look at an element that succeeds tells.
  pub find-get :
      (k : Bytes) (t : Txn kv) (s : Slice)
      → (find k t).0 ≡ ok s
      → (kv.get t.store k ≡ left_at kv.Fault s) × (length k < max_key_size)
  unfolding find get
  find-get k t none h = ground arith
  find-get k t (some v) h = ground arith

  pub find-left_at :
      (k : Bytes) (t : Txn kv) (s : Slice)
      → length k < max_key_size
      → kv.get t.store k ≡ left_at kv.Fault s
      → find k t ≡ (ok s, t)
  unfolding find get
  find-left_at k t none h e = ground arith
  find-left_at k t (some v) h e = ground arith

  pub element_count-unchanged : (o : Object) (v : Slice) (t : Txn kv) → (element_count o v t).1 ≡ t
  unfolding element_count
  element_count-unchanged o v t =
      get_count-unchanged t.user_id t.db_id o.hash key_prefix (bytes_of o.value) v t

module _ {kv : Kv} (laws : KvLaws kv) where
  pub write_element-Touches :
      (k : Bytes) (v : Slice) → Touches {kv = kv} (KeyOrCount k) (write_element k v)
  unfolding write_element
  write_element-Touches k none = Touches-del laws k (inl refl)
  write_element-Touches k (some v) = Touches-put laws k v (inl refl)

  element_count-key :
      (o : Object) (v : Slice) (t : Txn kv) (p : Bool × Count)
      → (element_count o v t).0 ≡ ok p
      → IsCountKey p.1.key
  unfolding element_count
  element_count-key o v t (b, c) h =
      get_count-key t.user_id t.db_id o.hash key_prefix (bytes_of o.value) v t b c h

  store_count-Touches :
      (delta : ℤ) (p : Bool × Count)
      → IsCountKey p.1.key
      → Touches {kv = kv} IsCountKey (store_count delta p)
  unfolding store_count
  store_count-Touches delta (b, c) h =
      Touches-bind _ _
        (set_count-Touches laws (record c { value = wrap_int64 (c.value +ℤ delta) }) h)
        (λ _. Touches-pure _)

  pub count_element-Touches :
      (o : Object) (v : Slice) (delta : ℤ) → Touches {kv = kv} IsCountKey (count_element o v delta)
  unfolding count_element
  count_element-Touches o v delta =
      let body =
        Touches-bind_ok (element_count o v) (store_count delta)
          (Touches-unchanged _ (element_count-unchanged o v))
          (λ t p e. store_count-Touches delta p (element_count-key o v t p e)) in
      Touches-state (λ t. _)
        (λ t.
          Touches-if (is_zero_int delta || (disable_count o && t.config.disable_count)) (pure _) _
            (Touches-pure _) body)

  write_element-ok :
      (k : Bytes) (v : Slice) (t : Txn kv)
      → (write_element k v t).0 ≡ ok tt
      → kv.get (write_element k v t).1.store k ≡ left_at kv.Fault v
  unfolding write_element
  write_element-ok k none t h = del-ok laws k t h
  write_element-ok k (some v) t h = put-ok laws k v t h

  -- PutOrDeleteKV changes the element's key and counts, and nothing else.
  pub put_or_delete_kv-Touches :
      (o : Object) (k : Bytes) (v : Slice) (delta : ℤ)
      → Touches {kv = kv} (KeyOrCount k) (put_or_delete_kv o k v delta)
  unfolding put_or_delete_kv
  put_or_delete_kv-Touches o k v delta =
      Touches-bind (write_element k v) (λ _. count_element o v delta) (write_element-Touches k v)
        (λ _. Touches-weaken (count_element-Touches o v delta) (λ j h. inr h))

  -- After PutOrDeleteKV has succeeded at a key that is not the key of a count, the key holds the
  -- value, or nothing.
  pub put_or_delete_kv-ok :
      (o : Object) (k : Bytes) (v : Slice) (delta : ℤ) (t : Txn kv) (n : ℤ)
      → ¬ IsCountKey k
      → (put_or_delete_kv o k v delta t).0 ≡ ok n
      → kv.get (put_or_delete_kv o k v delta t).1.store k ≡ left_at kv.Fault v
  unfolding put_or_delete_kv
  put_or_delete_kv-ok o k v delta t n c h = ground (
    arith,
    write_element-ok k v t,
    (count_element-Touches o v delta).others (write_element k v t).1 k c,
  )
