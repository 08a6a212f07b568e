-- ===== src/Command/Strings/Counter/Handle.antt =====
-- INCRBY on a stored integer: its reply and what it stores.
use lancelot.Base.{
  ℕ, ◌<◌, ◌≡◌, refl, ◌∙◌, Bool, true, false, some, [], ◌∷◌, Bytes, length, arith, if◌then◌else◌,
  ◌&&◌, Bool-cases, inl, inr,
}
use lancelot.Base.Int.{ℤ, ◌+ℤ◌, leb_ℤ, IsInt64, min_int64, max_int64}
use lancelot.Base.Decimal.{parse_int, format_int, parse_int-IsInt64}
use lancelot.Store.Kv.{Kv, KvLaws, found}
use lancelot.Store.Error.{Result, ok, overflow}
use lancelot.Store.Txn.{Txn, max_key_size}
use lancelot.Command.Object.{
  Object, bytes_of, object_key, get_key_bytes, object_encode, string_type,
}
use lancelot.Command.Object.Codec.{decoded}
use lancelot.Command.Access.{new_object, set_txn_object, no_change}
use lancelot.Command.Access.Reads.{present, Stored, IsLive, get_txn_object-live}
use lancelot.Command.Access.Writes.{IsCountKey, set_txn_object-ok}
use lancelot.Command.Reply.{simple_int, bulk_int, set_error}
use lancelot.Command.Strings.Counter.{
  int_func, incr_by, is_zero, string_handle, incrby_handle, after_lookup, apply_string_func,
  store_changed,
}
use lancelot.Command.Strings.Counter.Laws.{added, int_func-added}

incr_by-eq :
    {F : Type 0} (m : ℤ) (o : Object) (arg : Bytes)
    → parse_int arg ≡ some m
    → incr_by {F = F} arg o ≡ int_func m o
unfolding incr_by
incr_by-eq m o arg q = ground (arith, q)

decoded-value : (o into : Object) → (decoded o into).value ≡ some (bytes_of o.value)
unfolding decoded
decoded-value o into = refl

object_key-not_count : (o : Object) → ¬ IsCountKey (object_key o)
unfolding object_key get_key_bytes
object_key-not_count o h = absurd (ground (arith, h))

module _ {kv : Kv} where
  new_object-typo : (t : Txn kv) (typo : ℕ) (key : Bytes) → (new_object t typo key).typo ≡ typo
  unfolding new_object
  new_object-typo t typo key = refl

  -- Where the lookup finds a live string, stringHandle applies its function to the object.
  string_handle-live :
      (key : Bytes) (o : Object) (f : Object → Result kv.Fault (Object × ℤ × Bool)) (t : Txn kv)
      → length (object_key (new_object t string_type key)) < max_key_size
      → Stored t (object_key (new_object t string_type key)) (present o)
      → IsLive t.now (present o)
      → o.typo ≡ string_type
      → string_handle key f t
        ≡ apply_string_func
            (object_key (new_object t string_type key))
            (decoded o (new_object t string_type key))
            no_change
            false
            f
            t
  unfolding string_handle after_lookup
  string_handle-live key o f t hk s l i =
      let into = new_object t string_type key in
      ground (
        arith,
        new_object-typo t string_type key,
        get_txn_object-live (object_key into) into true (present o) t hk s l,
      )

  -- What a function that adds to an integer makes of a string command.
  apply-added :
      (k : Bytes) (n m : ℤ) (o : Object) (f : Object → Result kv.Fault (Object × ℤ × Bool))
      (t : Txn kv)
      → f o ≡ added n m o
      → apply_string_func k o no_change false f t ≡ (
          if is_zero m
          then (bulk_int n, t)
          else if leb_ℤ min_int64 (n +ℤ m) && leb_ℤ (n +ℤ m) max_int64
          then store_changed k
              (record o { value = some (format_int (n +ℤ m)) })
              no_change
              (n +ℤ m)
              t
          else set_error overflow t)
  unfolding apply_string_func
  apply-added k n m o f t h = elim (Bool-cases (is_zero m)) [
    | inl z ↦ ground (arith, h, z)
    | inr z ↦ elim (Bool-cases (leb_ℤ min_int64 (n +ℤ m) && leb_ℤ (n +ℤ m) max_int64)) [
      | inl r ↦ ground (arith, h, z, r)
      | inr r ↦ ground (arith, h, z, r)
    ]
  ]

  -- The object with the sum, as INCRBY leaves it to setTxnObject.
  abbrev pub with_sum : ℤ → Bytes → Object → Txn kv → Object
  with_sum sum key o t = record (decoded o (new_object t string_type key)) {
    value = some (format_int sum);
    timestamp = t.timestamp;
  }

  -- INCRBY of an integer at a key below the size limit that holds a string that has not expired and is
  -- an integer: adding 0 replies the stored integer as a bulk string and writes nothing; a sum that is
  -- no int64 value is an overflow error and writes nothing; and otherwise the object with the sum is
  -- stored.
  pub incrby_handle-eq :
      (key by : Bytes) (n m : ℤ) (o : Object) (t : Txn kv)
      → length (object_key (new_object t string_type key)) < max_key_size
      → Stored t (object_key (new_object t string_type key)) (present o)
      → IsLive t.now (present o)
      → o.typo ≡ string_type
      → parse_int (bytes_of o.value) ≡ some n
      → parse_int by ≡ some m
      → incrby_handle (key ∷ by ∷ []) t ≡ (
          if is_zero m
          then (bulk_int n, t)
          else if leb_ℤ min_int64 (n +ℤ m) && leb_ℤ (n +ℤ m) max_int64
          then store_changed
              (object_key (new_object t string_type key))
              (record (decoded o (new_object t string_type key)) {
                value = some (format_int (n +ℤ m));
              })
              no_change
              (n +ℤ m)
              t
          else set_error overflow t)
  unfolding incrby_handle
  incrby_handle-eq key by n m o t hk s l i p q =
      let into = new_object t string_type key in
      let f : incr_by {F = kv.Fault} by (decoded o into) ≡ added n m (decoded o into) =
        incr_by-eq m (decoded o into) by q
        ∙ int_func-added n m (decoded o into) (bytes_of o.value) (decoded-value o into) p
            (parse_int-IsInt64 by m q) in
      string_handle-live key o (incr_by by) t hk s l i
      ∙ apply-added (object_key into) n m (decoded o into) (incr_by by) t f

module _ {kv : Kv} (laws : KvLaws kv) where
  -- INCRBY at a key that holds a string that has not expired and is an integer, by an amount that is
  -- not 0, with a sum that is an int64 value: if the write succeeds, the reply is the sum, and the
  -- key holds the object with the sum.
  pub incrby_handle-sum :
      (key by : Bytes) (n m : ℤ) (o : Object) (t : Txn kv)
      → length (object_key (new_object t string_type key)) < max_key_size
      → Stored t (object_key (new_object t string_type key)) (present o)
      → IsLive t.now (present o)
      → o.typo ≡ string_type
      → parse_int (bytes_of o.value) ≡ some n
      → parse_int by ≡ some m
      → is_zero m ≡ false
      → IsInt64 (n +ℤ m)
      → (set_txn_object
          (object_key (new_object t string_type key))
          (with_sum (n +ℤ m) key o t)
          no_change
          t).0
        ≡ ok tt
      → ((incrby_handle (key ∷ by ∷ []) t).0 ≡ simple_int (n +ℤ m))
        × (kv.get
              (incrby_handle (key ∷ by ∷ []) t).1.store
              (object_key (new_object t string_type key))
            ≡ found (object_encode (with_sum (n +ℤ m) key o t)))
  unfolding store_changed
  incrby_handle-sum key by n m o t hk s l i p q z r w =
      let k = object_key (new_object t string_type key) in
      ground (
        arith,
        incrby_handle-eq key by n m o t hk s l i p q,
        w,
        set_txn_object-ok laws k (with_sum (n +ℤ m) key o t) no_change t
            (object_key-not_count (new_object t string_type key)) w,
      )
