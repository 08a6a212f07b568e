-- ===== src/Command/Reply.antt =====
-- What a command handler returns, and store/conn.go: a handler that fails also marks its transaction.
use lancelot.Base.{◌≡◌, refl, ap, Option, some, Bytes, List, codes}
use lancelot.Base.Int.{ℤ}
use lancelot.Store.Kv.{Kv}
use lancelot.Store.Error.{Error, Result, ok, err, wrong_args}
use lancelot.Store.Txn.{Txn, Exec}
use lancelot.Command.Object.{Slice}

-- The `interface{}` of a reply, by the types that the modelled commands put there.
pub data Reply (F : Type 0) : Type 0 where
  null : Reply F
  simple_string : Bytes → Reply F
  simple_int : ℤ → Reply F
  bulk_int : ℤ → Reply F
  ints : List ℤ → Reply F
  bulk : Bytes → Reply F
  array : List Slice → Reply F
  failure : Error F → Reply F

abbrev pub ok_reply : (F : Type 0) → Reply F
ok_reply F = simple_string (codes "OK")

abbrev pub slice_reply : {F : Type 0} → Slice → Reply F
slice_reply s = elim s [ Option.none ↦ null | some b ↦ bulk b ]

-- TxnHandle
abbrev pub Handler : Kv → Type 0
Handler kv = Txn kv → Reply kv.Fault × Txn kv

module _ {kv : Kv} where
  -- SetError
  unfoldable pub set_error : Error kv.Fault → Handler kv
  set_error e t = (failure e, record t { error = some e })

  -- SetWrongArgs
  unfoldable pub set_wrong_args : Bytes → Handler kv
  unfolding set_error
  set_wrong_args cmd t = set_error (wrong_args cmd) t

  -- A result as a reply; an error is marked in the transaction.
  unfoldable pub reply_of : Result kv.Fault (Reply kv.Fault) → Handler kv
  reply_of (ok v) t = (v, t)
  reply_of (err e) t = set_error e t

  -- `if err != nil { return txn.SetError(err) }` at the end of a handler
  unfoldable pub respond : Exec kv (Reply kv.Fault) → Handler kv
  unfolding reply_of
  respond m t = let (r, t') = m t in reply_of r t'

  pub respond-eq :
      (m n : Exec kv (Reply kv.Fault)) (t u : Txn kv) → m t ≡ n u → respond m t ≡ respond n u
  unfolding respond
  respond-eq m n t u h = ap (λ (x : Result kv.Fault (Reply kv.Fault) × Txn kv). reply_of x.0 x.1) h

  pub respond-pure : (v : Reply kv.Fault) (t : Txn kv) → respond (λ u. (ok v, u)) t ≡ (v, t)
  unfolding respond
  respond-pure v t = refl
