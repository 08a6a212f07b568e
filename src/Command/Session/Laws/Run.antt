-- ===== src/Command/Session/Laws/Run.antt =====
-- How many replies the queued commands and EXEC give.
use lancelot.Base.{
  ℕ, suc, ◌≡◌, refl, sym, ap, Bool, true, false, Option, none, some, List, [], ◌∷◌, length, Bytes,
  arith, inl, inr, Option-cases, ◌⊎◌, subst,
}
use lancelot.Store.Kv.{Kv}
use lancelot.Base.Int.{ℤ}
use lancelot.Store.Error.{Error, unknown_command, Result, ok, err}
use lancelot.Store.Txn.{Txn, pure, continue}
use lancelot.Command.Reply.{Reply, Handler}
use lancelot.Command.Session.{is_publish, Request, to_lower, run_pending, fill}

pub fill-length :
    {F : Type 0} (f : ℤ → F) (rs : List (Bool × F)) (counts : List ℤ)
    → length (fill f rs counts) ≡ length rs
unfolding fill
fill-length f [] counts = refl
fill-length f ((false, r) ∷ rs) counts = ap suc (fill-length f rs counts)
fill-length f ((true, r) ∷ rs) [] = ap suc (fill-length f rs [])
fill-length f ((true, r) ∷ rs) (n ∷ counts) = ap suc (fill-length f rs counts)

-- A result, if it is one, has `n` entries.
abbrev pub HasLength : {F A : Type 0} → ℕ → Result F (List A) → Type 0
HasLength n (ok entries) = length entries ≡ n
HasLength n (err e) = Unit

module _ {kv : Kv} where
  cons-HasLength :
      (n : ℕ) (r : Result kv.Fault (List (Bool × Reply kv.Fault))) (x : Bool × Reply kv.Fault)
      (t : Txn kv)
      → HasLength n r
      → HasLength (suc n) (continue {kv = kv} r (λ rest. pure (x ∷ rest)) t).0
  cons-HasLength n (ok entries) x t h = ap suc h
  cons-HasLength n (err e) x t h = tt

  run_pending-missing :
      (table : Bytes → Option (List Bytes → Handler kv)) (r : Request) (rs : List Request)
      (t : Txn kv)
      → table (to_lower r.name) ≡ none
      → (run_pending table (r ∷ rs) t).0 ≡ err (unknown_command (to_lower r.name))
  unfolding run_pending
  run_pending-missing table r rs t n = ground (arith, n)

  run_pending-found :
      (table : Bytes → Option (List Bytes → Handler kv)) (r : Request) (rs : List Request)
      (t : Txn kv) (h : List Bytes → Handler kv)
      → table (to_lower r.name) ≡ some h
      → ((x : Error kv.Fault) × ((run_pending table (r ∷ rs) t).0 ≡ err x))
        ⊎ ((run_pending table (r ∷ rs) t).0
            ≡ (continue {kv = kv}
                (run_pending table rs (h r.args t).1).0
                (λ rest. pure ((is_publish r.name, (h r.args t).0) ∷ rest))
                (run_pending table rs (h r.args t).1).1).0)
  unfolding run_pending
  run_pending-found table r rs t h e = elim (Option-cases (h r.args t).1.error) [
    | inl n ↦ inr (ground (arith, e, n))
    | inr (x, f) ↦ inl (x, ground (arith, e, f))
  ]

  pub run_pending-HasLength :
      (table : Bytes → Option (List Bytes → Handler kv)) (rs : List Request) (t : Txn kv)
      → HasLength (length rs) (run_pending table rs t).0
  unfolding run_pending
  run_pending-HasLength table [] t = refl
  run_pending-HasLength table (r ∷ rs) t = elim (Option-cases (table (to_lower r.name))) [
    | inl n ↦ subst (HasLength (suc (length rs))) (sym (run_pending-missing table r rs t n)) tt
    | inr (h, e) ↦ elim (run_pending-found table r rs t h e) [
      | inl (x, f) ↦ subst (HasLength (suc (length rs))) (sym f) tt
      | inr f ↦
          subst (HasLength (suc (length rs))) (sym f)
            (cons-HasLength (length rs) _ _ _ (run_pending-HasLength table rs (h r.args t).1))
    ]
  ]
