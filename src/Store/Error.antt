-- ===== src/Store/Error.antt =====
-- The errors of xerror/error.go and store/error.go that the modelled commands return. `F` is what
-- the client library returns.
use lancelot.Base.{◌≡◌, ◌⊎◌, refl, inl, inr, Bytes}

pub data Error (F : Type 0) : Type 0 where
  key_not_found reach_limit : Error F
  wrong_type check_failed syntax not_integer overflow offset value_too_short not_ttl : Error F
  key_is_locked exceed_max_size not_expire no_such_key not_support not_positive_integer : Error F
  gt_lt_compat gt_lt_nx_compat : Error F
  exec_without_multi discard_without_multi multi_nested watch_inside_multi transaction_discarded :
      Error F
  wrong_args invalid_expire unsupported_option unknown_command : Bytes → Error F
  fault : F → Error F

-- The pair `(value, error)` of a Go function.
pub data Result {ℓ} (F : Type 0) (A : Type ℓ) : Type ℓ where
  ok : A → Result F A
  err : Error F → Result F A

pub Result-cases {ℓ} :
    {F : Type 0} {A : Type ℓ} (r : Result F A)
    → ((a : A) × (r ≡ ok a)) ⊎ ((e : Error F) × (r ≡ err e))
Result-cases (ok a) = inl (a, refl)
Result-cases (err e) = inr (e, refl)
