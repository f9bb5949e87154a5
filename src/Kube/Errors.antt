-- ===== src/Kube/Errors.antt =====
-- Errors as values: those of the API server, and those that the operator makes and wraps.
use fluent_pvc_operator.Prelude.{String, ◌≡◌, ◌⊎◌, inl, inr, refl}

-- apierrors.StatusError
pub record ApiError : Type 0 where
  pub reason : String
  pub message : String

-- What a call of the API server returns.
pub data Reply {ℓ} (A : Type ℓ) : Type ℓ where
  success : A → Reply A
  failure : ApiError → Reply A

-- `xerrors.Errorf("…: %w", err)` and `xerrors.New`
pub data Error : Type 0 where
  api : ApiError → Error
  wrap : String → Error → Error
  new : String → Error

-- What a Go function with an error result comes to; `panicked` is a nil dereference.
pub data Outcome {ℓ} (A : Type ℓ) : Type ℓ where
  ok : A → Outcome A
  err : Error → Outcome A
  panicked : Outcome A

-- To split on a reply and keep the equation.
pub Reply-cases {ℓ} :
    {A : Type ℓ} (r : Reply A) → ((a : A) × (r ≡ success a)) ⊎ ((e : ApiError) × (r ≡ failure e))
Reply-cases (success a) = inl (a, refl)
Reply-cases (failure e) = inr (e, refl)
