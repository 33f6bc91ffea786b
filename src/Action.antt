-- ===== src/Action.antt =====
-- exceptions.py, and methods that change state and may raise: what was written before a raise
-- stays written, so the state comes back on the raising path too.
pub mod Preserves
pub mod Returns
use nightswatch.Prelude.{String, ◌≡◌, refl, ◌⊎◌, inl, inr, Bool, true, false}

-- What ran out, for `BudgetExhausted`.
pub data Reason : Type 0 where
  wall_clock tool_calls llm_tokens llm_cost tenant_cost : Reason

-- `other` is an exception of any other class, by its name.
pub data Exception : Type 0 where
  budget_exhausted : Reason → Exception
  llm_transient_error llm_response_invalid alert_validation_error : Exception
  other : String → Exception

pub data Result {ℓ} (A : Type ℓ) : Type ℓ where
  return : A → Result A
  raise : Exception → Result A

abbrev pub Action : Type 0 → Type 0 → Type 0
Action S A = S → Result A × S

module _ {S A : Type 0} where
  unfoldable pub pure : A → Action S A
  pure a s = (return a, s)

  unfoldable pub throw : Exception → Action S A
  throw e s = (raise e, s)

  unfoldable pub lift : Result A → Action S A
  lift r s = (r, s)

  unfoldable pub gets : (S → A) → Action S A
  gets f s = (return (f s), s)

unfoldable pub modify : {S : Type 0} → (S → S) → Action S Unit
modify f s = (return tt, f s)

module _ {S A B : Type 0} where
  abbrev pub proceed : Result A → (A → Action S B) → Action S B
  proceed (return a) f s = f a s
  proceed (raise e) f s = (raise e, s)

  infixl 5 ◌>>=◌
  -- Opening this opens the actions above too.
  unfoldable pub ◌>>=◌ : Action S A → (A → Action S B) → Action S B
  unfolding pure throw lift gets modify
  ◌>>=◌ m f s = let (r, s') = m s in proceed r f s'

infixl 5 ◌>>◌
abbrev pub ◌>>◌ : {S B : Type 0} → Action S Unit → Action S B → Action S B
m >> k = m >>= λ _. k

-- The class test of `except BudgetExhausted` and of `retry_if_exception_type(LLMTransientError)`.
abbrev pub is_budget_exhausted : Exception → Bool
is_budget_exhausted (budget_exhausted _) = true
is_budget_exhausted _ = false

abbrev pub is_transient : Exception → Bool
is_transient llm_transient_error = true
is_transient _ = false

pub Result-cases :
    {A : Type 0} (r : Result A) → ((a : A) × (r ≡ return a)) ⊎ ((e : Exception) × (r ≡ raise e))
Result-cases (return a) = inl (a, refl)
Result-cases (raise e) = inr (e, refl)

-- `type(exc).__name__`
abbrev pub class_name : Exception → String
class_name (budget_exhausted _) = "BudgetExhausted"
class_name llm_transient_error = "LLMTransientError"
class_name llm_response_invalid = "LLMResponseInvalid"
class_name alert_validation_error = "AlertValidationError"
class_name (other name) = name
