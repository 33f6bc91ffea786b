-- ===== src/Stages/Validation/Verdicts.antt =====
-- The verdicts of the validation stage against the hypotheses that it was given.
use nightswatch.Prelude.{
  ℕ, suc, ◌+◌, ◌-◌, ◌≤◌, ◌≡◌, ◌⊎◌, inl, inr, refl, Bool, true, false, Option, none, some, List, [],
  ◌∷◌, length, take, if◌then◌else◌, arith,
}
use nightswatch.Json.{integer, end, field}
use nightswatch.Action.{
  budget_exhausted, llm_transient_error, llm_response_invalid, alert_validation_error, other,
  Result, return, raise, Action, gets, proceed, ◌>>=◌,
}
use nightswatch.Action.Returns.{
  Ensures, Ensures-bind, Ensures-after, Ensures-run, Ensures-raise, Ensures-pure,
}
use nightswatch.Budget.{assert_within_wall}
use nightswatch.Context.{Context, Hypothesis, ValidatedHypothesis}
use nightswatch.Pipeline.{StageResult}
use nightswatch.Gateway.{Environment, LlmResponse}
use nightswatch.Stages.{Prompts, PyValues, assert_wall}
use nightswatch.Stages.Validation.{
  top_k, is_confirmed, is_refuted, count_confirmed, count_refuted, unvalidated_from, to_validated,
  validate_next, validate_from, conclude, validate, execute,
}

-- Nothing is claimed of any of them.
abbrev pub AllUnvalidated : List ValidatedHypothesis → Type 0
AllUnvalidated [] = Unit
AllUnvalidated (v ∷ vs) =
    (v.validated ≡ false) × (v.confirmed ≡ none) × (v.evidence ≡ []) × AllUnvalidated vs

-- One answer for each hypothesis, in the same order, numbered from `id` and with its statement; from
-- the first that was not validated on, none was.
abbrev pub Answered : (id : ℕ) → List Hypothesis → List ValidatedHypothesis → Type 0
Answered id [] [] = Unit
Answered id [] (v ∷ vs) = ⊥
Answered id (h ∷ hs) [] = ⊥
Answered id (h ∷ hs) (v ∷ vs) =
    (v.hypothesis_id ≡ id)
    × (v.statement ≡ h.statement)
    × ((v.validated ≡ true) ⊎ AllUnvalidated (v ∷ vs))
    × Answered (suc id) hs vs

AllUnvalidated-unvalidated_from :
    (id : ℕ) (hs : List Hypothesis) → AllUnvalidated (unvalidated_from id hs)
unfolding unvalidated_from
AllUnvalidated-unvalidated_from id [] = tt
AllUnvalidated-unvalidated_from id (h ∷ hs) =
    (refl, refl, refl, AllUnvalidated-unvalidated_from (suc id) hs)

Answered-unvalidated_from :
    (id : ℕ) (hs : List Hypothesis) → Answered id hs (unvalidated_from id hs)
unfolding unvalidated_from
Answered-unvalidated_from id [] = tt
Answered-unvalidated_from id (h ∷ hs) = (
  refl,
  refl,
  inr (refl, refl, refl, AllUnvalidated-unvalidated_from (suc id) hs),
  Answered-unvalidated_from (suc id) hs,
)

-- The verdicts of the output add up to the answers.
pub record Verdicts {W : Type 0} (hypotheses : List Hypothesis) (result : StageResult)
    (after : Context W) : Type 0 where
  pub answered : Answered 1 (take top_k hypotheses) after.validated
  pub confirmed : ℕ
  pub refuted : ℕ
  pub inconclusive : ℕ
  pub total : confirmed + refuted + inconclusive ≡ length after.validated
  pub output :
      result.output
      ≡ field "validated_count" (integer false (length after.validated)) (
          field "confirmed" (integer false confirmed) (
            field "refuted"
              (integer false refuted)
              (field "inconclusive" (integer false inconclusive) end)))

one_verdict :
    (v : Option Bool) → (if is_confirmed v then 1 else 0) + (if is_refuted v then 1 else 0) ≤ 1
one_verdict none = omega arith
one_verdict (some true) = omega arith
one_verdict (some false) = omega arith

counts-le : (vs : List ValidatedHypothesis) → count_confirmed vs + count_refuted vs ≤ length vs
unfolding count_confirmed count_refuted
counts-le [] = omega arith
counts-le (v ∷ vs) = omega (arith, one_verdict v.confirmed, counts-le vs)

module _ {W : Type 0} (env : Environment W) (py : PyValues) (prompts : Prompts) where
  Answered-next :
      (id : ℕ) (h : Hypothesis) (hs : List Hypothesis) (resp : LlmResponse)
      (vs : List ValidatedHypothesis)
      → Answered (suc id) hs vs
      → Answered id (h ∷ hs) (to_validated py env.dumps env.loads id h resp ∷ vs)
  unfolding to_validated
  Answered-next id h hs resp vs answered = (refl, refl, inl refl, answered)

  validate_next-Answered :
      (guard : Result (Unit {0})) (id : ℕ) (h : Hypothesis) (hs : List Hypothesis)
      (rest : Action (Context W) (List ValidatedHypothesis))
      → Ensures (λ vs ctx. Answered (suc id) hs vs) rest
      → Ensures
          (λ vs ctx. Answered id (h ∷ hs) vs)
          (validate_next env py prompts guard id h hs rest)
  unfolding validate_next
  validate_next-Answered (raise (budget_exhausted reason)) id h hs rest ih =
      Ensures-pure _ (λ ctx. Answered-unvalidated_from id (h ∷ hs))
  validate_next-Answered (raise llm_transient_error) id h hs rest ih = Ensures-raise _
  validate_next-Answered (raise llm_response_invalid) id h hs rest ih = Ensures-raise _
  validate_next-Answered (raise alert_validation_error) id h hs rest ih = Ensures-raise _
  validate_next-Answered (raise (other name)) id h hs rest ih = Ensures-raise _
  validate_next-Answered (return _) id h hs rest ih = Ensures-bind _ _ (λ resp.
      Ensures-after rest _ ih
        (λ vs answered. Ensures-pure _ (λ ctx. Answered-next id h hs resp vs answered)))

  validate_from-Answered :
      (id : ℕ) (hs : List Hypothesis)
      → Ensures (λ vs ctx. Answered id hs vs) (validate_from env py prompts id hs)
  unfolding validate_from
  validate_from-Answered id [] = Ensures-pure _ (λ ctx. tt)
  validate_from-Answered id (h ∷ hs) = Ensures-bind _ _ (λ guard.
      validate_next-Answered guard id h hs (validate_from env py prompts (suc id) hs)
        (validate_from-Answered (suc id) hs))

  conclude-Verdicts :
      (hs : List Hypothesis) (vs : List ValidatedHypothesis)
      → Answered 1 (take top_k hs) vs
      → Ensures (Verdicts hs) (conclude env py prompts vs)
  unfolding conclude
  conclude-Verdicts hs vs answered = Ensures-run _ _ (λ ctx. record {
    answered = answered;
    confirmed = count_confirmed vs;
    refuted = count_refuted vs;
    inconclusive = length vs - count_confirmed vs - count_refuted vs;
    total = omega (arith, counts-le vs);
    output = refl;
  })

  validate-Verdicts :
      (ctx : Context W) (result : StageResult)
      → (validate env py prompts ctx).0 ≡ return result
      → Verdicts ctx.hypotheses result (validate env py prompts ctx).1
  unfolding validate ◌>>=◌ gets
  validate-Verdicts ctx =
      (Ensures-after (validate_from env py prompts 1 (take top_k ctx.hypotheses))
          (conclude env py prompts) (validate_from-Answered 1 (take top_k ctx.hypotheses))
          (conclude-Verdicts ctx.hypotheses)).holds
        ctx

  guarded-Verdicts :
      (guard : Result (Unit {0})) (ctx : Context W) (result : StageResult)
      → (proceed guard (λ _. validate env py prompts) ctx).0 ≡ return result
      → Verdicts ctx.hypotheses result (proceed guard (λ _. validate env py prompts) ctx).1
  guarded-Verdicts (return _) ctx result h = validate-Verdicts ctx result h
  guarded-Verdicts (raise e) ctx result h = absurd (cc)

  -- Where the model is configured and the validation stage returns, the context has one answer for
  -- each of the first three hypotheses that the stage found, in the same order and with the same
  -- statement; the answers that were not validated come last, with no verdict and no evidence. The
  -- confirmed, refuted and inconclusive answers of the output add up to their number.
  pub execute-Verdicts :
      (ctx : Context W) (result : StageResult)
      → (execute env py prompts true ctx).0 ≡ return result
      → Verdicts ctx.hypotheses result (execute env py prompts true ctx).1
  unfolding execute assert_wall ◌>>=◌
  execute-Verdicts ctx =
      guarded-Verdicts (assert_within_wall (env.monotonic ctx.world) ctx.budget) ctx
