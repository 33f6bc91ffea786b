-- ===== src/Stages/Validation.antt =====
-- core/investigation/stages/validation.py
pub mod Verdicts
use Prim.Native.String as Native
use nightswatch.Prelude.{
  ℕ, suc, ◌+◌, ◌-◌, String, Bool, true, false, not, Option, none, some, List, [], ◌∷◌, length, take,
  leb, str_eq, is_empty, if◌then◌else◌,
}
use nightswatch.Json
use nightswatch.Json.{Json, integer, text, Fields, end, field}
use nightswatch.Action.{
  budget_exhausted, Result, return, raise, Action, pure, lift, gets, ◌>>=◌, ◌>>◌,
}
use nightswatch.Budget.{assert_can_call_llm}
use nightswatch.Context.{
  Confidence, low, medium, high, Context, Evidence, Hypothesis, Millionths, ValidatedHypothesis,
}
use nightswatch.Database.{StageEnd}
use nightswatch.Pipeline.{StageResult}
use nightswatch.Tools.{for_stage, names}
use nightswatch.Gateway.{Environment, Dispatched, LlmResponse, tool_loop}
use nightswatch.Stages.{Prompts, PyValues, number_or, extract_json, assert_wall}

abbrev pub top_k : ℕ
top_k = 3

abbrev pub max_iterations_per_hypothesis : ℕ
max_iterations_per_hypothesis = 4

-- No negative number reaches a threshold.
unfoldable pub bucket : Millionths → Confidence
bucket confidence =
    if confidence.minus
    then low
    else if leb 670000 confidence.size
    then high
    else if leb 340000 confidence.size
    then medium
    else low

unfoldable pub evidence_from_calls : (dumps : Fields → String) → List Dispatched → List Evidence
evidence_from_calls dumps [] = []
evidence_from_calls dumps (call ∷ calls) =
    record { source = call.name; detail = Native.slice (dumps call.result) 0 200 }
    ∷ evidence_from_calls dumps calls

-- `{"confirmed": True, "refuted": False}.get(verdict)` of a verdict that is a text.
abbrev pub verdict_of : Option Json → Option Bool
verdict_of (some (text verdict)) =
    if str_eq verdict "confirmed"
    then some true
    else if str_eq verdict "refuted"
    then some false
    else none
verdict_of _ = none

abbrev or_empty : Option Fields → Fields
or_empty none = end
or_empty (some fields) = fields

abbrev fallback_evidence : String → List Evidence → List Evidence
fallback_evidence reasoning [] =
    if str_eq reasoning "" then [] else record { source = "reasoning"; detail = reasoning } ∷ []
fallback_evidence reasoning (e ∷ es) = e ∷ es

abbrev is_confirmed : Option Bool → Bool
is_confirmed (some true) = true
is_confirmed _ = false

abbrev is_refuted : Option Bool → Bool
is_refuted (some false) = true
is_refuted _ = false

unfoldable pub count_confirmed : List ValidatedHypothesis → ℕ
count_confirmed [] = 0
count_confirmed (v ∷ vs) = (if is_confirmed v.confirmed then 1 else 0) + count_confirmed vs

unfoldable pub count_refuted : List ValidatedHypothesis → ℕ
count_refuted [] = 0
count_refuted (v ∷ vs) = (if is_refuted v.confirmed then 1 else 0) + count_refuted vs

-- `hypothesis_id` is the number of the text `h1`, `h2`, and so on.
unfoldable pub unvalidated : ℕ → Hypothesis → ValidatedHypothesis
unfolding bucket
unvalidated hypothesis_id hypothesis = record {
  hypothesis_id = hypothesis_id;
  statement = hypothesis.statement;
  confidence = bucket hypothesis.initial_confidence;
  confirmed = none;
  evidence = [];
  reasoning = "Not validated — investigation budget exhausted.";
  validated = false;
}

unfoldable pub unvalidated_from : ℕ → List Hypothesis → List ValidatedHypothesis
unfolding unvalidated
unvalidated_from id [] = []
unvalidated_from id (h ∷ hs) = unvalidated id h ∷ unvalidated_from (suc id) hs

module _ (py : PyValues) where
  abbrev confidence_of : Hypothesis → Option Json → Millionths
  confidence_of hypothesis none = hypothesis.initial_confidence
  confidence_of hypothesis (some raw) = number_or hypothesis.initial_confidence raw

  abbrev reasoning_of : Option Json → String
  reasoning_of none = ""
  reasoning_of (some value) = py.str value

  unfoldable pub to_validated :
      (dumps : Fields → String) (loads : String → Option Json)
      → ℕ
      → Hypothesis
      → LlmResponse
      → ValidatedHypothesis
  unfolding extract_json bucket evidence_from_calls
  to_validated dumps loads hypothesis_id hypothesis resp =
      let parsed = or_empty (extract_json py loads resp.text) in
      let reasoning = reasoning_of (Json.get "reasoning" parsed) in
      record {
        hypothesis_id = hypothesis_id;
        statement = hypothesis.statement;
        confidence = bucket (confidence_of hypothesis (Json.get "confidence" parsed));
        confirmed = verdict_of (Json.get "verdict" parsed);
        evidence =
            fallback_evidence reasoning (evidence_from_calls dumps resp.dispatched_tool_calls);
        reasoning = reasoning;
        validated = true;
      }

module _ {W : Type 0} (env : Environment W) (py : PyValues) (prompts : Prompts) where
  unfoldable pub ask : Hypothesis → Action (Context W) LlmResponse
  ask hypothesis =
      tool_loop env prompts.system
        (prompts.validation hypothesis.statement hypothesis.initial_confidence)
        (names (for_stage "validation" env.registry)) max_iterations_per_hypothesis

  -- The guard of one round, and what it decides: an exhausted budget ends the loop.
  unfoldable pub validate_next :
      Result (Unit {0})
      → ℕ
      → Hypothesis
      → List Hypothesis
      → Action (Context W) (List ValidatedHypothesis)
      → Action (Context W) (List ValidatedHypothesis)
  unfolding to_validated unvalidated_from
  validate_next (raise (budget_exhausted reason)) id h hs rest = pure (unvalidated_from id (h ∷ hs))
  validate_next (raise e) id h hs rest = lift (raise e)
  validate_next (return _) id h hs rest = do
    resp ← ask h
    validated ← rest
    pure (to_validated py env.dumps env.loads id h resp ∷ validated)

  unfoldable pub validate_from : ℕ → List Hypothesis → Action (Context W) (List ValidatedHypothesis)
  unfolding validate_next
  validate_from id [] = pure []
  validate_from id (h ∷ hs) = do
    guard ← gets (λ ctx. assert_can_call_llm (env.monotonic ctx.world) 0 ctx.budget)
    validate_next guard id h hs (validate_from (suc id) hs)

  unfoldable pub conclude : List ValidatedHypothesis → Action (Context W) StageResult
  unfolding count_confirmed count_refuted
  conclude validated ctx =
      let confirmed = count_confirmed validated in
      let refuted = count_refuted validated in
      (
        return (record {
          status = StageEnd.succeeded;
          output = field "validated_count" (integer false (length validated)) (
              field "confirmed" (integer false confirmed) (
                field "refuted" (integer false refuted) (
                  field "inconclusive" (integer false (length validated - confirmed - refuted))
                    end)));
          error = none;
        }),
        record ctx { validated = validated },
      )

  unfoldable pub validate : Action (Context W) StageResult
  unfolding validate_from conclude
  validate = do
    hypotheses ← gets (λ ctx. ctx.hypotheses)
    validated ← validate_from 1 (take top_k hypotheses)
    conclude validated

  abbrev skipped : Action (Context W) StageResult
  skipped ctx = (
    return (record {
      status = StageEnd.succeeded;
      output = field "skipped" (text "no_gateway") end;
      error = none;
    }),
    ctx,
  )

  unfoldable pub execute : (configured : Bool) → Action (Context W) StageResult
  unfolding validate assert_wall
  execute configured = do assert_wall env; if configured then validate else skipped
