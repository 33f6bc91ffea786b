-- ===== src/Stages/Reporting.antt =====
-- core/investigation/stages/report.py and core/investigation/stages/context_assembly.py
pub mod Fallback
use nightswatch.Prelude.{
  ℕ, String, Bool, true, false, Option, none, some, List, [], ◌∷◌, ◌++◌, str_eq, is_empty, ◌||◌,
  not, if◌then◌else◌,
}
use nightswatch.Json
use nightswatch.Json.{Json, bool, text, Fields, end, field}
use nightswatch.Action.{
  Exception, budget_exhausted, llm_response_invalid, llm_transient_error, alert_validation_error,
  other, class_name, Result, return, raise, Action, pure, lift, gets, ◌>>=◌, ◌>>◌,
}
use nightswatch.Context.{
  Confidence, low, medium, high, Context, Evidence, Hypothesis, Report, ReportHypothesis,
  ValidatedHypothesis,
}
use nightswatch.Database.{StageEnd}
use nightswatch.Pipeline.{StageResult}
use nightswatch.Gateway.{Environment, LlmResponse, Request, user, chat}
use nightswatch.Queries.{join, parts}
use nightswatch.Stages.{Prompts, PyValues, assert_wall}
use nightswatch.Stages.Hypotheses.{classification_name}

-- What `ReportOutput.model_validate` makes of a dictionary, the confidence of a hypothesis included
-- where it is missing.
pub record ReportOutput : Type 0 where
  pub headline : String
  pub confidence : Confidence
  pub hypotheses : List ReportHypothesis
  pub next_actions : List String
  pub related_incidents : List Fields

abbrev pub confidence_name : Confidence → String
confidence_name low = "low"
confidence_name medium = "medium"
confidence_name high = "high"

abbrev confirmed_name : Option Bool → String
confirmed_name none = "None"
confirmed_name (some true) = "True"
confirmed_name (some false) = "False"

unfoldable pub confirmed_only : List ValidatedHypothesis → List ValidatedHypothesis
confirmed_only [] = []
confirmed_only (v ∷ vs) =
    let rest = confirmed_only vs in
    elim v.confirmed [ some b ↦ (if b then v ∷ rest else rest) | none ↦ rest ]

unfoldable pub of_validated : List ValidatedHypothesis → List ReportHypothesis
of_validated [] = []
of_validated (v ∷ vs) =
    record {
      statement = v.statement;
      confidence = some (confidence_name v.confidence);
      confirmed = v.confirmed;
    }
    ∷ of_validated vs

unfoldable pub of_hypotheses : List Hypothesis → List ReportHypothesis
of_hypotheses [] = []
of_hypotheses (h ∷ hs) =
    record { statement = h.statement; confidence = none; confirmed = none } ∷ of_hypotheses hs

unfoldable pub evidence_lines : List Evidence → List String
evidence_lines [] = []
evidence_lines (e ∷ es) =
    parts ("    evidence: " ∷ e.source ∷ ": " ∷ e.detail ∷ []) ∷ evidence_lines es

unfoldable pub validated_lines : List ValidatedHypothesis → List String
unfolding evidence_lines
validated_lines [] = []
validated_lines (v ∷ vs) =
    parts (
      "- ["
      ∷ confidence_name v.confidence
      ∷ "] confirmed="
      ∷ confirmed_name v.confirmed
      ∷ " :: "
      ∷ v.statement
      ∷ [])
    ∷ ((if str_eq v.reasoning "" then [] else parts ("    reasoning: " ∷ v.reasoning ∷ []) ∷ [])
        ++ (evidence_lines v.evidence ++ validated_lines vs))

module _ (py : PyValues) where
  unfoldable pub hypothesis_lines : List Hypothesis → List String
  hypothesis_lines [] = []
  hypothesis_lines (h ∷ hs) =
      parts (
        "- "
        ∷ h.statement
        ∷ " (initial confidence "
        ∷ py.show_float h.initial_confidence
        ∷ ")"
        ∷ [])
      ∷ hypothesis_lines hs

  abbrev body_lines : List ValidatedHypothesis → List Hypothesis → List String
  body_lines (v ∷ vs) hs = validated_lines (v ∷ vs)
  body_lines [] (h ∷ hs) = hypothesis_lines (h ∷ hs)
  body_lines [] [] = "(none)" ∷ []

  unfoldable pub render : {W : Type 0} → Context W → String
  unfolding validated_lines hypothesis_lines
  render ctx = join "\n" (
      "## Alert"
      ∷ parts ("name: " ∷ py.show (Json.get "alert_name" ctx.alert) ∷ [])
      ∷ parts ("severity: " ∷ py.show (Json.get "severity" ctx.alert) ∷ [])
      ∷ parts ("labels: " ∷ py.dumps (Json.get "labels" ctx.alert) ∷ [])
      ∷ ""
      ∷ parts ("## Triage: " ∷ classification_name ctx.triage ∷ [])
      ∷ ""
      ∷ "## Validated hypotheses"
      ∷ (body_lines ctx.validated ctx.hypotheses ++ "" ∷ "Write the final RCA JSON now." ∷ []))

module _ {W : Type 0} (env : Environment W) (py : PyValues) (prompts : Prompts)
    (model_json_schema : Fields) (model_validate : Fields → Option ReportOutput) where
  -- The headline and the confidence of a fallback, from the confirmed hypotheses.
  unfoldable pub headline_of :
      List ValidatedHypothesis → (any_hypothesis : Bool) → String × Confidence
  headline_of (v ∷ vs) any = (parts ("Likely cause: " ∷ v.statement ∷ []), v.confidence)
  headline_of [] true = ("Investigation completed without a confident root cause.", low)
  headline_of [] false = ("We received your alert but couldn't complete a diagnosis.", low)

  abbrev fallback_hypotheses : List ValidatedHypothesis → List Hypothesis → List ReportHypothesis
  fallback_hypotheses [] hs = of_hypotheses hs
  fallback_hypotheses (v ∷ vs) hs = of_validated (v ∷ vs)

  unfoldable pub fallback_report : Context W → String → Report
  unfolding confirmed_only of_validated of_hypotheses headline_of
  fallback_report ctx schema_version =
      let (headline, confidence) =
        headline_of (confirmed_only ctx.validated)
          (not (is_empty ctx.validated) || not (is_empty ctx.hypotheses)) in
      record {
        schema_version = schema_version;
        headline = headline;
        confidence = confidence;
        hypotheses = fallback_hypotheses ctx.validated ctx.hypotheses;
        next_actions = [];
        related_incidents = [];
        prompt_version = prompts.report_version;
        code_version = "dev";
        investigation_id = ctx.investigation_id;
      }

  abbrev reported : Report → Fields → Action (Context W) StageResult
  reported report output ctx = (
    return (record { status = StageEnd.succeeded; output = output; error = none }),
    record ctx { report = some report },
  )

  -- The handler of `except (LLMResponseInvalid, ValidationError, BudgetExhausted)`.
  unfoldable pub fall_back : (class : String) → Action (Context W) StageResult
  unfolding fallback_report
  fall_back class ctx =
      let report = fallback_report ctx "v1-fallback" in
      reported report
        (field "confidence" (text (confidence_name report.confidence))
          (field "fallback" (bool true) (field "error" (text class) end)))
        ctx

  unfoldable pub accept : ReportOutput → Action (Context W) StageResult
  accept out ctx =
      reported
        (record {
          schema_version = "v1";
          headline = out.headline;
          confidence = out.confidence;
          hypotheses = out.hypotheses;
          next_actions = out.next_actions;
          related_incidents = out.related_incidents;
          prompt_version = prompts.report_version;
          code_version = "dev";
          investigation_id = ctx.investigation_id;
        })
        (field "confidence" (text (confidence_name out.confidence)) end) ctx

  abbrev or_empty : Option Fields → Fields
  or_empty none = end
  or_empty (some fields) = fields

  abbrev accept_or_fall_back : Option ReportOutput → Action (Context W) StageResult
  accept_or_fall_back none = fall_back "ValidationError"
  accept_or_fall_back (some out) = accept out

  -- How the `try` block ends; what is not caught goes on.
  unfoldable pub settle : Result LlmResponse → Action (Context W) StageResult
  unfolding fall_back accept
  settle (return resp) = accept_or_fall_back (model_validate (or_empty resp.structured))
  settle (raise (budget_exhausted reason)) = fall_back "BudgetExhausted"
  settle (raise llm_response_invalid) = fall_back "LLMResponseInvalid"
  settle (raise llm_transient_error) = lift (raise llm_transient_error)
  settle (raise alert_validation_error) = lift (raise alert_validation_error)
  settle (raise (other name)) = lift (raise (other name))

  abbrev request : Context W → Request
  request ctx = record {
    system = parts (prompts.system ∷ "\n\n" ∷ prompts.report ∷ []);
    messages =
        record { role = user; content = render py ctx; tool_use = []; tool_use_id = none } ∷ [];
    tools = [];
    response_format = some model_json_schema;
    max_tokens = 4096;
  }

  unfoldable pub ask : Action (Context W) StageResult
  unfolding settle render
  ask ctx = let (result, after) = chat env (request ctx) ctx in settle result after

  abbrev without_gateway : Action (Context W) StageResult
  without_gateway ctx =
      let report = fallback_report ctx "v1" in
      reported report
        (field "confidence" (text (confidence_name report.confidence))
          (field "fallback" (bool true) end))
        ctx

  unfoldable pub execute : (configured : Bool) → Action (Context W) StageResult
  unfolding ask fallback_report
  execute configured = if configured then ask else without_gateway

-- `ContextAssemblyStage.execute`: nothing is collected yet, and the summary is not in the context.
unfoldable pub assemble : {W : Type 0} → Environment W → Action (Context W) StageResult
unfolding assert_wall
assemble env = do
  assert_wall env
  pure (record { status = StageEnd.succeeded; output = end; error = none })
