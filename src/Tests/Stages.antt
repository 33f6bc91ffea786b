-- ===== src/Tests/Stages.antt =====
-- The stages that ask the model.
use nightswatch.Prelude.{ℕ, suc, ◌≡◌, refl, true, false, Option, none, some, [], ◌∷◌}
use nightswatch.Json.{Json, integer, text, array, object, nil, cons, Fields, end, field}
use nightswatch.Action.{Result, return, ◌>>=◌}
use nightswatch.Budget.{assert_can_call_llm, record_llm_call}
use nightswatch.Context.{medium, Context, Millionths, ValidatedHypothesis, Report}
use nightswatch.Database.{StageEnd}
use nightswatch.Pipeline.{StageResult}
use nightswatch.Tools.{for_stage, names}
use nightswatch.Gateway.{
  LlmResponse, Request, Environment, rounds, round, record_usage, paid_call, chat, try_parse_json,
  tool_loop,
}
use nightswatch.Stages.{Prompts, PyValues, without_fence, extract_json, assert_wall}
use nightswatch.Stages.Hypotheses as Hypotheses
use nightswatch.Stages.Hypotheses.Bounded.{Concluded, execute-Concluded}
use nightswatch.Stages.Validation as Validation
use nightswatch.Stages.Validation.Verdicts.{Verdicts, execute-Verdicts}
use nightswatch.Stages.Reporting as Reporting
use nightswatch.Stages.Reporting.{ReportOutput}
use nightswatch.Stages.Reporting.Fallback.{ReportedOr, execute-Reported}
use nightswatch.Tests.Data.{answers, ctx, env_of}

abbrev py : PyValues
py = record {
  strip = λ s. s;
  lower = λ s. s;
  str = λ value. "the disk is full";
  show = λ value. "None";
  dumps = λ value. "{}";
  show_float = λ value. "0.5";
}

abbrev prompts : Prompts
prompts = record {
  system = "system";
  hypothesis = "hypothesis";
  validation = λ statement confidence. statement;
  report = "report";
  report_version = "r1";
}

-- The object of every reply: one hypothesis, and a verdict.
abbrev replied : Fields
replied =
    field "hypotheses"
      (array (
        cons (object (field "statement" (text "the disk is full") end))
          (cons (integer false 3) nil)))
      (field "verdict" (text "confirmed") (field "confidence" (integer false 1) end))

abbrev says : Request → ℕ → Result LlmResponse × ℕ
says request w = (return answers, suc w)

abbrev env : Environment ℕ
env = record (env_of says) { loads = λ s. some (object replied) }

one_found :
    (Hypotheses.execute env py prompts true ctx).0
    ≡ return (record {
      status = StageEnd.succeeded;
      output = field "hypothesis_count" (integer false 1) end;
      error = none;
    })
unfolding Hypotheses.execute Hypotheses.investigate Hypotheses.conclude Hypotheses.parse_hypotheses
    Hypotheses.parse_data Hypotheses.parse_items Hypotheses.parse_item Hypotheses.sliced
    Hypotheses.iterated Hypotheses.refs_of Hypotheses.render_user extract_json without_fence
    assert_wall tool_loop rounds round record_usage chat paid_call assert_can_call_llm
    try_parse_json record_llm_call nightswatch.Json.get for_stage names ◌>>=◌
one_found = refl

execute-Concluded_example :
    Concluded
      (record {
        status = StageEnd.succeeded;
        output = field "hypothesis_count" (integer false 1) end;
        error = none;
      })
      (Hypotheses.execute env py prompts true ctx).1
execute-Concluded_example = execute-Concluded env py prompts ctx _ one_found

abbrev one : Millionths
one = record { minus = false; size = 500000 }

-- A context with one hypothesis.
abbrev suspecting : Context ℕ
suspecting = record ctx {
  hypotheses =
      record { statement = "the disk is full"; evidence_refs = []; initial_confidence = one } ∷ [];
}

abbrev one_confirmed : StageResult
one_confirmed = record {
  status = StageEnd.succeeded;
  output = field "validated_count" (integer false 1) (
      field "confirmed" (integer false 1)
        (field "refuted" (integer false 0) (field "inconclusive" (integer false 0) end)));
  error = none;
}

confirmed : (Validation.execute env py prompts true suspecting).0 ≡ return one_confirmed
unfolding Validation.execute Validation.validate Validation.validate_from Validation.validate_next
    Validation.ask Validation.conclude Validation.to_validated Validation.count_confirmed
    Validation.count_refuted Validation.bucket Validation.evidence_from_calls extract_json
    without_fence assert_wall tool_loop rounds round record_usage chat paid_call assert_can_call_llm
    try_parse_json record_llm_call nightswatch.Json.get for_stage names ◌>>=◌
confirmed = refl

execute-Verdicts_example :
    Verdicts suspecting.hypotheses one_confirmed
      (Validation.execute env py prompts true suspecting).1
execute-Verdicts_example = execute-Verdicts env py prompts suspecting one_confirmed confirmed

-- A reply that does not have the fields of a report.
abbrev refuses : Fields → Option ReportOutput
refuses fields = none

execute-Reported_example :
    ReportedOr suspecting
      (Reporting.execute env py prompts end refuses true suspecting).0
      (Reporting.execute env py prompts end refuses true suspecting).1
execute-Reported_example = execute-Reported env py prompts end refuses true suspecting

abbrev verdict : ValidatedHypothesis
verdict = record {
  hypothesis_id = 1;
  statement = "the disk is full";
  confidence = medium;
  confirmed = some true;
  evidence = [];
  reasoning = "";
  validated = true;
}

abbrev judged : Context ℕ
judged = record suspecting { validated = verdict ∷ [] }

abbrev fallback : Report
fallback = Reporting.fallback_report env py prompts end refuses judged "v1"
