-- ===== src/Context.antt =====
-- core/investigation/context.py: the bag that is threaded through the stages.
-- `W` is the state of everything outside the program: the clock, the provider, the backends.
use nightswatch.Prelude.{ℕ, String, Bool, Option, List, ◌∷◌, contains, if◌then◌else◌}
use nightswatch.Json.{Fields}
use nightswatch.Budget.{Budget}

pub data Classification : Type 0 where
  noise known_issue novel : Classification

pub record TriageResult : Type 0 where
  pub classification : Classification
  pub related_investigation_id : Option ℕ
  pub reasoning : String

-- A float, as a sign and a number of millionths.
pub record Millionths : Type 0 where
  pub minus : Bool
  pub size : ℕ

pub record Hypothesis : Type 0 where
  pub statement : String
  pub evidence_refs : List String
  pub initial_confidence : Millionths

pub record Evidence : Type 0 where
  pub source : String
  pub detail : String

pub data Confidence : Type 0 where
  low medium high : Confidence

-- `confirmed` is `none` where the test could not tell.
pub record ValidatedHypothesis : Type 0 where
  pub hypothesis_id : ℕ
  pub statement : String
  pub confidence : Confidence
  pub confirmed : Option Bool
  pub evidence : List Evidence
  pub reasoning : String
  pub validated : Bool

-- A hypothesis of a report: one that was not validated has neither a confidence nor a verdict, and
-- the model may write any text for the confidence.
pub record ReportHypothesis : Type 0 where
  pub statement : String
  pub confidence : Option String
  pub confirmed : Option Bool

pub record Report : Type 0 where
  pub schema_version : String
  pub headline : String
  pub confidence : Confidence
  pub hypotheses : List ReportHypothesis
  pub next_actions : List String
  pub related_incidents : List Fields
  pub prompt_version : String
  pub code_version : String
  pub investigation_id : ℕ

pub data Outcome : Type 0 where
  success error : Outcome

-- A row of the `tool_call` table, as `ToolCallRepository.record` writes it.
pub record ToolCallRow : Type 0 where
  pub investigation_id : ℕ
  pub stage_id : Option ℕ
  pub tool_name : String
  pub input : Fields
  pub output : Option Fields
  pub latency_ms : ℕ
  pub outcome : Outcome
  pub error : Option Fields

-- `store` is `none` where the dispatcher was built without one.
pub record Context (W : Type 0) : Type 0 where
  pub investigation_id : ℕ
  pub alert : Fields
  pub service : Fields
  pub budget : Budget
  pub triage : Option TriageResult
  pub hypotheses : List Hypothesis
  pub validated : List ValidatedHypothesis
  pub report : Option Report
  pub completed_stages : List String
  pub current_stage_id : Option ℕ
  pub dry_run : Bool
  pub store : Option (List ToolCallRow)
  pub world : W

module _ {W : Type 0} where
  unfoldable pub has_completed : String → Context W → Bool
  has_completed stage_name ctx = contains stage_name ctx.completed_stages

  unfoldable pub mark_completed : String → Context W → Context W
  mark_completed stage_name ctx =
      if contains stage_name ctx.completed_stages
      then ctx
      else record ctx { completed_stages = stage_name ∷ ctx.completed_stages }
