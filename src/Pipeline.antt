-- ===== src/Pipeline.antt =====
-- core/investigation/pipeline.py, and what an orchestrator is given: the stages, the settings and the
-- collaborators, and the rows of the tables as the dictionaries that the stages read.
use nightswatch.Prelude.{
  ℕ, String, Bool, false, Option, none, some, List, [], ◌∷◌, str_eq, if◌then◌else◌,
}
use nightswatch.Json.{Json, null, integer, text, object, Fields, end, field}
use nightswatch.Action.{Exception}
use nightswatch.Context.{Context, Report}
use nightswatch.Database.{Status, StageEnd, Labels, Alert, Service}
use nightswatch.Repository.{in_statuses}

pub record StageResult : Type 0 where
  pub status : StageEnd
  pub output : Fields
  pub error : Option Fields

-- How `asyncio.wait_for(stage.execute(ctx), timeout)` ends.
pub data Executed : Type 0 where
  finished : StageResult → Executed
  timed_out : Executed
  raised : Exception → Executed

-- The protocol of a stage; `execute` is run under the timeout.
pub record Stage (W : Type 0) : Type 0 where
  pub name : String
  pub timeout_seconds : ℕ
  pub execute : Context W → Executed × Context W

pub record Settings : Type 0 where
  pub inv_budget_wall_seconds : ℕ
  pub inv_budget_tool_calls : ℕ
  pub llm_max_tokens_per_investigation : ℕ
  pub llm_max_cost_usd_per_investigation : ℕ
  pub llm_max_cost_usd_per_tenant_day : ℕ
  pub runbook_fetch_enabled : Bool

-- The collaborators of an orchestrator, and the clocks. The knowledge base and the dispatcher act on
-- the world only, and `none` stands for `None`.
-- What `deliver` raises goes on to the caller; the tables and the world are then as they are here.
pub record Collaborators (W : Type 0) : Type 0 where
  pub monotonic : W → ℕ
  pub utcnow : W → ℕ
  pub one_day : ℕ
  pub settings : Settings
  pub ingest_runbook_from_url : Option (String → W → W)
  pub ingest_past_investigation : Option (Report → Fields → Fields → W → W)
  pub deliver : Option (Report → W → W)
  pub store_tool_calls : Bool
  pub describe : Exception → String

abbrev pub terminal_statuses : List Status
terminal_statuses = Status.succeeded ∷ Status.partial ∷ Status.failed ∷ []

abbrev pub is_terminal : Status → Bool
is_terminal status = in_statuses status terminal_statuses

-- An identifier is a number here, where the source writes its text.
unfoldable pub labels_to_dict : Labels → Fields
labels_to_dict [] = end
labels_to_dict ((k, v) ∷ labels) = field k (text v) (labels_to_dict labels)

abbrev or_null : Option String → Json
or_null none = null
or_null (some s) = text s

unfoldable pub alert_to_dict : Option Alert → Fields
unfolding labels_to_dict
alert_to_dict none = end
alert_to_dict (some alert) = field "id" (integer false alert.id) (
    field "alert_name" (text alert.alert_name) (
      field "fingerprint" (text alert.fingerprint) (
        field "severity" (or_null alert.severity) (
          field "status" (text alert.status) (
            field "labels" (object (labels_to_dict alert.labels))
              (field "annotations" (object (labels_to_dict alert.annotations)) end))))))

unfoldable pub service_to_dict : Option Service → Fields
unfolding labels_to_dict
service_to_dict none = end
service_to_dict (some service) = field "id" (integer false service.id) (
    field "name" (text service.name)
      (field "label_selector" (object (labels_to_dict service.label_selector)) end))

-- A text that is there and not empty.
abbrev pub text_of : Option Json → Option String
text_of (some (text s)) = if str_eq s "" then none else some s
text_of _ = none
