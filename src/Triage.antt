-- ===== src/Triage.antt =====
-- core/investigation/stages/triage.py: the first gate of an investigation, without the model.
pub mod Sound
use Prim.Native.String.{◌++◌ as join}
use nightswatch.Prelude.{
  ℕ, ◌-◌, ◌/◌, ◌*◌, String, Bool, true, false, Option, none, some, List, [], ◌∷◌, leb,
  if◌then◌else◌,
}
use nightswatch.Json
use nightswatch.Json.{Json, null, text, Fields, end, field}
use nightswatch.Action.{Result, return, raise, Action, gets, lift, pure, ◌>>=◌}
use nightswatch.Budget.{assert_within_wall}
use nightswatch.Context.{Classification, noise, known_issue, novel, TriageResult, Context}
use nightswatch.Database.{Status, StageEnd, Investigation, Db}
use nightswatch.Repository.{find_by_fingerprint, count_by_fingerprint}
use nightswatch.Pipeline.{StageResult, text_of}

-- The windows are in milliseconds. The two repositories may be absent. `str` writes an identifier
-- or a count.
pub record TriageStage : Type 0 where
  pub has_investigation_repo : Bool
  pub has_alert_repo : Bool
  pub known_issue_window : ℕ
  pub noise_window : ℕ
  pub noise_threshold : ℕ
  pub str : ℕ → String

abbrev pub resolved_statuses : List Status
resolved_statuses = Status.succeeded ∷ Status.partial ∷ []

abbrev status_name : Status → String
status_name Status.pending = "pending"
status_name Status.running = "running"
status_name Status.succeeded = "succeeded"
status_name Status.partial = "partial"
status_name Status.failed = "failed"

abbrev classification_name : Classification → String
classification_name noise = "noise"
classification_name known_issue = "known_issue"
classification_name novel = "novel"

abbrev pub novel_result : String → TriageResult
novel_result reasoning = record {
  classification = novel;
  related_investigation_id = none;
  reasoning = reasoning;
}

module _ (stage : TriageStage) (tenant_id : ℕ) where
  abbrev noise_result : (flaps : ℕ) → TriageResult
  noise_result flaps = record {
    classification = noise;
    related_investigation_id = none;
    reasoning = join (stage.str flaps) (
        join " firings in the last "
          (join (stage.str (stage.noise_window / 60000)) "m (flapping)"));
  }

  abbrev known_result : Investigation → TriageResult
  known_result prior = record {
    classification = known_issue;
    related_investigation_id = some prior.id;
    reasoning =
        join "matches prior investigation "
          (join (stage.str prior.id) (join " (" (join (status_name prior.status) ")")));
  }

  -- `if prior:`, with the newest first.
  abbrev pub of_prior : List Investigation → TriageResult
  of_prior [] = novel_result "no prior match"
  of_prior (prior ∷ others) = known_result prior

  abbrev known_or_novel : (now investigation_id : ℕ) → String → Db → TriageResult
  known_or_novel now investigation_id fingerprint db =
      if stage.has_investigation_repo
      then of_prior (
          find_by_fingerprint tenant_id fingerprint (now - stage.known_issue_window)
            investigation_id resolved_statuses db)
      else novel_result "no prior match"

  -- `_classify`, for a fingerprint that is `none` where it is missing or empty.
  unfoldable pub classify : (now investigation_id : ℕ) → Option String → Db → TriageResult
  classify now investigation_id none db = novel_result "no fingerprint"
  classify now investigation_id (some fingerprint) db =
      let flaps = count_by_fingerprint tenant_id fingerprint (now - stage.noise_window) db in
      if stage.has_alert_repo
      then if leb stage.noise_threshold flaps
        then noise_result flaps
        else known_or_novel now investigation_id fingerprint db
      else known_or_novel now investigation_id fingerprint db

  abbrev id_or_null : Option ℕ → Json
  id_or_null none = null
  id_or_null (some id) = text (stage.str id)

  abbrev pub output : TriageResult → Fields
  output triage = field "classification" (text (classification_name triage.classification)) (
      field "related_investigation_id" (id_or_null triage.related_investigation_id)
        (field "reasoning" (text triage.reasoning) end))

  module _ {W : Type 0} (monotonic utcnow : W → ℕ) (db : Db) where
    -- The rest of `execute`, after the guard.
    unfoldable pub triaged : Action (Context W) StageResult
    unfolding classify
    triaged ctx =
        let triage =
          classify (utcnow ctx.world) ctx.investigation_id
            (text_of (Json.get "fingerprint" ctx.alert)) db in
        (
          return (record { status = StageEnd.succeeded; output = output triage; error = none }),
          record ctx { triage = some triage },
        )

    unfoldable pub execute : Action (Context W) StageResult
    unfolding triaged ◌>>=◌
    execute ctx = (lift (assert_within_wall (monotonic ctx.world) ctx.budget) >>= λ _. triaged) ctx
