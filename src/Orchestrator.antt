-- ===== src/Orchestrator.antt =====
-- core/investigation/orchestrator.py: the run of one investigation.
pub mod Lifecycle
pub mod Step
pub mod Loop
pub mod Resume
use nightswatch.Prelude.{
  ℕ, ◌+◌, ◌-◌, String, Bool, true, false, not, ◌&&◌, ◌||◌, Option, none, some, List, [], ◌∷◌, ◌++◌,
  is_empty, contains, ltb, ◌==◌, str_eq, if◌then◌else◌,
}
use nightswatch.Json
use nightswatch.Json.{Json, null, integer, text, object, Fields, end, field}
use nightswatch.Action.{Exception, Reason, class_name}
use nightswatch.Budget
use nightswatch.Budget.{Budget, snapshot, message}
use nightswatch.Context.{Context, Confidence, low, Report, has_completed, mark_completed}
use nightswatch.Database.{
  Status, StageEnd, StageStatus, Labels, Alert, Investigation, InvestigationStage, Service, Db,
}
use nightswatch.Repository.{
  filter, first, set_status, get, get_by_id, sum_llm_cost_since, upsert_report, in_statuses,
}
use nightswatch.Repository.StageRows.{
  StageWrite, get_completed_stage_names, find_stage, upsert_stage,
}
use nightswatch.Pipeline.{
  StageResult, Executed, finished, timed_out, raised, Stage, Settings, Collaborators,
  terminal_statuses, is_terminal, labels_to_dict, alert_to_dict, service_to_dict, text_of,
}
use nightswatch.StageRuns.{Run, build_context, write_stage, write, run_stages}

module _ {W : Type 0} (c : Collaborators W) (tenant_id : ℕ) where
  unfoldable pub persist_report : Run W → Run W
  persist_report run = elim run.ctx.report [
    | none ↦ run
    | some report ↦ record run {
      db = upsert_report tenant_id run.ctx.investigation_id report run.db;
    }
  ]

  abbrev confidence_of : Option Report → Confidence
  confidence_of none = low
  confidence_of (some report) = report.confidence

  unfoldable pub finalize_as : Status → (now : ℕ) → Run W → Run W
  unfolding persist_report
  finalize_as status now run =
      let run' = persist_report run in
      record run' {
        db =
            set_status run'.ctx.investigation_id status (some (confidence_of run'.ctx.report)) none
              (some now) (some (snapshot (c.monotonic run'.ctx.world) run'.ctx.budget)) run'.db;
      }

  unfoldable pub finalize : Run W → Run W
  unfolding finalize_as
  finalize run = finalize_as Status.succeeded (c.utcnow run.ctx.world) run

  abbrev exhausted : Reason → (now : ℕ) → StageWrite
  exhausted reason now =
      write c tenant_id (StageStatus.ended StageEnd.budget_exhausted) none
        (some (field "reason" (text (message reason)) end)) (some now) (some now)

  -- The body of the loop of `finalize_partial`.
  unfoldable pub exhaust_one : Reason → (now : ℕ) → Stage W → Run W → Run W
  exhaust_one reason now stage run =
      if has_completed stage.name run.ctx
      then run
      else write_stage c tenant_id stage.name (exhausted reason now) run

  unfoldable pub exhaust_rest : Reason → (now : ℕ) → List (Stage W) → Run W → Run W
  exhaust_rest reason now [] run = run
  exhaust_rest reason now (stage ∷ stages) run =
      exhaust_rest reason now stages (exhaust_one reason now stage run)

  unfoldable pub finalize_partial : Reason → List (Stage W) → Run W → Run W
  unfolding exhaust_rest finalize_as
  finalize_partial reason stages run =
      let now = c.utcnow run.ctx.world in
      finalize_as Status.partial now (exhaust_rest reason now stages run)

  -- `except BudgetExhausted` and `else`
  unfoldable pub conclude : List (Stage W) → Option Reason × Run W → Run W
  unfolding finalize finalize_partial
  conclude stages (none, run) = finalize run
  conclude stages (some reason, run) = finalize_partial reason stages run

  abbrev on_world : (W → W) → Run W → Run W
  on_world f run = record run { ctx = record run.ctx { world = f run.ctx.world } }

  abbrev fields_of : Option Json → Fields
  fields_of (some (object fields)) = fields
  fields_of _ = end

  unfoldable pub ingest_alert_runbook : Run W → Run W
  ingest_alert_runbook run = elim c.ingest_runbook_from_url [
    | none ↦ run
    | some ingest ↦
        elim (text_of (Json.get "runbook_url" (fields_of (Json.get "annotations" run.ctx.alert)))) [
          | none ↦ run
          | some url ↦ if c.settings.runbook_fetch_enabled then on_world (ingest url) run else run
        ]
  ]

  unfoldable pub ingest_past_investigation : Run W → Run W
  ingest_past_investigation run = elim c.ingest_past_investigation [
    | none ↦ run
    | some ingest ↦ elim run.ctx.report [
      | none ↦ run
      | some report ↦ on_world (ingest report run.ctx.alert run.ctx.service) run
    ]
  ]

  unfoldable pub dispatch_delivery : Run W → Run W
  dispatch_delivery run = if run.ctx.dry_run then run else elim c.deliver [
    | none ↦ run
    | some deliver ↦ elim run.ctx.report [
      | none ↦ run
      | some report ↦ on_world (deliver report) run
    ]
  ]

  abbrev set_running : (now id : ℕ) → Db → Db
  set_running now id db = set_status id Status.running none (some now) none none db

  unfoldable pub run_pipeline : List (Stage W) → Investigation → Db → W → Run W
  run_pipeline stages inv db world =
      let opened : Run W = record {
        db = set_running (c.utcnow world) inv.id db;
        ctx = build_context c tenant_id inv db world;
      } in
      dispatch_delivery (
        ingest_past_investigation
          (conclude stages (run_stages c tenant_id stages (ingest_alert_runbook opened))))

  abbrev result_of : Run W → Db × W
  result_of run = (run.db, run.ctx.world)

  unfoldable pub run_found : List (Stage W) → Option Investigation → Db × W → Db × W
  run_found stages none (db, world) = (db, world)
  run_found stages (some inv) (db, world) =
      if is_terminal inv.status then (db, world) else result_of (run_pipeline stages inv db world)

  -- `run(investigation_id)` on the tables and the world.
  unfoldable pub run : List (Stage W) → ℕ → Db × W → Db × W
  unfolding run_found
  run stages investigation_id (db, world) =
      run_found stages (get tenant_id investigation_id db) (db, world)
