-- ===== src/StageRuns.antt =====
-- core/investigation/orchestrator.py: the context of an investigation, and the run of its stages.
use nightswatch.Prelude.{
  ℕ, ◌-◌, String, false, ◌&&◌, Option, none, some, List, [], ◌∷◌, ltb, ◌==◌, if◌then◌else◌,
}
use nightswatch.Json.{integer, text, Fields, end, field}
use nightswatch.Action.{Exception, Reason, class_name}
use nightswatch.Budget
use nightswatch.Budget.{Budget, snapshot, message}
use nightswatch.Context.{Context, has_completed, mark_completed}
use nightswatch.Database.{StageEnd, StageStatus, Alert, Investigation, InvestigationStage, Db}
use nightswatch.Repository.{filter, first, get_by_id, sum_llm_cost_since}
use nightswatch.Repository.StageRows.{
  StageWrite, get_completed_stage_names, find_stage, upsert_stage,
}
use nightswatch.Pipeline.{
  Executed, finished, timed_out, raised, Stage, Collaborators, alert_to_dict, service_to_dict,
}

-- `ctx` with the tables beside it.
pub record Run (W : Type 0) : Type 0 where
  pub db : Db
  pub ctx : Context W

-- The exception ends the loop.
abbrev pub unless_stopped :
    {W : Type 0} → (Run W → Option Reason × Run W) → Option Reason × Run W → Option Reason × Run W
unless_stopped rest (none, run) = rest run
unless_stopped rest (some reason, run) = (some reason, run)

module _ {W : Type 0} (c : Collaborators W) (tenant_id : ℕ) where
  -- The catalog, the topology and the tenant's name are read here too; they are not in the model.
  unfoldable pub build_context : Investigation → Db → W → Context W
  unfolding alert_to_dict service_to_dict
  build_context inv db world =
      let settings = c.settings in
      let tenant_spent : ℕ =
        if ltb 0 settings.llm_max_cost_usd_per_tenant_day
        then sum_llm_cost_since tenant_id (c.utcnow world - c.one_day) db
        else 0 in
      let alert : Option Alert = elim inv.triggering_alert_id [
        | none ↦ none
        | some id ↦ first (filter (λ (a : Alert). a.tenant_id == tenant_id && a.id == id) db.alerts)
      ] in
      record {
        investigation_id = inv.id;
        alert = alert_to_dict alert;
        service = service_to_dict (get_by_id tenant_id inv.service_id db);
        budget = Budget.start (c.monotonic world) (record {
          max_wall_seconds = settings.inv_budget_wall_seconds;
          max_tool_calls = settings.inv_budget_tool_calls;
          max_llm_tokens = settings.llm_max_tokens_per_investigation;
          max_llm_cost_usd = settings.llm_max_cost_usd_per_investigation;
          max_tenant_cost_usd = settings.llm_max_cost_usd_per_tenant_day;
          tenant_cost_used_usd = tenant_spent;
          started_monotonic = 0;
          tool_calls_used = 0;
          tokens_used = 0;
          cost_used_usd = 0;
        });
        triage = none;
        hypotheses = [];
        validated = [];
        report = none;
        completed_stages = get_completed_stage_names tenant_id inv.id db;
        current_stage_id = none;
        dry_run = inv.dry_run;
        store = if c.store_tool_calls then some [] else none;
        world = world;
      }

  -- `repo.upsert_stage(ctx.investigation_id, name=…, …)`
  unfoldable pub write_stage : String → StageWrite → Run W → Run W
  write_stage name w run = record run {
    db = upsert_stage tenant_id run.ctx.investigation_id name w run.db;
  }

  abbrev row_id : Option InvestigationStage → Option ℕ
  row_id none = none
  row_id (some r) = some r.id

  abbrev pub write : StageStatus → Option Fields → Option Fields → Option ℕ → Option ℕ → StageWrite
  write status output error started_at completed_at = record {
    status = status;
    output = output;
    error = error;
    started_at = started_at;
    completed_at = completed_at;
  }

  abbrev with_ctx : Run W → Context W → Run W
  with_ctx run ctx = record run { ctx = ctx }

  -- The `running` row that the tool calls of the stage refer to.
  unfoldable pub begin_stage : Stage W → (started : ℕ) → Run W → Run W
  unfolding write_stage
  begin_stage stage started run =
      let run' =
        write_stage stage.name (write StageStatus.running none none (some started) none) run in
      with_ctx run' (record run'.ctx {
        current_stage_id =
            row_id (find_stage tenant_id run'.ctx.investigation_id stage.name run'.db.stages);
      })

  abbrev end_row : StageEnd → Option Fields → Option Fields → (started : ℕ) → Run W → StageWrite
  end_row status output error started run =
      write (StageStatus.ended status) output error (some started) (some (c.utcnow run.ctx.world))

  abbrev timeout_error : Stage W → Fields
  timeout_error stage =
      field "type" (text "timeout")
        (field "timeout_seconds" (integer false stage.timeout_seconds) end)

  abbrev exception_error : Exception → Fields
  exception_error e = field "type" (text (class_name e)) (field "message" (text (c.describe e)) end)

  abbrev pub mark_if_succeeded : StageEnd → String → Context W → Context W
  mark_if_succeeded StageEnd.succeeded name ctx = mark_completed name ctx
  mark_if_succeeded _ name ctx = ctx

  -- `some reason` where `BudgetExhausted` goes on to the caller. No other exception does.
  unfoldable pub settle_stage : Stage W → (started : ℕ) → Executed → Run W → Option Reason × Run W
  unfolding write_stage
  settle_stage stage started timed_out run = (
    none,
    write_stage stage.name
        (end_row StageEnd.timed_out none (some (timeout_error stage)) started run) run,
  )
  settle_stage stage started (raised (Exception.budget_exhausted reason)) run = (
    some reason,
    write_stage stage.name (end_row StageEnd.budget_exhausted none none started run) run,
  )
  settle_stage stage started (raised e) run = (
    none,
    write_stage stage.name (end_row StageEnd.failed none (some (exception_error e)) started run)
        run,
  )
  settle_stage stage started (finished result) run = (
    none,
    write_stage stage.name (end_row result.status (some result.output) result.error started run)
        (with_ctx run (mark_if_succeeded result.status stage.name run.ctx)),
  )

  unfoldable pub run_stage : Stage W → Run W → Option Reason × Run W
  unfolding begin_stage settle_stage
  run_stage stage run =
      let started = c.utcnow run.ctx.world in
      let run' = begin_stage stage started run in
      let (executed, ctx') = stage.execute run'.ctx in
      settle_stage stage started executed (with_ctx run' ctx')

  -- The body of the `for` loop: a stage that is completed is skipped.
  unfoldable pub visit : Stage W → Run W → Option Reason × Run W
  visit stage run = if has_completed stage.name run.ctx then (none, run) else run_stage stage run

  unfoldable pub run_stages : List (Stage W) → Run W → Option Reason × Run W
  run_stages [] run = (none, run)
  run_stages (stage ∷ stages) run = unless_stopped (run_stages stages) (visit stage run)
