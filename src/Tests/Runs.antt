-- ===== src/Tests/Runs.antt =====
-- Whole runs of an investigation.
use nightswatch.Prelude.{ℕ, ◌≡◌, refl, true, false, none, some, List, [], ◌∷◌, ap, sym}
use nightswatch.Json.{end}
use nightswatch.Action.{budget_exhausted, tool_calls}
use nightswatch.Database.{Status, StageEnd, StageStatus, Investigation, Db}
use nightswatch.Repository.{get}
use nightswatch.Repository.StageRows.{StageWrite}
use nightswatch.Pipeline.{Settings, Collaborators, Stage, finished, timed_out, raised, is_terminal}
use nightswatch.Orchestrator.{run}
use nightswatch.Orchestrator.Step.{AllKeep}
use nightswatch.Orchestrator.Resume.{RunEnds, run_ends, run_idempotent}
use nightswatch.Tests.Incidents.{past, db}

abbrev settings : Settings
settings = record {
  inv_budget_wall_seconds = 600;
  inv_budget_tool_calls = 2;
  llm_max_tokens_per_investigation = 10000;
  llm_max_cost_usd_per_investigation = 100;
  llm_max_cost_usd_per_tenant_day = 0;
  runbook_fetch_enabled = false;
}

abbrev c : Collaborators ℕ
c = record {
  monotonic = λ w. w;
  utcnow = λ w. w;
  one_day = 86400000;
  settings = settings;
  ingest_runbook_from_url = none;
  ingest_past_investigation = none;
  deliver = some (λ report w. w);
  store_tool_calls = true;
  describe = λ e. "failed";
}

abbrev stages : List (Stage ℕ)
stages =
    record {
      name = "triage";
      timeout_seconds = 30;
      execute = λ ctx.
          (finished (record { status = StageEnd.succeeded; output = end; error = none }), ctx);
    }
    ∷ record { name = "hypothesis"; timeout_seconds = 60; execute = λ ctx. (timed_out, ctx) }
    ∷ record {
      name = "validation";
      timeout_seconds = 60;
      execute = λ ctx. (raised (budget_exhausted tool_calls), ctx);
    }
    ∷ []

stages-AllKeep : AllKeep stages
stages-AllKeep = (
  record { same_id = λ ctx. refl; same_completed = λ ctx. refl },
  (
    record { same_id = λ ctx. refl; same_completed = λ ctx. refl },
    (record { same_id = λ ctx. refl; same_completed = λ ctx. refl }, tt),
  ),
)

abbrev waiting : Investigation
waiting = record past { id = 5; status = Status.pending }

abbrev queued : Db
queued = record db { investigations = past ∷ waiting ∷ []; jobs = 5 ∷ []; next_id = 6 }

found : get 1 5 queued ≡ some waiting
unfolding get
found = refl

run_ends_example : RunEnds c 1 stages 5 queued (run c 1 stages 5 (queued, 10)).0
run_ends_example = run_ends c 1 stages 5 queued 10 waiting stages-AllKeep found refl

run_idempotent_example :
    run c 1 stages 5 (run c 1 stages 5 (queued, 10)) ≡ run c 1 stages 5 (queued, 10)
run_idempotent_example = run_idempotent c 1 stages 5 queued 10 stages-AllKeep

past_terminal : (inv : Investigation) → get 1 4 queued ≡ some inv → is_terminal inv.status ≡ true
unfolding get
past_terminal inv e =
    let same : past ≡ inv = cc in ap (λ (i : Investigation). is_terminal i.status) (sym same)

abbrev done : StageWrite
done = record {
  status = StageStatus.ended StageEnd.succeeded;
  output = none;
  error = none;
  started_at = none;
  completed_at = none;
}
