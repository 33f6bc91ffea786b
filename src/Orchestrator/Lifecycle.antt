-- ===== src/Orchestrator/Lifecycle.antt =====
-- The parts of a run around the loop: the best-effort steps and the two ways to conclude.
use nightswatch.Prelude.{
  ℕ, String, ◌≡◌, refl, ap, ◌∙◌, inl, inr, Option, none, some, List, [], ◌∷◌, arith,
}
use nightswatch.Action.{Reason}
use nightswatch.Context.{Context, Confidence}
use nightswatch.Budget.{Snapshot, snapshot}
use nightswatch.Database.{Status, Investigation}
use nightswatch.Repository.{with_status, update_investigation, set_status, upsert_report}
use nightswatch.Repository.Scope.{KeepsKeys}
use nightswatch.Repository.Stages.{status_of-same}
use nightswatch.Pipeline.{Collaborators, Stage}
use nightswatch.Orchestrator.{
  persist_report, finalize_as, exhaust_rest, conclude, ingest_alert_runbook,
  ingest_past_investigation, dispatch_delivery, confidence_of, run,
}
use nightswatch.StageRuns.{Run}
use nightswatch.Orchestrator.Loop.{AllEnded, Looped, exhaust_rest-Follows}

pub with_status-KeepsKeys :
    (status : Status) (confidence : Option Confidence) (started_at completed_at : Option ℕ)
    (budget_snapshot : Option Snapshot)
    → KeepsKeys (with_status status confidence started_at completed_at budget_snapshot)
with_status-KeepsKeys status confidence started_at completed_at budget_snapshot = record {
  id = λ i. refl;
  tenant_id = λ i. refl;
}

-- The tables and the identity are the same in both; the world may differ.
pub record SameTables {W : Type 0} (a b : Run W) : Type 0 where
  pub db : b.db ≡ a.db
  pub identity : b.ctx.investigation_id ≡ a.ctx.investigation_id
  pub completed : b.ctx.completed_stages ≡ a.ctx.completed_stages

SameTables-refl : {W : Type 0} (a : Run W) → SameTables a a
SameTables-refl a = record { db = refl; identity = refl; completed = refl }

module _ {W : Type 0} (c : Collaborators W) (tenant_id : ℕ) where
  on_world-Same :
      (f : W → W) (run : Run W)
      → SameTables run (record run { ctx = record run.ctx { world = f run.ctx.world } })
  on_world-Same f run = record { db = refl; identity = refl; completed = refl }

  pub ingest_alert_runbook-Same :
      (run : Run W) → SameTables run (ingest_alert_runbook c tenant_id run)
  unfolding ingest_alert_runbook
  ingest_alert_runbook-Same run = ground arith

  pub ingest_past_investigation-Same :
      (run : Run W) → SameTables run (ingest_past_investigation c tenant_id run)
  unfolding ingest_past_investigation
  ingest_past_investigation-Same run = ground arith

  pub dispatch_delivery-Same : (run : Run W) → SameTables run (dispatch_delivery c tenant_id run)
  unfolding dispatch_delivery
  dispatch_delivery-Same run = ground arith

  -- `after` is `before` with the investigation's row at `status`; the rows of the stages stay.
  pub record Finalized (status : Status) (before after : Run W) : Type 0 where
    pub update : Investigation → Investigation
    pub keys : KeepsKeys update
    pub status_is : (i : Investigation) → (update i).status ≡ status
    pub rows :
        after.db.investigations
        ≡ update_investigation before.ctx.investigation_id update before.db.investigations
    pub stages : after.db.stages ≡ before.db.stages
    pub identity : after.ctx.investigation_id ≡ before.ctx.investigation_id

  persist_report-rows :
      (before : Run W)
      → ((persist_report c tenant_id before).db.investigations ≡ before.db.investigations)
        × ((persist_report c tenant_id before).db.stages ≡ before.db.stages)
        × ((persist_report c tenant_id before).ctx ≡ before.ctx)
  unfolding persist_report upsert_report
  persist_report-rows before = ground arith

  finalize_as-Finalized :
      (status : Status) (now : ℕ) (before : Run W)
      → Finalized status before (finalize_as c tenant_id status now before)
  unfolding finalize_as set_status
  finalize_as-Finalized status now before =
      let (rows, stages, ctx) = persist_report-rows before in
      let middle = persist_report c tenant_id before in
      let confidence : Option Confidence = some (confidence_of c tenant_id middle.ctx.report) in
      let spent : Option Snapshot =
        some (snapshot (c.monotonic middle.ctx.world) middle.ctx.budget) in
      let update : Investigation → Investigation =
        with_status status confidence none (some now) spent in
      record {
        update = update;
        keys = with_status-KeepsKeys status confidence none (some now) spent;
        status_is = λ i. refl;
        rows = λ j. update_investigation (ctx j).investigation_id update (rows j);
        stages = stages;
        identity = ap (λ (x : Context W). x.investigation_id) ctx;
      }

  abbrev pub Lasting : Option Reason → Status
  Lasting none = Status.succeeded
  Lasting (some reason) = Status.partial

  module _ (initial : List String) where
    AllEnded-same :
        (stages : List (Stage W)) (before after : Run W)
        → after.ctx.investigation_id ≡ before.ctx.investigation_id
        → after.db.stages ≡ before.db.stages
        → AllEnded c tenant_id initial stages before
        → AllEnded c tenant_id initial stages after
    AllEnded-same [] before after e h all = tt
    AllEnded-same (stage ∷ stages) before after e h (inl old, all) =
        (inl old, AllEnded-same stages before after e h all)
    AllEnded-same (stage ∷ stages) before after e h (inr (end, settled), all) = (
      inr (end, status_of-same tenant_id _ _ stage.name before.db after.db e h ∙ settled),
      AllEnded-same stages before after e h all,
    )

    -- What a conclusion leaves, from where the loop stopped.
    pub record Concluded (stages : List (Stage W)) (status : Status) (before after : Run W)
        : Type 0 where
      pub update : Investigation → Investigation
      pub keys : KeepsKeys update
      pub status_is : (i : Investigation) → (update i).status ≡ status
      pub rows :
          after.db.investigations
          ≡ update_investigation before.ctx.investigation_id update before.db.investigations
      pub ended : AllEnded c tenant_id initial stages after
      pub identity : after.ctx.investigation_id ≡ before.ctx.investigation_id

    Finalized-Concluded :
        {stages : List (Stage W)} {status : Status} {before middle after : Run W}
        → middle.db.investigations ≡ before.db.investigations
        → middle.ctx.investigation_id ≡ before.ctx.investigation_id
        → AllEnded c tenant_id initial stages middle
        → Finalized status middle after
        → Concluded stages status before after
    Finalized-Concluded {stages} {status} {before} {middle} {after} rows id all f = record {
      update = f.update;
      keys = f.keys;
      status_is = f.status_is;
      rows = f.rows ∙ (λ j. update_investigation (id j) f.update (rows j));
      ended = AllEnded-same stages middle after f.identity f.stages all;
      identity = f.identity ∙ id;
    }

    pub conclude-Concluded :
        (stages : List (Stage W)) (start : Run W) (out : Option Reason × Run W)
        → Looped c tenant_id initial stages start out
        → Concluded stages (Lasting out.0) out.1 (conclude c tenant_id stages out)
    unfolding conclude
    conclude-Concluded stages start (none, before) (f, all) =
        Finalized-Concluded refl refl (all refl) (finalize_as-Finalized Status.succeeded _ before)
    conclude-Concluded stages start (some reason, before) (f, all) =
        let now = c.utcnow before.ctx.world in
        let middle = exhaust_rest c tenant_id reason now stages before in
        let (g, ended) =
          exhaust_rest-Follows c tenant_id initial reason now stages before f.known in
        Finalized-Concluded g.rows g.identity ended
          (finalize_as-Finalized Status.partial now middle)
