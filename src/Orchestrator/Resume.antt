-- ===== src/Orchestrator/Resume.antt =====
-- Where a run ends: the status of the investigation and of its stages, and running it again.
use nightswatch.Prelude.{
  ℕ, ◌≡◌, refl, sym, ap, ◌∙◌, true, false, Bool-cases, ◌⊎◌, inl, inr, Option-cases, Option, none,
  some, List, [], ◌∷◌, contains,
}
use mathlib.Core.Path.{subst}
use nightswatch.Action.{Reason}
use nightswatch.Database.{Status, StageEnd, StageStatus, Investigation, Db}
use nightswatch.Repository.{with_status, update_investigation, set_status, get}
use nightswatch.Repository.StageRows.{get_completed_stage_names}
use nightswatch.Repository.Scope.{KeepsKeys, through, get-update, get-id}
use nightswatch.Repository.Stages.{status_of, status_of-same}
use nightswatch.Pipeline.{Collaborators, Stage, is_terminal}
use nightswatch.Orchestrator.{
  conclude, ingest_alert_runbook, ingest_past_investigation, run_pipeline, run, set_running,
}
use nightswatch.StageRuns.{Run, build_context, run_stages}
use nightswatch.Orchestrator.Step.{AllKeep}
use nightswatch.Orchestrator.Loop.{Known, AllEnded, run_stages-Looped}
use nightswatch.Orchestrator.Lifecycle.{
  Lasting, with_status-KeepsKeys, ingest_alert_runbook-Same, ingest_past_investigation-Same,
  dispatch_delivery-Same, conclude-Concluded,
}

module _ {W : Type 0} (c : Collaborators W) (tenant_id : ℕ) where
  -- For each stage of the pipeline: it was completed before the run, or its row says how it ended.
  abbrev pub StagesEnded : List (Stage W) → (id : ℕ) → (before after : Db) → Type 0
  StagesEnded [] id before after = Unit
  StagesEnded (stage ∷ stages) id before after =
      ((contains stage.name (get_completed_stage_names tenant_id id before) ≡ true)
        ⊎ ((e : StageEnd) × (status_of tenant_id id stage.name after ≡ some (StageStatus.ended e))))
      × StagesEnded stages id before after

  StagesEnded-of :
      (stages : List (Stage W)) (id : ℕ) (before : Db) (after : Run W)
      → after.ctx.investigation_id ≡ id
      → AllEnded c tenant_id (get_completed_stage_names tenant_id id before) stages after
      → StagesEnded stages id before after.db
  StagesEnded-of [] id before after e all = tt
  StagesEnded-of (stage ∷ stages) id before after e (inl old, all) =
      (inl old, StagesEnded-of stages id before after e all)
  StagesEnded-of (stage ∷ stages) id before after e (inr (end, settled), all) = (
    inr (end, status_of-same tenant_id _ _ stage.name after.db after.db (sym e) refl ∙ settled),
    StagesEnded-of stages id before after e all,
  )

  -- How a run leaves the tables: the investigation's row was updated twice, to `running` and to
  -- its last status.
  record Ran (stages : List (Stage W)) (inv : Investigation) (before after : Db) : Type 0 where
    started : ℕ
    update : Investigation → Investigation
    keys : KeepsKeys update
    conclusive :
        (i : Investigation)
        → ((update i).status ≡ Status.succeeded) ⊎ ((update i).status ≡ Status.partial)
    rows :
        after.investigations
        ≡ update_investigation inv.id update (
            update_investigation inv.id
              (with_status Status.running none (some started) none none)
              before.investigations)
    ended : StagesEnded stages inv.id before after

  conclusive_of :
      (stopped : Option Reason) (status : Status)
      → status ≡ Lasting c tenant_id stopped
      → (status ≡ Status.succeeded) ⊎ (status ≡ Status.partial)
  conclusive_of none status e = inl e
  conclusive_of (some reason) status e = inr e

  run_pipeline-Ran :
      (stages : List (Stage W)) (inv : Investigation) (db : Db) (world : W)
      → AllKeep stages
      → Ran stages inv db (run_pipeline c tenant_id stages inv db world).db
  unfolding run_pipeline set_status build_context
  run_pipeline-Ran stages inv db world keeps =
      let initial = get_completed_stage_names tenant_id inv.id db in
      let opened : Run W = record {
        db = set_running c tenant_id (c.utcnow world) inv.id db;
        ctx = build_context c tenant_id inv db world;
      } in
      let start = ingest_alert_runbook c tenant_id opened in
      let same = ingest_alert_runbook-Same c tenant_id opened in
      let known : Known tenant_id initial start =
        λ name h. inl (ap (contains name) (sym same.completed) ∙ h) in
      let out = run_stages c tenant_id stages start in
      let looped = run_stages-Looped c tenant_id initial stages start keeps known in
      let concluded = conclude-Concluded c tenant_id initial stages start out looped in
      let done = conclude c tenant_id stages out in
      let past = ingest_past_investigation-Same c tenant_id done in
      let delivered =
        dispatch_delivery-Same c tenant_id (ingest_past_investigation c tenant_id done) in
      let same_db = delivered.db ∙ past.db in
      let id = looped.0.identity ∙ same.identity in
      record {
        started = c.utcnow world;
        update = concluded.update;
        keys = concluded.keys;
        conclusive = λ i. conclusive_of out.0 _ (concluded.status_is i);
        rows = ap (λ (d : Db). d.investigations) same_db ∙ concluded.rows ∙ (λ j.
            update_investigation (id j) concluded.update
              ((looped.0.rows ∙ ap (λ (d : Db). d.investigations) same.db) j));
        ended =
            subst (λ d. StagesEnded stages inv.id db d) (sym same_db)
              (StagesEnded-of stages inv.id db done (concluded.identity ∙ id) concluded.ended);
      }

  -- Where a run left the investigation and its stages.
  abbrev pub RunEnds : List (Stage W) → (id : ℕ) → (before after : Db) → Type 0
  RunEnds stages id before after =
      ((i : Investigation) × (get tenant_id id after ≡ some i)
        × ((i.status ≡ Status.succeeded) ⊎ (i.status ≡ Status.partial)))
      × StagesEnded stages id before after

  Ran-RunEnds :
      (stages : List (Stage W)) (id : ℕ) (inv : Investigation) (before after : Db)
      → get tenant_id id before ≡ some inv
      → Ran stages inv before after
      → RunEnds stages id before after
  Ran-RunEnds stages id inv before after found ran =
      let same : inv.id ≡ id = get-id tenant_id id before found in
      let begun = with_status Status.running none (some ran.started) none none in
      let middle : Db = record before {
        investigations = update_investigation inv.id begun before.investigations;
      } in
      let opened =
        get-update tenant_id id begun before middle
          (with_status-KeepsKeys Status.running none (some ran.started) none none)
          (λ j. update_investigation (same j) begun before.investigations)
        ∙ ap (through begun) found in
      let closed =
        get-update tenant_id id ran.update middle after ran.keys
          (ran.rows ∙ (λ j. update_investigation (same j) ran.update middle.investigations))
        ∙ ap (through ran.update) opened in
      (
        (ran.update (begun inv), closed, ran.conclusive (begun inv)),
        subst (λ k. StagesEnded stages k before after) same ran.ended,
      )

  -- An investigation that is found and is not terminal ends as `succeeded` or `partial`, whatever its
  -- stages do: return, time out, raise or exhaust the budget. None of the pipeline's stages is left
  -- `running`: each was completed before the run, or its row says how it ended. The stages keep the
  -- identity of the context.
  pub run_ends :
      (stages : List (Stage W)) (id : ℕ) (db : Db) (world : W) (inv : Investigation)
      → AllKeep stages
      → get tenant_id id db ≡ some inv
      → is_terminal inv.status ≡ false
      → RunEnds stages id db (run c tenant_id stages id (db, world)).0
  unfolding run
  run_ends stages id db world inv keeps found unfinished =
      rw (found, unfinished)
        (Ran-RunEnds stages id inv db _ found (run_pipeline-Ran stages inv db world keeps))

  -- An investigation that is terminal, or is not found, is left alone: the tables and the world are
  -- as before.
  pub run_terminal :
      (stages : List (Stage W)) (id : ℕ) (db : Db) (world : W)
      → ((inv : Investigation) → get tenant_id id db ≡ some inv → is_terminal inv.status ≡ true)
      → run c tenant_id stages id (db, world) ≡ (db, world)
  unfolding run
  run_terminal stages id db world h = elim (Option-cases (get tenant_id id db)) [
    | inl missing ↦ rw missing
    | inr (inv, found) ↦ rw (found, h inv found)
  ]

  terminal_of : (s : Status) → (s ≡ Status.succeeded) ⊎ (s ≡ Status.partial) → is_terminal s ≡ true
  terminal_of s (inl e) = rw e
  terminal_of s (inr e) = rw e

  -- Running an investigation again right after its run changes nothing, in the tables or outside, if
  -- the stages keep the identity of the context.
  pub run_idempotent :
      (stages : List (Stage W)) (id : ℕ) (db : Db) (world : W)
      → AllKeep stages
      → run c tenant_id stages id (run c tenant_id stages id (db, world))
        ≡ run c tenant_id stages id (db, world)
  run_idempotent stages id db world keeps = elim (Option-cases (get tenant_id id db)) [
    | inl missing ↦
        ap (run c tenant_id stages id) (run_terminal stages id db world (λ inv found. cc))
    | inr (inv, found) ↦ elim (Bool-cases (is_terminal inv.status)) [
      | inl done ↦ ap (run c tenant_id stages id) (
          run_terminal stages id db world (λ inv' found'.
            let e : inv' ≡ inv = cc in ap (λ (i : Investigation). is_terminal i.status) e ∙ done))
      | inr unfinished ↦
          let ((i, got, concluded), _) = run_ends stages id db world inv keeps found unfinished in
          let (db', world') = run c tenant_id stages id (db, world) in
          run_terminal stages id db' world' (λ i' got'.
            let e : i' ≡ i = cc in
            ap (λ (i : Investigation). is_terminal i.status) e ∙ terminal_of i.status concluded)
    ]
  ]
