-- ===== src/Orchestrator/Step.antt =====
-- What the run of one stage writes.
use nightswatch.Prelude.{
  ℕ, String, ◌≡◌, refl, sym, ap, ◌∙◌, true, false, ◌⊎◌, inl, inr, Option, some, List, [], ◌∷◌,
  contains, str_eq, arith,
}
use nightswatch.Action.{Exception}
use nightswatch.Context.{Context, mark_completed}
use nightswatch.Database.{StageEnd, StageStatus}
use nightswatch.Repository.StageRows.{StageWrite, upsert_stage}
use nightswatch.Repository.Stages.{
  status_of, status_of-upsert_stage_self, status_of-upsert_stage_ne,
}
use nightswatch.Pipeline.{Collaborators, Stage, Executed, finished, timed_out, raised}
use nightswatch.StageRuns.{
  mark_if_succeeded, Run, write_stage, begin_stage, settle_stage, run_stage,
}

-- A stage reads the identity of the investigation and its record of completed stages, and does not
-- change them.
pub record KeepsIdentity {W : Type 0} (stage : Stage W) : Type 0 where
  pub same_id : (ctx : Context W) → (stage.execute ctx).1.investigation_id ≡ ctx.investigation_id
  pub same_completed :
      (ctx : Context W) → (stage.execute ctx).1.completed_stages ≡ ctx.completed_stages

abbrev pub AllKeep : {W : Type 0} → List (Stage W) → Type 0
AllKeep [] = Unit
AllKeep (stage ∷ stages) = KeepsIdentity stage × AllKeep stages

module _ {W : Type 0} (tenant_id : ℕ) where
  abbrev pub stage_status : String → Run W → Option StageStatus
  stage_status name run = status_of tenant_id run.ctx.investigation_id name run.db

  -- The row of the stage says how it ended; it is not left `running`.
  abbrev pub Settled : String → Run W → Type 0
  Settled name run = (e : StageEnd) × (stage_status name run ≡ some (StageStatus.ended e))

  -- From `before` to `after` only the row of `name` was written, and it says how the stage ended.
  pub record Wrote (name : String) (before after : Run W) : Type 0 where
    pub identity : after.ctx.investigation_id ≡ before.ctx.investigation_id
    pub rows : after.db.investigations ≡ before.db.investigations
    pub settled : Settled name after
    pub others :
        (other : String)
        → str_eq name other ≡ false
        → stage_status other after ≡ stage_status other before
    pub completed :
        (other : String)
        → contains other after.ctx.completed_stages ≡ true
        → (contains other before.ctx.completed_stages ≡ true) ⊎ (str_eq name other ≡ true)

module _ {W : Type 0} (c : Collaborators W) (tenant_id : ℕ) where
  pub write_stage-Wrote :
      (name : String) (w : StageWrite) (e : StageEnd) (run : Run W)
      → w.status ≡ StageStatus.ended e
      → Wrote tenant_id name run (write_stage c tenant_id name w run)
  unfolding write_stage upsert_stage
  write_stage-Wrote name w e run h = record {
    identity = refl;
    rows = refl;
    settled = (
      e,
      unfold upsert_stage in
          (status_of-upsert_stage_self tenant_id run.ctx.investigation_id name w run.db
            ∙ ap some h),
    );
    others = λ other ne.
        status_of-upsert_stage_ne tenant_id run.ctx.investigation_id name other w run.db ne;
    completed = λ other h. inl h;
  }

  mark-completed :
      (status : StageEnd) (name other : String) (ctx : Context W)
      → contains other (mark_if_succeeded c tenant_id status name ctx).completed_stages ≡ true
      → (contains other ctx.completed_stages ≡ true) ⊎ (str_eq name other ≡ true)
  unfolding mark_completed
  mark-completed status name other ctx h = ground arith

  mark-id :
      (status : StageEnd) (name : String) (ctx : Context W)
      → (mark_if_succeeded c tenant_id status name ctx).investigation_id ≡ ctx.investigation_id
  unfolding mark_completed
  mark-id status name ctx = ground arith

  -- The context changes before the row is written.
  finished-Wrote :
      (name : String) (w : StageWrite) (e : StageEnd) (ctx : Context W) (run : Run W)
      → w.status ≡ StageStatus.ended e
      → ctx.investigation_id ≡ run.ctx.investigation_id
      → ((other : String)
          → contains other ctx.completed_stages ≡ true
          → (contains other run.ctx.completed_stages ≡ true) ⊎ (str_eq name other ≡ true))
      → Wrote tenant_id name run (write_stage c tenant_id name w (record run { ctx = ctx }))
  finished-Wrote name w e ctx run h same marked =
      let wrote = write_stage-Wrote name w e (record run { ctx = ctx }) h in
      record {
        identity = wrote.identity ∙ same;
        rows = wrote.rows;
        settled = wrote.settled;
        others =
            λ other ne. wrote.others other ne ∙ ap (λ id. status_of tenant_id id other run.db) same;
        completed = λ other h'. elim (wrote.completed other h') [
          | inl old ↦ marked other old
          | inr new ↦ inr new
        ];
      }

  settle_stage-Wrote :
      (stage : Stage W) (started : ℕ) (executed : Executed) (run : Run W)
      → Wrote tenant_id stage.name run (settle_stage c tenant_id stage started executed run).1
  unfolding settle_stage
  settle_stage-Wrote stage started timed_out run = write_stage-Wrote _ _ _ run refl
  settle_stage-Wrote stage started (raised (Exception.budget_exhausted reason)) run =
      write_stage-Wrote _ _ _ run refl
  settle_stage-Wrote stage started (raised _) run = write_stage-Wrote _ _ _ run refl
  settle_stage-Wrote stage started (finished result) run =
      finished-Wrote stage.name _ _ _ run refl (mark-id result.status stage.name run.ctx)
        (λ other h. mark-completed result.status stage.name other run.ctx h)

  begin_stage-others :
      (stage : Stage W) (started : ℕ) (run : Run W) (other : String)
      → str_eq stage.name other ≡ false
      → stage_status tenant_id other (begin_stage c tenant_id stage started run)
        ≡ stage_status tenant_id other run
  unfolding begin_stage
  begin_stage-others stage started run other ne =
      status_of-upsert_stage_ne tenant_id run.ctx.investigation_id stage.name other _ run.db ne

  begin_stage-rows :
      (stage : Stage W) (started : ℕ) (run : Run W)
      → ((begin_stage c tenant_id stage started run).db.investigations ≡ run.db.investigations)
        × ((begin_stage c tenant_id stage started run).ctx.investigation_id
            ≡ run.ctx.investigation_id)
        × ((begin_stage c tenant_id stage started run).ctx.completed_stages
            ≡ run.ctx.completed_stages)
  unfolding begin_stage upsert_stage
  begin_stage-rows stage started run = (refl, refl, refl)

  pub run_stage-Wrote :
      (stage : Stage W) (run : Run W)
      → KeepsIdentity stage
      → Wrote tenant_id stage.name run (run_stage c tenant_id stage run).1
  unfolding run_stage
  run_stage-Wrote stage run keeps =
      let started = c.utcnow run.ctx.world in
      let run' = begin_stage c tenant_id stage started run in
      let (executed, ctx') = stage.execute run'.ctx in
      let w = settle_stage-Wrote stage started executed (record run' { ctx = ctx' }) in
      let (rows, id, completed) = begin_stage-rows stage started run in
      record {
        identity = w.identity ∙ keeps.same_id run'.ctx ∙ id;
        rows = w.rows ∙ rows;
        settled = w.settled;
        others = λ other ne.
            w.others other ne
            ∙ ap (λ n. status_of tenant_id n other run'.db) (keeps.same_id run'.ctx)
            ∙ begin_stage-others stage started run other ne;
        completed = λ other h. elim (w.completed other h) [
          | inl old ↦
              inl (ap (contains other) (sym (keeps.same_completed run'.ctx ∙ completed)) ∙ old)
          | inr new ↦ inr new
        ];
      }
