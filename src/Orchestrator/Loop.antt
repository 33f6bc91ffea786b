-- ===== src/Orchestrator/Loop.antt =====
-- What the loop over the pipeline does to the rows of the stages.
use nightswatch.Prelude.{
  ℕ, String, ◌≡◌, refl, ◌∙◌, true, Bool-cases, ◌⊎◌, inl, inr, Option, none, some, List, [], ◌∷◌,
  contains, str_eq, eq_iff,
}
use mathlib.Core.Path.{subst}
use nightswatch.Action.{Reason}
use nightswatch.Context.{has_completed}
use nightswatch.Pipeline.{Collaborators, Stage}
use nightswatch.Orchestrator.{exhaust_one, exhaust_rest}
use nightswatch.StageRuns.{Run, visit, run_stages, unless_stopped}
use nightswatch.Orchestrator.Step.{
  KeepsIdentity, AllKeep, Settled, Wrote, run_stage-Wrote, write_stage-Wrote,
}

module _ {W : Type 0} (tenant_id : ℕ) (initial : List String) where
  -- The stage was completed before, or it has ended now.
  abbrev pub Ended : String → Run W → Type 0
  Ended name run = (contains name initial ≡ true) ⊎ Settled tenant_id name run

  -- Every stage that the context takes for completed has ended.
  abbrev pub Known : Run W → Type 0
  Known run = (name : String) → contains name run.ctx.completed_stages ≡ true → Ended name run

  -- What has ended stays so from `before` to `after`.
  pub record Follows (before after : Run W) : Type 0 where
    pub identity : after.ctx.investigation_id ≡ before.ctx.investigation_id
    pub rows : after.db.investigations ≡ before.db.investigations
    pub ended : (name : String) → Ended name before → Ended name after
    pub known : Known after

  pub Follows-refl : (run : Run W) → Known run → Follows run run
  Follows-refl run k = record { identity = refl; rows = refl; ended = λ name h. h; known = k }

  pub Follows-trans : {a b d : Run W} → Follows a b → Follows b d → Follows a d
  Follows-trans f g = record {
    identity = g.identity ∙ f.identity;
    rows = g.rows ∙ f.rows;
    ended = λ name h. g.ended name (f.ended name h);
    known = g.known;
  }

  Settled-Wrote :
      {name : String} {before after : Run W}
      → Wrote tenant_id name before after
      → (other : String) → str_eq name other ≡ true
      → Settled tenant_id other after
  Settled-Wrote {name} {after = after} w other e =
      subst (λ n. Settled tenant_id n after) ((eq_iff name other).0 e) w.settled

  Ended-Wrote :
      {name : String} {before after : Run W}
      → Wrote tenant_id name before after
      → (other : String) → Ended other before
      → Ended other after
  Ended-Wrote w other (inl old) = inl old
  Ended-Wrote {name} w other (inr (e, h)) = elim (Bool-cases (str_eq name other)) [
    | inl same ↦ inr (Settled-Wrote w other same)
    | inr ne ↦ inr (e, w.others other ne ∙ h)
  ]

  pub Wrote-Follows :
      {name : String} {before after : Run W}
      → Wrote tenant_id name before after
      → Known before
      → Follows before after × Ended name after
  Wrote-Follows w k = (
    record {
      identity = w.identity;
      rows = w.rows;
      ended = Ended-Wrote w;
      known = λ other h. elim (w.completed other h) [
        | inl old ↦ Ended-Wrote w other (k other old)
        | inr new ↦ inr (Settled-Wrote w other new)
      ];
    },
    inr w.settled,
  )

module _ {W : Type 0} (c : Collaborators W) (tenant_id : ℕ) (initial : List String) where
  abbrev pub AllEnded : List (Stage W) → Run W → Type 0
  AllEnded [] run = Unit
  AllEnded (stage ∷ stages) run = Ended tenant_id initial stage.name run × AllEnded stages run

  visit-Follows :
      (stage : Stage W) (run : Run W)
      → KeepsIdentity stage
      → Known tenant_id initial run
      → Follows tenant_id initial run (visit c tenant_id stage run).1
        × Ended tenant_id initial stage.name (visit c tenant_id stage run).1
  unfolding visit has_completed
  visit-Follows stage run keeps k =
      elim (Bool-cases (contains stage.name run.ctx.completed_stages)) [
        | inl skip ↦ rw skip (Follows-refl tenant_id initial run k, k stage.name skip)
        | inr go ↦
            rw go (Wrote-Follows tenant_id initial (run_stage-Wrote c tenant_id stage run keeps) k)
      ]

  -- The loop follows `before`, and if nothing stopped it all of `stages` have ended.
  abbrev pub Looped : List (Stage W) → Run W → Option Reason × Run W → Type 0
  Looped stages before (stopped, after) =
      Follows tenant_id initial before after × (stopped ≡ none → AllEnded stages after)

  unless_stopped-Looped :
      (stage : Stage W) (stages : List (Stage W)) (before : Run W)
      (rest : Run W → Option Reason × Run W) (out : Option Reason × Run W)
      → Follows tenant_id initial before out.1
      → Ended tenant_id initial stage.name out.1
      → Looped stages out.1 (rest out.1)
      → Looped (stage ∷ stages) before (unless_stopped rest out)
  unless_stopped-Looped stage stages before rest (none, run) f e (g, all) =
      (Follows-trans tenant_id initial f g, λ h. (g.ended stage.name e, all h))
  unless_stopped-Looped stage stages before rest (some reason, run) f e l = (f, λ h. cc)

  pub run_stages-Looped :
      (stages : List (Stage W)) (run : Run W)
      → AllKeep stages
      → Known tenant_id initial run
      → Looped stages run (run_stages c tenant_id stages run)
  unfolding run_stages
  run_stages-Looped [] run keeps k = (Follows-refl tenant_id initial run k, λ e. tt)
  run_stages-Looped (stage ∷ stages) run (keep, keeps) k =
      let (f, e) = visit-Follows stage run keep k in
      unless_stopped-Looped stage stages run (run_stages c tenant_id stages)
        (visit c tenant_id stage run) f e (run_stages-Looped stages _ keeps f.known)

  -- After `exhaust_rest` all stages have ended: what is not completed is `budget_exhausted`.
  exhausted-Follows :
      (reason : Reason) (now : ℕ) (stage : Stage W) (run : Run W)
      → Known tenant_id initial run
      → Follows tenant_id initial run (exhaust_one c tenant_id reason now stage run)
        × Ended tenant_id initial stage.name (exhaust_one c tenant_id reason now stage run)
  unfolding exhaust_one has_completed
  exhausted-Follows reason now stage run k =
      elim (Bool-cases (contains stage.name run.ctx.completed_stages)) [
        | inl skip ↦ rw skip (Follows-refl tenant_id initial run k, k stage.name skip)
        | inr go ↦ rw go (
            Wrote-Follows tenant_id initial (write_stage-Wrote c tenant_id stage.name _ _ run refl)
              k)
      ]

  pub exhaust_rest-Follows :
      (reason : Reason) (now : ℕ) (stages : List (Stage W)) (run : Run W)
      → Known tenant_id initial run
      → Follows tenant_id initial run (exhaust_rest c tenant_id reason now stages run)
        × AllEnded stages (exhaust_rest c tenant_id reason now stages run)
  unfolding exhaust_rest
  exhaust_rest-Follows reason now [] run k = (Follows-refl tenant_id initial run k, tt)
  exhaust_rest-Follows reason now (stage ∷ stages) run k =
      let (f, e) = exhausted-Follows reason now stage run k in
      let (g, all) =
        exhaust_rest-Follows reason now stages (exhaust_one c tenant_id reason now stage run)
          f.known in
      (Follows-trans tenant_id initial f g, (g.ended stage.name e, all))
