-- ===== src/Repository/StageRows.antt =====
-- core/investigation/repository.py: the rows of the stages of an investigation.
use nightswatch.Prelude.{
  ℕ, suc, String, Bool, true, false, ◌&&◌, Option, none, some, List, [], ◌∷◌, ◌==◌, str_eq,
  if◌then◌else◌,
}
use nightswatch.Json.{Fields}
use nightswatch.Database.{StageEnd, StageStatus, InvestigationStage, Db}
use nightswatch.Repository.{or_keep}

-- What a call writes besides the name: `completed_at` is kept where it is `None`.
pub record StageWrite : Type 0 where
  pub status : StageStatus
  pub output : Option Fields
  pub error : Option Fields
  pub started_at : Option ℕ
  pub completed_at : Option ℕ

module _ (tenant_id investigation_id : ℕ) where
  abbrev pub stage_is : String → InvestigationStage → Bool
  stage_is name r =
      r.tenant_id == tenant_id
      && (r.investigation_id == investigation_id && (str_eq r.name name && r.attempt == 1))

  abbrev stage_succeeded : InvestigationStage → Bool
  stage_succeeded r =
      r.tenant_id == tenant_id
      && (r.investigation_id == investigation_id
          && elim r.status [ StageStatus.ended StageEnd.succeeded ↦ true | _ ↦ false ])

  unfoldable pub completed_names : List InvestigationStage → List String
  completed_names [] = []
  completed_names (r ∷ rs) =
      let names = completed_names rs in if stage_succeeded r then r.name ∷ names else names

  unfoldable pub get_completed_stage_names : Db → List String
  unfolding completed_names
  get_completed_stage_names db = completed_names db.stages

  abbrev overwrite : StageWrite → InvestigationStage → InvestigationStage
  overwrite w r = record r {
    status = w.status;
    output = w.output;
    error = w.error;
    started_at = or_keep w.started_at r.started_at;
    completed_at = or_keep w.completed_at r.completed_at;
  }

  abbrev new_stage : ℕ → String → StageWrite → InvestigationStage
  new_stage id name w = record {
    id = id;
    tenant_id = tenant_id;
    investigation_id = investigation_id;
    name = name;
    attempt = 1;
    status = w.status;
    output = w.output;
    error = w.error;
    started_at = w.started_at;
    completed_at = w.completed_at;
  }

  -- Every caller leaves `attempt` at 1. `fresh` is the id of a row that has to be inserted; where
  -- none has to be, that id is skipped.
  unfoldable pub upsert_stage_row :
      (fresh : ℕ) → String → StageWrite → List InvestigationStage → List InvestigationStage
  upsert_stage_row fresh name w [] = new_stage fresh name w ∷ []
  upsert_stage_row fresh name w (r ∷ rs) =
      if stage_is name r then overwrite w r ∷ rs else r ∷ upsert_stage_row fresh name w rs

  -- The row of a stage, if it has one.
  unfoldable pub find_stage : String → List InvestigationStage → Option InvestigationStage
  find_stage name [] = none
  find_stage name (r ∷ rs) = if stage_is name r then some r else find_stage name rs

  unfoldable pub upsert_stage : String → StageWrite → Db → Db
  unfolding upsert_stage_row
  upsert_stage name w db = record db {
    stages = upsert_stage_row db.next_id name w db.stages;
    next_id = suc db.next_id;
  }
