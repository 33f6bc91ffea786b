-- ===== src/Repository/Stages.antt =====
-- `upsert_stage` on the rows of one investigation.
use nightswatch.Prelude.{
  ℕ, String, ◌≡◌, false, Bool-cases, inl, inr, Option, none, some, List, [], ◌∷◌, str_eq, eq_iff,
  if◌then◌else◌, arith,
}
use nightswatch.Database.{StageStatus, InvestigationStage, Db}
use nightswatch.Repository.StageRows.{StageWrite, stage_is, upsert_stage_row, upsert_stage}

module _ (tenant_id investigation_id : ℕ) where
  abbrev status_in : String → List InvestigationStage → Option StageStatus
  status_in name [] = none
  status_in name (r ∷ rs) =
      if stage_is tenant_id investigation_id name r then some r.status else status_in name rs

  -- The status in the row of a stage, if it has a row.
  abbrev pub status_of : String → Db → Option StageStatus
  status_of name db = status_in name db.stages

  status_in_self :
      (fresh : ℕ) (name : String) (w : StageWrite) (rs : List InvestigationStage)
      → status_in name (upsert_stage_row tenant_id investigation_id fresh name w rs) ≡ some w.status
  unfolding upsert_stage_row
  status_in_self fresh name w [] = ground (arith, eq_iff name name)
  status_in_self fresh name w (r ∷ rs) =
      elim (Bool-cases (stage_is tenant_id investigation_id name r)) [
        | inl e ↦ rw (e, e)
        | inr e ↦ rw (e, e) (status_in_self fresh name w rs)
      ]

  status_in_ne :
      (fresh : ℕ) (name other : String) (w : StageWrite) (rs : List InvestigationStage)
      → str_eq name other ≡ false
      → status_in other (upsert_stage_row tenant_id investigation_id fresh name w rs)
        ≡ status_in other rs
  unfolding upsert_stage_row
  status_in_ne fresh name other w [] h = ground arith
  status_in_ne fresh name other w (r ∷ rs) h = ground (
    arith,
    eq_iff name other,
    eq_iff r.name name,
    eq_iff r.name other,
    status_in_ne fresh name other w rs h,
  )

  -- After an upsert the stage has the status that was written, whether it had a row or not.
  pub status_of-upsert_stage_self :
      (name : String) (w : StageWrite) (db : Db)
      → status_of name (upsert_stage tenant_id investigation_id name w db) ≡ some w.status
  unfolding upsert_stage
  status_of-upsert_stage_self name w db = status_in_self db.next_id name w db.stages

  -- An upsert changes the status of no stage of another name.
  pub status_of-upsert_stage_ne :
      (name other : String) (w : StageWrite) (db : Db)
      → str_eq name other ≡ false
      → status_of other (upsert_stage tenant_id investigation_id name w db) ≡ status_of other db
  unfolding upsert_stage
  status_of-upsert_stage_ne name other w db h = status_in_ne db.next_id name other w db.stages h

-- The status of a stage depends on the rows of the stages and on the investigation alone.
pub status_of-same :
    (tenant_id id id' : ℕ) (name : String) (db db' : Db)
    → id' ≡ id
    → db'.stages ≡ db.stages
    → status_of tenant_id id' name db' ≡ status_of tenant_id id name db
status_of-same tenant_id id id' name db db' e h = cc
