-- ===== src/Workers/Checked.antt =====
-- What a health check writes.
use nightswatch.Prelude.{
  ℕ, String, ◌≡◌, ◌≢◌, ◌⊎◌, inl, inr, refl, Bool, true, false, Bool-cases, Option-cases, none, some,
  List, [], ◌∷◌, ◌==◌, ==_iff, if◌then◌else◌,
}
use mathlib.Core.Path.{subst}
use nightswatch.Action.{Result, return, raise}
use nightswatch.Integrations.{Integration, Store, get_by_id, update_row}
use nightswatch.Integrations.Secrets.{found-id}
use nightswatch.Connectors.{Connector}
use nightswatch.Connectors.Requests.{ConnectorHealth}
use nightswatch.Connectors.Registry.{Setup, build_from_row}
use nightswatch.Workers.{check_built, health_check_for, new_status, with_health, run_health_check}

-- The rows, one for one: those with the id have the status and the time, the others are as they were.
abbrev pub Rewritten : (now id : ℕ) (status : String) → (before after : List Integration) → Type 0
Rewritten now id status [] [] = Unit
Rewritten now id status [] (a ∷ after) = ⊥
Rewritten now id status (b ∷ before) [] = ⊥
Rewritten now id status (b ∷ before) (a ∷ after) =
    (b.id ≡ id → a ≡ record b { status = status; last_health_check_at = some now })
    × (b.id ≢ id → a ≡ b)
    × Rewritten now id status before after

module _ (setup : Setup) (health : Connector → Result ConnectorHealth) (tenant_id now : ℕ) where
  -- A connector can be built from the row, and answers that it is healthy.
  abbrev pub IsHealthy : Integration → Type 0
  IsHealthy row =
      (connector : Connector) × (build_from_row setup row ≡ return connector)
      × ((found : ConnectorHealth) × (health connector ≡ return found) × (found.healthy ≡ true))

  abbrev pub Verdict : Integration → String → Type 0
  Verdict row status =
      (IsHealthy row × (status ≡ "healthy")) ⊎ ((¬ (IsHealthy row)) × (status ≡ "unhealthy"))

  -- The tenant has no such row and nothing is written, or it has and the verdict on it is written.
  abbrev pub Rechecked : (id : ℕ) (before after : Store) → Type 0
  Rechecked id before after =
      ((get_by_id tenant_id id before ≡ none) × (after ≡ before))
      ⊎ ((row : Integration) × (get_by_id tenant_id id before ≡ some row)
          × ((status : String) × Verdict row status
              × Rewritten now id status before.rows after.rows))

  answered :
      (row : Integration) (connector : Connector) (outcome : Result ConnectorHealth)
      → build_from_row setup row ≡ return connector
      → health connector ≡ outcome
      → Verdict row (new_status setup health tenant_id outcome)
  answered row connector (raise e) built h =
      inr (
        λ (other, built', (found, h', well)). let same : connector ≡ other = cc in absurd (cc),
        refl,
      )
  answered row connector (return found) built h = elim (Bool-cases found.healthy) [
    | inl well ↦ inl ((connector, built, (found, h, well)), rw well refl)
    | inr ill ↦ inr (
      λ (other, built', (found', h', well)).
          let same : connector ≡ other = cc in let found_same : found ≡ found' = cc in absurd (cc),
      rw ill refl,
    )
  ]

  judged :
      (row : Integration) (built : Result Connector)
      → build_from_row setup row ≡ built
      → Verdict row (new_status setup health tenant_id (check_built setup health tenant_id built))
  judged row (raise e) h = inr (λ (connector, built, rest). absurd (cc), refl)
  judged row (return connector) h = answered row connector (health connector) h refl

  row_of :
      (b : Bool) (id : ℕ) (status : String) (i : Integration)
      → (b ≡ true → i.id ≡ id)
      → (i.id ≡ id → b ≡ true)
      → (i.id ≡ id
          → (if b then with_health setup health tenant_id now status i else i)
            ≡ record i { status = status; last_health_check_at = some now })
        × (i.id ≢ id → (if b then with_health setup health tenant_id now status i else i) ≡ i)
  row_of true id status i f g = (λ e. refl, λ ne. absurd (ne (f refl)))
  row_of false id status i f g = (λ e. let clash = g e in absurd (cc), λ ne. refl)

  Rewritten-update_row :
      (id : ℕ) (status : String) (rows : List Integration)
      → Rewritten now id status rows
          (update_row id (with_health setup health tenant_id now status) rows)
  unfolding update_row
  Rewritten-update_row id status [] = tt
  Rewritten-update_row id status (i ∷ rows) =
      let (hit, missed) = row_of (i.id == id) id status i (==_iff i.id id).0 (==_iff i.id id).1 in
      (hit, missed, Rewritten-update_row id status rows)

  -- A health check of an integration that the tenant does not have writes nothing. Otherwise it writes
  -- to that row, and to no other, the time of the check and a status: `healthy` if a connector can be
  -- built from the row and answers that it is healthy, and `unhealthy` if not, an exception included.
  pub run_health_check-Rechecked :
      (id : ℕ) (store : Store)
      → Rechecked id store (run_health_check setup health tenant_id now id store)
  unfolding run_health_check health_check_for
  run_health_check-Rechecked id store = elim (Option-cases (get_by_id tenant_id id store)) [
    | inl missing ↦ inl (missing, rw missing refl)
    | inr (row, found) ↦ inr (
      row,
      found,
      (
        new_status setup health tenant_id
            (check_built setup health tenant_id (build_from_row setup row)),
        judged row (build_from_row setup row) refl,
        rw found (
            subst
              (λ n.
                Rewritten now n
                  (new_status setup health tenant_id
                    (check_built setup health tenant_id (build_from_row setup row)))
                  store.rows
                  (update_row row.id
                    (with_health setup health tenant_id now (
                      new_status setup health tenant_id
                        (check_built setup health tenant_id (build_from_row setup row))))
                    store.rows))
              (found-id tenant_id id store.rows row found)
              (Rewritten-update_row row.id _ store.rows)),
      ),
    )
  ]
