-- ===== src/Repository.antt =====
-- core/_base/repository.py, core/alert/repository.py and core/investigation/repository.py.
-- A repository is bound to a tenant, the first argument of each function.
pub mod Chosen
pub mod Fresh
pub mod Scope
pub mod StageRows
pub mod Stages
use nightswatch.Prelude.{
  ℕ, suc, ◌+◌, String, Bool, true, false, not, ◌&&◌, ◌||◌, Option, none, some, List, [], ◌∷◌, ◌++◌,
  length, contains, leb, ltb, ◌==◌, str_eq, if◌then◌else◌,
}
use nightswatch.Json.{Fields}
use nightswatch.Budget.{Snapshot}
use nightswatch.Context.{Confidence, Report}
use nightswatch.Database.{
  Status, StageEnd, StageStatus, Labels, Alert, Investigation, InvestigationStage, ReportRow,
  Service, Db,
}

abbrev pub is_status : Status → Status → Bool
is_status Status.pending Status.pending = true
is_status Status.running Status.running = true
is_status Status.succeeded Status.succeeded = true
is_status Status.partial Status.partial = true
is_status Status.failed Status.failed = true
is_status _ _ = false

-- `status in statuses`
abbrev pub in_statuses : Status → List Status → Bool
in_statuses s [] = false
in_statuses s (x ∷ xs) = is_status s x || in_statuses s xs

abbrev pub active_dedupe_statuses : List Status
active_dedupe_statuses = Status.pending ∷ Status.running ∷ Status.succeeded ∷ Status.partial ∷ []

-- `where`
abbrev pub filter {ℓ} : {A : Type ℓ} → (A → Bool) → List A → List A
filter p [] = []
filter p (x ∷ xs) = let rest = filter p xs in if p x then x ∷ rest else rest

-- `limit(1)` with `scalar_one_or_none`
abbrev pub first {ℓ} : {A : Type ℓ} → List A → Option A
first [] = none
first (x ∷ xs) = some x

-- `order_by(created_at.desc())`: insertion into a list with the newest first; among rows of one
-- moment the database may choose, and here the one inserted first stands first.
unfoldable pub insert_newest : Investigation → List Investigation → List Investigation
insert_newest i [] = i ∷ []
insert_newest i (j ∷ js) =
    if leb j.created_at i.created_at then i ∷ j ∷ js else j ∷ insert_newest i js

unfoldable pub newest_first : List Investigation → List Investigation
unfolding insert_newest
newest_first [] = []
newest_first (i ∷ is) = insert_newest i (newest_first is)

-- A keyword argument of `None` keeps what is there.
abbrev pub or_keep {ℓ} : {A : Type ℓ} → Option A → Option A → Option A
or_keep none old = old
or_keep (some new) old = some new

abbrev pub with_status :
    Status
    → Option Confidence
    → Option ℕ
    → Option ℕ
    → Option Snapshot
    → Investigation
    → Investigation
with_status status confidence started_at completed_at budget_snapshot i = record i {
  status = status;
  confidence = or_keep confidence i.confidence;
  started_at = or_keep started_at i.started_at;
  completed_at = or_keep completed_at i.completed_at;
  budget_snapshot = or_keep budget_snapshot i.budget_snapshot;
}

-- The row with this id is mutated in place.
unfoldable pub update_investigation :
    ℕ → (Investigation → Investigation) → List Investigation → List Investigation
update_investigation id f [] = []
update_investigation id f (i ∷ is) = (if i.id == id then f i else i) ∷ update_investigation id f is

unfoldable pub set_status :
    ℕ → Status → Option Confidence → Option ℕ → Option ℕ → Option Snapshot → Db → Db
set_status id status confidence started_at completed_at budget_snapshot db = record db {
  investigations =
      update_investigation id
        (with_status status confidence started_at completed_at budget_snapshot) db.investigations;
}

unfoldable pub update_alert : ℕ → (Alert → Alert) → List Alert → List Alert
update_alert id f [] = []
update_alert id f (a ∷ rest) = (if a.id == id then f a else a) ∷ update_alert id f rest

-- `AlertRepository.set_investigation`
unfoldable pub set_investigation : (alert_id investigation_id : ℕ) → Db → Db
set_investigation alert_id investigation_id db = record db {
  alerts =
      update_alert alert_id (λ a. record a { investigation_id = some investigation_id }) db.alerts;
}

module _ (tenant_id : ℕ) where
  -- `TenantScopedRepository.get` of investigations.
  unfoldable pub get : ℕ → Db → Option Investigation
  get id db =
      first
        (filter (λ (i : Investigation). i.tenant_id == tenant_id && i.id == id) db.investigations)

  unfoldable pub is_active : (fingerprint : String) (since : ℕ) → Investigation → Bool
  is_active fingerprint since i =
      i.tenant_id == tenant_id
      && (str_eq i.fingerprint fingerprint
          && (in_statuses i.status active_dedupe_statuses && leb since i.created_at))

  unfoldable pub find_active_by_fingerprint :
      (fingerprint : String) (since : ℕ) → Db → Option Investigation
  unfolding is_active newest_first
  find_active_by_fingerprint fingerprint since db =
      first (newest_first (filter (is_active fingerprint since) db.investigations))

  -- `now` is the database's clock, which sets `created_at`.
  unfoldable pub create_pending :
      (now service_id : ℕ) (triggering_alert_id : Option ℕ) (fingerprint : String)
      (is_backtest dry_run : Bool) (replayed_from : Option ℕ)
      → Db
      → Investigation × Db
  create_pending now service_id triggering_alert_id fingerprint is_backtest dry_run replayed_from
        db =
      let row : Investigation = record {
        id = db.next_id;
        tenant_id = tenant_id;
        service_id = service_id;
        triggering_alert_id = triggering_alert_id;
        fingerprint = fingerprint;
        status = Status.pending;
        confidence = none;
        started_at = none;
        completed_at = none;
        budget_snapshot = none;
        is_backtest = is_backtest;
        dry_run = dry_run;
        replayed_from = replayed_from;
        created_at = now;
      } in
      (row, record db { investigations = db.investigations ++ row ∷ []; next_id = suc db.next_id })

  -- The filters of `find_by_fingerprint`; `exclude_id` and `statuses` are given by every caller.
  unfoldable pub is_prior :
      (fingerprint : String) (since exclude_id : ℕ) → List Status → Investigation → Bool
  is_prior fingerprint since exclude_id statuses i =
      i.tenant_id == tenant_id
      && (str_eq i.fingerprint fingerprint
          && (leb since i.created_at
              && (not (i.id == exclude_id) && in_statuses i.status statuses)))

  unfoldable pub find_by_fingerprint :
      (fingerprint : String) (since exclude_id : ℕ) → List Status → Db → List Investigation
  unfolding is_prior newest_first
  find_by_fingerprint fingerprint since exclude_id statuses db =
      newest_first (filter (is_prior fingerprint since exclude_id statuses) db.investigations)

  abbrev cost_of : Option Snapshot → ℕ
  cost_of none = 0
  cost_of (some snapshot) = snapshot.cost_used_usd

  unfoldable pub sum_llm_cost : (since : ℕ) → List Investigation → ℕ
  sum_llm_cost since [] = 0
  sum_llm_cost since (i ∷ is) =
      (if i.tenant_id == tenant_id && leb since i.created_at then cost_of i.budget_snapshot else 0)
      + sum_llm_cost since is

  unfoldable pub sum_llm_cost_since : (since : ℕ) → Db → ℕ
  unfolding sum_llm_cost
  sum_llm_cost_since since db = sum_llm_cost since db.investigations

  unfoldable pub is_flap : (fingerprint : String) (since : ℕ) → Alert → Bool
  is_flap fingerprint since a =
      a.tenant_id == tenant_id && (str_eq a.fingerprint fingerprint && leb since a.received_at)

  unfoldable pub count_by_fingerprint : (fingerprint : String) (since : ℕ) → Db → ℕ
  unfolding is_flap
  count_by_fingerprint fingerprint since db = length (filter (is_flap fingerprint since) db.alerts)

  -- `AlertRepository.create`
  unfoldable pub create_alert :
      (source : String) (received_at : ℕ) (alert_name : String) (severity : Option String)
      (status : String) (started_at : ℕ) (ended_at : Option ℕ) (labels annotations : Labels)
      (fingerprint : String)
      → Db
      → Alert × Db
  create_alert source received_at alert_name severity status started_at ended_at labels annotations
        fingerprint db =
      let row : Alert = record {
        id = db.next_id;
        tenant_id = tenant_id;
        source = source;
        received_at = received_at;
        alert_name = alert_name;
        severity = severity;
        status = status;
        started_at = started_at;
        ended_at = ended_at;
        labels = labels;
        annotations = annotations;
        fingerprint = fingerprint;
        investigation_id = none;
      } in
      (row, record db { alerts = db.alerts ++ row ∷ []; next_id = suc db.next_id })

  -- `ReportRepository.upsert`: one report for each investigation.
  unfoldable pub upsert_report_row : ℕ → Report → List ReportRow → List ReportRow
  upsert_report_row investigation_id report [] =
      record { tenant_id = tenant_id; investigation_id = investigation_id; report = report } ∷ []
  upsert_report_row investigation_id report (r ∷ rs) =
      if r.tenant_id == tenant_id && r.investigation_id == investigation_id
      then record r { report = report } ∷ rs
      else r ∷ upsert_report_row investigation_id report rs

  unfoldable pub upsert_report : ℕ → Report → Db → Db
  unfolding upsert_report_row
  upsert_report investigation_id report db = record db {
    reports = upsert_report_row investigation_id report db.reports;
  }

  -- `ServiceRepository.get_for_tenant`: a tenant has one service.
  unfoldable pub get_for_tenant : Db → Option Service
  get_for_tenant db = first (filter (λ (s : Service). s.tenant_id == tenant_id) db.services)

  unfoldable pub get_by_id : ℕ → Db → Option Service
  get_by_id id db =
      first (filter (λ (s : Service). s.tenant_id == tenant_id && s.id == id) db.services)
