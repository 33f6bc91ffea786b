-- ===== src/Database.antt =====
-- models/alert.py, models/investigation.py, models/report.py: the tables, as lists of rows in the
-- order of insertion. Identifiers are numbers; `next_id` is the next one that is free.
use nightswatch.Prelude.{ℕ, String, Bool, Option, List}
use nightswatch.Json.{Fields}
use nightswatch.Budget.{Snapshot}
use nightswatch.Context.{Confidence, Report}

pub data Status : Type 0 where
  pending running succeeded partial failed : Status

-- The status that a stage's execution may end with.
pub data StageEnd : Type 0 where
  succeeded failed timed_out budget_exhausted partial : StageEnd

pub data StageStatus : Type 0 where
  running : StageStatus
  ended : StageEnd → StageStatus

-- A dictionary of texts, such as the labels of an alert.
abbrev pub Labels : Type 0
Labels = List (String × String)

pub record Alert : Type 0 where
  pub id : ℕ
  pub tenant_id : ℕ
  pub source : String
  pub received_at : ℕ
  pub alert_name : String
  pub severity : Option String
  pub status : String
  pub started_at : ℕ
  pub ended_at : Option ℕ
  pub labels : Labels
  pub annotations : Labels
  pub fingerprint : String
  pub investigation_id : Option ℕ

pub record Investigation : Type 0 where
  pub id : ℕ
  pub tenant_id : ℕ
  pub service_id : ℕ
  pub triggering_alert_id : Option ℕ
  pub fingerprint : String
  pub status : Status
  pub confidence : Option Confidence
  pub started_at : Option ℕ
  pub completed_at : Option ℕ
  pub budget_snapshot : Option Snapshot
  pub is_backtest : Bool
  pub dry_run : Bool
  pub replayed_from : Option ℕ
  pub created_at : ℕ

pub record InvestigationStage : Type 0 where
  pub id : ℕ
  pub tenant_id : ℕ
  pub investigation_id : ℕ
  pub name : String
  pub attempt : ℕ
  pub status : StageStatus
  pub output : Option Fields
  pub error : Option Fields
  pub started_at : Option ℕ
  pub completed_at : Option ℕ

pub record ReportRow : Type 0 where
  pub tenant_id : ℕ
  pub investigation_id : ℕ
  pub report : Report

pub record Service : Type 0 where
  pub id : ℕ
  pub tenant_id : ℕ
  pub name : String
  pub label_selector : Labels

-- `jobs` is the queue: the investigations that `run_investigation` was enqueued for.
pub record Db : Type 0 where
  pub alerts : List Alert
  pub investigations : List Investigation
  pub stages : List InvestigationStage
  pub reports : List ReportRow
  pub services : List Service
  pub jobs : List ℕ
  pub next_id : ℕ
