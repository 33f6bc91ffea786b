-- ===== src/Tests/Incidents.antt =====
-- Alerts, triage and backtests.
use nightswatch.Prelude.{ℕ, ◌≡◌, refl, ◌⊎◌, true, false, Option, none, some, [], ◌∷◌, String, arith}
use nightswatch.Context.{Classification}
use nightswatch.Database.{Status, Labels, Investigation, Service, Db}
use nightswatch.Repository.{get, with_status, create_pending, update_investigation}
use nightswatch.Repository.Fresh.{Fresh}
use nightswatch.Alert.Fingerprint.{
  Hashing, default_unstable_labels, fingerprint, kept, dropped, added, done, fingerprint-Churned,
}
use nightswatch.Alert.{
  AlertmanagerAlert, IngestResult, AlertService, no_result, ingest_named, ingest,
}
use nightswatch.Alert.Ingest.{Taken, ingest-Taken}
use nightswatch.Alert.Dedupe.{Linked, ingest_again-Linked}
use nightswatch.Triage.{TriageStage, classify}
use nightswatch.Triage.Sound.{Grounds, classify-Grounds}
use nightswatch.Backtest.{BacktestService, replay}
use nightswatch.Backtest.Run.{Replayed, replay_cases}

abbrev hashing : Hashing
hashing = record { str = λ n. "id"; dumps = λ fields. "{}"; sha256 = λ s. s }

abbrev labels_of : String → Labels
labels_of pod = ("alertname", "HighLatency") ∷ ("pod", pod) ∷ ("severity", "critical") ∷ []

abbrev pub am_alert : String → AlertmanagerAlert
am_alert pod = record {
  status = "firing";
  labels = labels_of pod;
  annotations = [];
  starts_at = 900;
  ends_at = none;
}

abbrev pub alert_service : AlertService
alert_service = record {
  hashing = hashing;
  dedupe_window_seconds = 1;
  unstable_labels = default_unstable_labels;
  now = 5000;
  database_now = 5000;
}

abbrev pub service : Service
service = record { id = 2; tenant_id = 1; name = "checkout"; label_selector = [] }

abbrev pub past : Investigation
past = record {
  id = 4;
  tenant_id = 1;
  service_id = 2;
  triggering_alert_id = none;
  fingerprint = "f-1";
  status = Status.succeeded;
  confidence = none;
  started_at = none;
  completed_at = none;
  budget_snapshot = none;
  is_backtest = false;
  dry_run = false;
  replayed_from = none;
  created_at = 4000;
}

abbrev pub db : Db
db = record {
  alerts = [];
  investigations = past ∷ [];
  stages = [];
  reports = [];
  services = service ∷ [];
  jobs = [];
  next_id = 5;
}

db-Fresh : Fresh db
db-Fresh = (omega arith, tt)

fingerprint-Churned_example :
    fingerprint hashing 1 "HighLatency" (labels_of "a") none default_unstable_labels
    ≡ fingerprint hashing 1 "HighLatency" (labels_of "b") none default_unstable_labels
fingerprint-Churned_example =
    fingerprint-Churned hashing 1 "HighLatency" none default_unstable_labels (labels_of "a")
      (labels_of "b") (kept (dropped refl (added refl (kept done))))

-- An alert of an earlier payload is there.
abbrev earlier : Db
earlier = record db {
  alerts =
      record {
        id = 3;
        tenant_id = 1;
        source = "alertmanager";
        received_at = 4000;
        alert_name = "Old";
        severity = none;
        status = "firing";
        started_at = 3900;
        ended_at = none;
        labels = [];
        annotations = [];
        fingerprint = "f-1";
        investigation_id = some 4;
      }
      ∷ [];
}

ingest-Taken_example :
    Taken alert_service 1 "alertmanager" earlier
      (am_alert "a" ∷ am_alert "b" ∷ [])
      (ingest alert_service 1 "alertmanager" (am_alert "a" ∷ am_alert "b" ∷ []) earlier)
ingest-Taken_example =
    ingest-Taken alert_service 1 "alertmanager" (am_alert "a" ∷ am_alert "b" ∷ []) earlier
      (omega arith, tt)

abbrev start : IngestResult × Db
start = (no_result alert_service 1 "alertmanager", db)

ingest_again-Linked_example :
    Linked alert_service 1 "alertmanager"
      (ingest_named alert_service 1 "alertmanager"
        (some service)
        (am_alert "a")
        "HighLatency"
        start)
      (ingest_named alert_service 1 "alertmanager" (some service) (am_alert "b") "HighLatency" (
        ingest_named alert_service 1 "alertmanager"
          (some service)
          (am_alert "a")
          "HighLatency"
          start))
ingest_again-Linked_example =
    ingest_again-Linked alert_service 1 "alertmanager" service (am_alert "a") (am_alert "b")
      "HighLatency" "HighLatency" start (omega arith)
      (fingerprint-Churned hashing 1 "HighLatency" (some "critical") default_unstable_labels
        (labels_of "a") (labels_of "b") (kept (dropped refl (added refl (kept done)))))

abbrev triage : TriageStage
triage = record {
  has_investigation_repo = true;
  has_alert_repo = true;
  known_issue_window = 2000;
  noise_window = 600;
  noise_threshold = 5;
  str = λ n. "n";
}

abbrev verdict : Classification × Option ℕ
verdict =
    let result = classify triage 1 5000 9 (some "f-1") db in
    (result.classification, result.related_investigation_id)

classify-Grounds_example : Grounds triage 1 5000 9 "f-1" db verdict.0 verdict.1
classify-Grounds_example = classify-Grounds triage 1 5000 9 "f-1" db

abbrev backtests : BacktestService
backtests = record {
  hashing = hashing;
  unstable_labels = default_unstable_labels;
  now = 5000;
  database_now = 5000;
}

replay_cases_example :
    ((get 1 4 db ≡ none) × (replay backtests 1 4 db ≡ (none, db)))
    ⊎ ((source : Investigation) × (get 1 4 db ≡ some source)
        × Replayed backtests 1 source db (replay backtests 1 4 db))
replay_cases_example = replay_cases backtests 1 4 db db-Fresh

abbrev pending : Investigation × Db
pending = create_pending 1 5000 2 none "f-2" false false none db

updated :
    with_status Status.failed none none none none past ∷ []
    ≡ update_investigation 4 (with_status Status.failed none none none none) db.investigations
unfolding update_investigation
updated = refl
