-- ===== src/Alert.antt =====
-- core/alert/service.py: persist, deduplicate and enqueue what a webhook brings.
-- Clock readings are in milliseconds.
pub mod Fingerprint
pub mod Entries
pub mod Attached
pub mod Ingest
pub mod Dedupe
use nightswatch.Prelude.{
  ℕ, ◌-◌, ◌*◌, String, Bool, true, false, not, ◌&&◌, Option, none, some, List, [], ◌∷◌, ◌++◌,
  lookup, str_eq, if◌then◌else◌,
}
use nightswatch.Action.{
  Exception, other, alert_validation_error, Result, return, raise, Action, pure, throw, modify,
  ◌>>=◌, ◌>>◌,
}
use nightswatch.Database.{Labels, Alert, Investigation, Service, Db}
use nightswatch.Repository.{
  set_investigation, find_active_by_fingerprint, create_pending, create_alert, get_for_tenant,
}
use Fingerprint.{Hashing, fingerprint}

-- `AlertmanagerAlert`
pub record AlertmanagerAlert : Type 0 where
  pub status : String
  pub labels : Labels
  pub annotations : Labels
  pub starts_at : ℕ
  pub ends_at : Option ℕ

pub record IngestResult : Type 0 where
  pub alert_ids : List ℕ
  pub new_investigation_ids : List ℕ
  pub linked_investigation_ids : List ℕ

-- The settings of the service, how it hashes, and the two clocks: `now` of the process, and
-- `database_now`, which dates the rows.
pub record AlertService : Type 0 where
  pub hashing : Hashing
  pub dedupe_window_seconds : ℕ
  pub unstable_labels : List String
  pub now : ℕ
  pub database_now : ℕ

abbrev is_set : Option String → Bool
is_set none = false
is_set (some s) = not (str_eq s "")

-- `incoming.labels.get("alertname")` is true.
abbrev pub is_named : AlertmanagerAlert → Bool
is_named incoming = is_set (lookup "alertname" incoming.labels)

abbrev pub all_named : List AlertmanagerAlert → Bool
all_named [] = true
all_named (incoming ∷ payload) = is_named incoming && all_named payload

unfoldable pub enqueue : ℕ → Db → Db
enqueue investigation_id db = record db { jobs = db.jobs ++ investigation_id ∷ [] }

module _ (s : AlertService) (tenant_id : ℕ) (source : String) where
  abbrev pub window_start : ℕ
  window_start = s.now - s.dedupe_window_seconds * 1000

  abbrev pub fingerprint_of : String → AlertmanagerAlert → String
  fingerprint_of name am_alert =
      fingerprint s.hashing tenant_id name am_alert.labels (lookup "severity" am_alert.labels)
        s.unstable_labels

  -- The rest of the loop's body, for what `find_active_by_fingerprint` found.
  unfoldable pub attach :
      Service
      → (alert_id : ℕ) → String
      → Option Investigation
      → IngestResult × Db
      → IngestResult × Db
  unfolding enqueue
  attach service alert_id fp (some existing) (result, db) = (
    record result {
      linked_investigation_ids = result.linked_investigation_ids ++ existing.id ∷ [];
    },
    set_investigation alert_id existing.id db,
  )
  attach service alert_id fp none (result, db) =
      let (investigation, db') =
        create_pending tenant_id s.database_now service.id (some alert_id) fp false false none db in
      (
        record result {
          new_investigation_ids = result.new_investigation_ids ++ investigation.id ∷ [];
        },
        enqueue investigation.id (set_investigation alert_id investigation.id db'),
      )

  unfoldable pub investigate :
      Option Service → (alert_id : ℕ) → String → IngestResult × Db → IngestResult × Db
  unfolding attach
  investigate none alert_id fp (result, db) = (result, db)
  investigate (some service) alert_id fp (result, db) =
      attach service alert_id fp (find_active_by_fingerprint tenant_id fp window_start db)
        (result, db)

  -- The body of the loop for an alert called `name`.
  unfoldable pub ingest_named :
      Option Service → AlertmanagerAlert → String → IngestResult × Db → IngestResult × Db
  unfolding investigate
  ingest_named service am_alert name (result, db) =
      let fp = fingerprint_of name am_alert in
      let (alert, db') =
        create_alert tenant_id source s.now name (lookup "severity" am_alert.labels) am_alert.status
          am_alert.starts_at am_alert.ends_at am_alert.labels am_alert.annotations fp db in
      investigate service alert.id fp
        (record result { alert_ids = result.alert_ids ++ alert.id ∷ [] }, db')

  -- `am_alert.labels["alertname"]` raises where there is no such label.
  unfoldable pub ingest_alert : Option Service → AlertmanagerAlert → Action (IngestResult × Db) Unit
  unfolding ingest_named ◌>>=◌
  ingest_alert service am_alert = elim (lookup "alertname" am_alert.labels) [
    | none ↦ throw (other "KeyError")
    | some name ↦ modify (ingest_named service am_alert name)
  ]

  unfoldable pub ingest_alerts :
      Option Service → List AlertmanagerAlert → Action (IngestResult × Db) Unit
  unfolding ingest_alert
  ingest_alerts service [] = pure tt
  ingest_alerts service (am_alert ∷ payload) =
      ingest_alert service am_alert >> ingest_alerts service payload

  abbrev pub no_result : IngestResult
  no_result = record { alert_ids = []; new_investigation_ids = []; linked_investigation_ids = [] }

  abbrev result_of : Result (Unit {0}) × (IngestResult × Db) → Result IngestResult × Db
  result_of (return _, (result, db)) = (return result, db)
  result_of (raise e, (result, db)) = (raise e, db)

  unfoldable pub ingest : List AlertmanagerAlert → Action Db IngestResult
  unfolding ingest_alerts
  ingest payload db =
      if all_named payload
      then result_of (ingest_alerts (get_for_tenant tenant_id db) payload (no_result, db))
      else (raise alert_validation_error, db)
