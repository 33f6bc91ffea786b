-- ===== src/Backtest.antt =====
-- core/investigation/backtest.py: run a recorded alert, or an investigation again.
pub mod Run
use nightswatch.Prelude.{
  ℕ, String, Bool, true, false, Option, none, some, List, [], ◌∷◌, lookup, str_eq, if◌then◌else◌,
}
use nightswatch.Action.{other, alert_validation_error, Result, return, raise, Action}
use nightswatch.Database.{Investigation, Service, Db}
use nightswatch.Repository.{get, get_by_id, create_alert, create_pending, set_investigation}
use nightswatch.Alert.Fingerprint.{Hashing, fingerprint}
use nightswatch.Alert.{AlertmanagerAlert, enqueue}

-- `now` is the process's clock, `database_now` dates the investigations.
pub record BacktestService : Type 0 where
  pub hashing : Hashing
  pub unstable_labels : List String
  pub now : ℕ
  pub database_now : ℕ

module _ (s : BacktestService) (tenant_id : ℕ) where
  -- From the fingerprint on, for an alert called `name`.
  unfoldable pub backtest_alert :
      Service → AlertmanagerAlert → (name : String) (dry_run : Bool) → Db → Investigation × Db
  unfolding create_alert create_pending enqueue
  backtest_alert service am_alert name dry_run db =
      let severity = lookup "severity" am_alert.labels in
      let fp = fingerprint s.hashing tenant_id name am_alert.labels severity s.unstable_labels in
      let (alert, db1) =
        create_alert tenant_id "backtest" s.now name severity am_alert.status am_alert.starts_at
          am_alert.ends_at am_alert.labels am_alert.annotations fp db in
      let (investigation, db2) =
        create_pending tenant_id s.database_now service.id (some alert.id) fp true dry_run none
          db1 in
      (investigation, enqueue investigation.id (set_investigation alert.id investigation.id db2))

  abbrev returned : Investigation × Db → Result Investigation × Db
  returned (investigation, db) = (return investigation, db)

  -- The first alert of the payload, whose name must be there and not empty.
  unfoldable pub backtest_named :
      Service → AlertmanagerAlert → (dry_run : Bool) → Option String → Action Db Investigation
  unfolding backtest_alert
  backtest_named service am_alert dry_run none db = (raise alert_validation_error, db)
  backtest_named service am_alert dry_run (some name) db =
      if str_eq name ""
      then (raise alert_validation_error, db)
      else returned (backtest_alert service am_alert name dry_run db)

  unfoldable pub backtest_with :
      Option Service → List AlertmanagerAlert → (dry_run : Bool) → Action Db Investigation
  unfolding backtest_named
  backtest_with none payload dry_run db = (raise (other "ServiceNotFound"), db)
  backtest_with (some service) [] dry_run db = (raise alert_validation_error, db)
  backtest_with (some service) (am_alert ∷ payload) dry_run db =
      backtest_named service am_alert dry_run (lookup "alertname" am_alert.labels) db

  unfoldable pub backtest :
      List AlertmanagerAlert → (service_id : ℕ) (dry_run : Bool) → Action Db Investigation
  unfolding backtest_with
  backtest payload service_id dry_run db =
      backtest_with (get_by_id tenant_id service_id db) payload dry_run db

  unfoldable pub replay_of : Option Investigation → Db → Option Investigation × Db
  unfolding create_pending enqueue
  replay_of none db = (none, db)
  replay_of (some source) db =
      let (investigation, db') =
        create_pending tenant_id s.database_now source.service_id source.triggering_alert_id
          source.fingerprint source.is_backtest source.dry_run (some source.id) db in
      (some investigation, enqueue investigation.id db')

  unfoldable pub replay : (investigation_id : ℕ) → Db → Option Investigation × Db
  unfolding replay_of
  replay investigation_id db = replay_of (get tenant_id investigation_id db) db
