-- ===== src/Backtest/Run.antt =====
-- From a backtest or a replay to the conclusion of its run.
use nightswatch.Prelude.{
  ℕ, suc, String, ◌≡◌, refl, Bool, true, Bool-cases, ◌⊎◌, inl, inr, Option-cases, Option, none,
  some, List, [], ◌∷◌, ◌++◌, lookup, str_eq, arith,
}
use nightswatch.Action.{Exception, alert_validation_error, Result, return, raise}
use nightswatch.Database.{Status, Investigation, Service, Db}
use nightswatch.Repository.{get, get_by_id, set_investigation, create_pending, create_alert}
use nightswatch.Repository.Fresh.{Fresh, AllBelow-weaken, create_pending-get, create_pending-Fresh}
use nightswatch.Alert.{AlertmanagerAlert}
use nightswatch.Alert.Fingerprint.{fingerprint}
use nightswatch.Pipeline.{Collaborators, Stage}
use nightswatch.Orchestrator.{run}
use nightswatch.Orchestrator.Step.{AllKeep}
use nightswatch.Orchestrator.Resume.{RunEnds, run_ends}
use nightswatch.Backtest.{
  BacktestService, backtest_alert, backtest_named, backtest_with, backtest, replay_of, replay,
}

-- A pending investigation was added, can be read, and has the last job of the queue.
pub record Queued (tenant_id : ℕ) (inv : Investigation) (before after : Db) : Type 0 where
  pub readable : get tenant_id inv.id after ≡ some inv
  pub pending : inv.status ≡ Status.pending
  pub investigations : after.investigations ≡ before.investigations ++ inv ∷ []
  pub jobs : after.jobs ≡ before.jobs ++ inv.id ∷ []
  pub fresh : Fresh after

pub record CopyOf (source inv : Investigation) : Type 0 where
  pub replayed_from : inv.replayed_from ≡ some source.id
  pub service_id : inv.service_id ≡ source.service_id
  pub triggering_alert_id : inv.triggering_alert_id ≡ source.triggering_alert_id
  pub fingerprint : inv.fingerprint ≡ source.fingerprint
  pub is_backtest : inv.is_backtest ≡ source.is_backtest
  pub dry_run : inv.dry_run ≡ source.dry_run

module _ (s : BacktestService) (tenant_id : ℕ) where
  abbrev pub Replayed : (source : Investigation) → Db → Option Investigation × Db → Type 0
  Replayed source db out =
      (inv : Investigation) × (out.0 ≡ some inv) × Queued tenant_id inv db out.1 × CopyOf source inv

  backtest_alert-Queued :
      (service : Service) (am_alert : AlertmanagerAlert) (name : String) (dry_run : Bool) (db : Db)
      → Fresh db
      → Queued tenant_id
          (backtest_alert s tenant_id service am_alert name dry_run db).0
          db
          (backtest_alert s tenant_id service am_alert name dry_run db).1
  unfolding backtest_alert set_investigation get create_alert
  backtest_alert-Queued service am_alert name dry_run db fresh =
      let fp =
        fingerprint s.hashing tenant_id name am_alert.labels (lookup "severity" am_alert.labels)
          s.unstable_labels in
      let db1 =
        (create_alert tenant_id "backtest" s.now name (lookup "severity" am_alert.labels)
          am_alert.status am_alert.starts_at am_alert.ends_at am_alert.labels am_alert.annotations
          fp db).1 in
      let fresh1 =
        AllBelow-weaken db.next_id (suc db.next_id) db.investigations (omega arith) fresh in
      record {
        readable =
            create_pending-get tenant_id s.database_now service.id (some db.next_id) fp true dry_run
              none db1 fresh1;
        pending = refl;
        investigations = refl;
        jobs = refl;
        fresh =
            create_pending-Fresh tenant_id s.database_now service.id (some db.next_id) fp true
              dry_run none db1 fresh1;
      }

  replay_of-Queued :
      (source : Investigation) (db : Db)
      → Fresh db
      → Replayed source db (replay_of s tenant_id (some source) db)
  unfolding replay_of get create_pending
  replay_of-Queued source db fresh = (
    _,
    refl,
    record {
      readable =
          create_pending-get tenant_id s.database_now source.service_id source.triggering_alert_id
            source.fingerprint source.is_backtest source.dry_run (some source.id) db fresh;
      pending = refl;
      investigations = refl;
      jobs = refl;
      fresh =
          create_pending-Fresh tenant_id s.database_now source.service_id source.triggering_alert_id
            source.fingerprint source.is_backtest source.dry_run (some source.id) db fresh;
    },
    record {
      replayed_from = refl;
      service_id = refl;
      triggering_alert_id = refl;
      fingerprint = refl;
      is_backtest = refl;
      dry_run = refl;
    },
  )

  -- A replay of an investigation that the tenant does not have does nothing. Of one that it has, in
  -- whatever status, it queues a copy: another pending investigation that is linked to the source and
  -- has its service, alert, fingerprint and flags; it can be read and has the queue's last job.
  pub replay_cases :
      (investigation_id : ℕ) (db : Db)
      → Fresh db
      → ((get tenant_id investigation_id db ≡ none)
          × (replay s tenant_id investigation_id db ≡ (none, db)))
        ⊎ ((source : Investigation) × (get tenant_id investigation_id db ≡ some source)
            × Replayed source db (replay s tenant_id investigation_id db))
  unfolding replay
  replay_cases investigation_id db fresh = elim (Option-cases (get tenant_id investigation_id db)) [
    | inl missing ↦ inl (missing, rw missing refl)
    | inr (source, found) ↦ inr (source, found, rw found (replay_of-Queued source db fresh))
  ]

  abbrev pub Backtested : (dry_run : Bool) → Db → Result Investigation × Db → Type 0
  Backtested dry_run db out =
      ((e : Exception) × (out ≡ (raise e, db)))
      ⊎ ((inv : Investigation) × (out.0 ≡ return inv)
          × (inv.is_backtest ≡ true)
          × (inv.dry_run ≡ dry_run)
          × Queued tenant_id inv db out.1)

  backtest_named-Backtested :
      (service : Service) (am_alert : AlertmanagerAlert) (dry_run : Bool) (name : Option String)
      (db : Db)
      → Fresh db
      → Backtested dry_run db (backtest_named s tenant_id service am_alert dry_run name db)
  unfolding backtest_named backtest_alert create_pending
  backtest_named-Backtested service am_alert dry_run none db fresh = inl (_, refl)
  backtest_named-Backtested service am_alert dry_run (some name) db fresh =
      elim (Bool-cases (str_eq name "")) [
        | inl empty ↦ inl (alert_validation_error, rw empty refl)
        | inr named ↦ rw named (
            inr (_, refl, refl, refl, backtest_alert-Queued service am_alert name dry_run db fresh))
      ]

  backtest_with-Backtested :
      (service : Option Service) (payload : List AlertmanagerAlert) (dry_run : Bool) (db : Db)
      → Fresh db
      → Backtested dry_run db (backtest_with s tenant_id service payload dry_run db)
  unfolding backtest_with
  backtest_with-Backtested none payload dry_run db fresh = inl (_, refl)
  backtest_with-Backtested (some service) [] dry_run db fresh = inl (_, refl)
  backtest_with-Backtested (some service) (am_alert ∷ payload) dry_run db fresh =
      backtest_named-Backtested service am_alert dry_run (lookup "alertname" am_alert.labels) db
        fresh

  -- A backtest that is refused stores nothing. Otherwise it queues a pending investigation that is
  -- marked as a backtest, with the `dry_run` that was asked for: it can be read and has the queue's
  -- last job.
  pub backtest_cases :
      (payload : List AlertmanagerAlert) (service_id : ℕ) (dry_run : Bool) (db : Db)
      → Fresh db
      → Backtested dry_run db (backtest s tenant_id payload service_id dry_run db)
  unfolding backtest
  backtest_cases payload service_id dry_run db fresh =
      backtest_with-Backtested (get_by_id tenant_id service_id db) payload dry_run db fresh

-- What is queued runs to a conclusion: the run that its job starts ends it as `succeeded` or
-- `partial`, and settles every stage.
pub Queued-RunEnds :
    {W : Type 0} (c : Collaborators W) (tenant_id : ℕ) (stages : List (Stage W))
    (inv : Investigation) (before after : Db) (world : W)
    → AllKeep stages
    → Queued tenant_id inv before after
    → RunEnds c tenant_id stages inv.id after (run c tenant_id stages inv.id (after, world)).0
Queued-RunEnds c tenant_id stages inv before after world keeps queued =
    run_ends c tenant_id stages inv.id after world inv keeps queued.readable
      (rw queued.pending refl)
