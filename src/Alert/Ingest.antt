-- ===== src/Alert/Ingest.antt =====
-- core/alert/service.py: what one payload leaves; its rows, its jobs and the answer agree.
use nightswatch.Prelude.{
  ℕ, String, ◌≡◌, refl, sym, ap, true, false, Bool-cases, ◌⊎◌, inl, inr, Option-cases, Option, some,
  List, [], ◌∷◌, ◌++◌, lookup, if◌then◌else◌, arith,
}
use mathlib.Core.Path.{subst}
use nightswatch.Action.{alert_validation_error, Result, return, raise, ◌>>=◌}
use nightswatch.Database.{Service, Db}
use nightswatch.Repository.{get_for_tenant}
use nightswatch.Alert.{
  AlertmanagerAlert, IngestResult, AlertService, all_named, ingest_named, ingest_alert,
  ingest_alerts, ingest, no_result, result_of,
}
use nightswatch.Alert.Entries.{Tally, Tally-extend, append_assoc, append_nil}
use nightswatch.Alert.Attached.{FreshAlerts, ingest_named-Step, FreshAlerts-Step}

module _ (s : AlertService) (tenant_id : ℕ) (source : String) where
  ingest_alert-named :
      (service : Option Service) (am_alert : AlertmanagerAlert) (name : String)
      (r : IngestResult × Db)
      → lookup "alertname" am_alert.labels ≡ some name
      → ingest_alert s tenant_id source service am_alert r
        ≡ (return tt, ingest_named s tenant_id source service am_alert name r)
  unfolding ingest_alert
  ingest_alert-named service am_alert name r found = ground (arith, found)

  -- The loop never meets an alert without a name, and takes every one.
  ingest_alerts-Tally :
      (service : Option Service) (payload done : List AlertmanagerAlert) (start : Db)
      (r : IngestResult × Db)
      → all_named payload ≡ true
      → FreshAlerts r.1
      → Tally s tenant_id source service start done r
      → ((ingest_alerts s tenant_id source service payload r).0 ≡ return tt)
        × Tally s tenant_id source service start
            (done ++ payload)
            (ingest_alerts s tenant_id source service payload r).1
  unfolding ingest_alerts ◌>>=◌
  ingest_alerts-Tally service [] done start r named fresh t =
      (refl, subst (λ l. Tally s tenant_id source service start l r) (append_nil done) t)
  ingest_alerts-Tally service (am_alert ∷ payload) done start r named fresh t =
      elim (Option-cases (lookup "alertname" am_alert.labels)) [
        | inl missing ↦ ground (arith, missing)
        | inr (name, found) ↦
            let after = ingest_named s tenant_id source service am_alert name r in
            let (e, same, x) =
              ingest_named-Step s tenant_id source service am_alert name r.0 r.1 found fresh in
            let rest =
              ingest_alerts-Tally service payload (done ++ am_alert ∷ []) start after (ground arith)
                (FreshAlerts-Step s tenant_id source service am_alert r after (e, same, x) fresh)
                (subst (λ a. Tally s tenant_id source service start (done ++ a ∷ []) after) same
                  (Tally-extend s tenant_id source e t x)) in
            rw (ingest_alert-named service am_alert name r found) (
              rest.0,
              subst
                  (λ l.
                    Tally s tenant_id source service start l
                      (ingest_alerts s tenant_id source service payload after).1)
                  (append_assoc done (am_alert ∷ []) payload) rest.1,
            )
      ]

  -- How a payload is taken: it is rejected, or the answer and the tables tally.
  abbrev pub Taken : Db → List AlertmanagerAlert → Result IngestResult × Db → Type 0
  Taken db payload out =
      ((all_named payload ≡ false) × (out ≡ (raise alert_validation_error, db)))
      ⊎ ((all_named payload ≡ true)
          × ((result : IngestResult) × (out.0 ≡ return result)
              × Tally s tenant_id source (get_for_tenant tenant_id db) db payload (result, out.1)))

  no_result-Tally :
      (service : Option Service) (db : Db)
      → Tally s tenant_id source service db [] (no_result s tenant_id source, db)
  no_result-Tally service db = record {
    entries = [];
    payload = refl;
    alerts = append_nil db.alerts;
    alert_ids = refl;
    investigations = append_nil db.investigations;
    new = refl;
    linked = refl;
    jobs = append_nil db.jobs;
    right = tt;
  }

  Taken-of :
      (db : Db) (payload : List AlertmanagerAlert) (out : Result (Unit {0}) × (IngestResult × Db))
      → all_named payload ≡ true
      → out.0 ≡ return tt
      → Tally s tenant_id source (get_for_tenant tenant_id db) db payload out.1
      → Taken db payload (result_of s tenant_id source out)
  Taken-of db payload (return _, (result, after)) named ok t = inr (named, (result, refl, t))
  Taken-of db payload (raise e, _) named ok t = cc

  -- Where no stored alert has an identifier that is still to be handed out: a payload with an alert that
  -- has no name, or an empty one, is rejected whole, and the tables stay as they are. Any other payload
  -- is taken. One row is stored for each alert, in their order, with what came in and its fingerprint,
  -- and the answer has the ids of these rows; the alerts that were there stay as they were. If the
  -- tenant has a service, each alert is linked to an investigation: to a new one, pending, that it has
  -- triggered, or to a stored one of the tenant that has its fingerprint, is active and lies in the
  -- window. The answer lists the ids of both, exactly the new ones are added to the investigations, and
  -- the queue gets one job for each of these, in their order. Without a service none is investigated.
  pub ingest-Taken :
      (payload : List AlertmanagerAlert) (db : Db)
      → FreshAlerts db
      → Taken db payload (ingest s tenant_id source payload db)
  unfolding ingest
  ingest-Taken payload db fresh = elim (Bool-cases (all_named payload)) [
    | inl named ↦
        let service = get_for_tenant tenant_id db in
        let start : IngestResult × Db = (no_result s tenant_id source, db) in
        let out = ingest_alerts s tenant_id source service payload start in
        let (ok, t) =
          ingest_alerts-Tally service payload [] db start named fresh
            (no_result-Tally service db) in
        subst (Taken db payload)
          (ap
            (λ b.
              if b then result_of s tenant_id source out else (raise alert_validation_error, db))
            (sym named))
          (Taken-of db payload out named ok t)
    | inr unnamed ↦ inl (unnamed, rw unnamed)
  ]
