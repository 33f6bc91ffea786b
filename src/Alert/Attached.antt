-- ===== src/Alert/Attached.antt =====
-- core/alert/service.py: what one alert adds to the tables and to the answer.
use nightswatch.Prelude.{
  ℕ, suc, ◌≤◌, ◌<◌, String, ◌≡◌, refl, sym, ap, ◌∙◌, false, and_true, Bool-cases, inl, inr, Option,
  none, some, List, [], ◌∷◌, ◌++◌, lookup, leb→le, ◌==◌, ==_iff, str_eq, eq_iff, arith,
}
use mathlib.Core.Path.{subst}
use nightswatch.Database.{Alert, Investigation, Service, Db}
use nightswatch.Repository.{
  first, in_statuses, active_dedupe_statuses, is_active, update_alert, set_investigation,
  find_active_by_fingerprint, create_pending, create_alert,
}
use nightswatch.Repository.Chosen.{Among, Among-filter, Among-newest_first}
use nightswatch.Alert.{
  AlertmanagerAlert, IngestResult, AlertService, enqueue, attach, investigate, ingest_named,
  window_start, fingerprint_of,
}
use nightswatch.Alert.Entries.{Entry, opened, joined, unattended, Joined, Extends, append_nil}

-- No alert has an identifier that is still to be handed out.
abbrev pub AlertsBelow : ℕ → List Alert → Type 0
AlertsBelow n [] = Unit
AlertsBelow n (a ∷ alerts) = (a.id < n) × AlertsBelow n alerts

abbrev pub FreshAlerts : Db → Type 0
FreshAlerts db = AlertsBelow db.next_id db.alerts

AlertsBelow-snoc :
    (n m : ℕ) (alerts : List Alert) (a : Alert)
    → n ≤ m
    → a.id < m
    → AlertsBelow n alerts
    → AlertsBelow m (alerts ++ a ∷ [])
AlertsBelow-snoc n m [] a le lt below = (lt, tt)
AlertsBelow-snoc n m (b ∷ alerts) a le lt (b_lt, below) =
    (omega arith, AlertsBelow-snoc n m alerts a le lt below)

-- The update reaches the alert that was stored last, and no other.
update_alert-last :
    (n : ℕ) (f : Alert → Alert) (alerts : List Alert) (a : Alert)
    → AlertsBelow n alerts
    → a.id ≡ n
    → update_alert n f (alerts ++ a ∷ []) ≡ alerts ++ f a ∷ []
unfolding update_alert
update_alert-last n f [] a below e = rw ((==_iff a.id n).1 e) refl
update_alert-last n f (b ∷ alerts) a (lt, below) e = elim (Bool-cases (b.id == n)) [
  | inl same ↦ absurd (let eq = (==_iff b.id n).0 same in omega arith)
  | inr other ↦ rw other (ap (λ l. b ∷ l) (update_alert-last n f alerts a below e))
]

first-Among : (is : List Investigation) (i : Investigation) → first is ≡ some i → Among i is
first-Among [] i e = absurd (cc)
first-Among (j ∷ is) i e = inl (cc)

module _ (s : AlertService) (tenant_id : ℕ) (source : String) where
  -- What was found is a stored investigation that is active.
  found-Joined :
      (fp : String) (db : Db) (row : Alert) (i : Investigation)
      → find_active_by_fingerprint tenant_id fp (window_start s tenant_id source) db ≡ some i
      → row.investigation_id ≡ some i.id
      → row.fingerprint ≡ fp
      → Joined s tenant_id source db.investigations row i
  unfolding find_active_by_fingerprint is_active
  found-Joined fp db row i found linked same =
      let since = window_start s tenant_id source in
      let (active, stored) =
        Among-filter (is_active tenant_id fp since) db.investigations i
          (Among-newest_first _ i (first-Among _ i found)) in
      let and1 = and_true (i.tenant_id == tenant_id) _ active in
      let and2 = and_true (str_eq i.fingerprint fp) _ and1.1 in
      let and3 = and_true (in_statuses i.status active_dedupe_statuses) _ and2.1 in
      record {
        linked = linked;
        stored = stored;
        tenant = (==_iff i.tenant_id tenant_id).0 and1.0;
        fingerprint = (eq_iff i.fingerprint fp).0 and2.0 ∙ sym same;
        active = and3.0;
        recent = leb→le since i.created_at and3.1;
      }

  -- One alert is stored, and was linked to no investigation so far.
  abbrev stored_row : AlertmanagerAlert → String → Db → Alert × Db
  stored_row am_alert name db =
      create_alert tenant_id source s.now name (lookup "severity" am_alert.labels) am_alert.status
        am_alert.starts_at am_alert.ends_at am_alert.labels am_alert.annotations
        (fingerprint_of s tenant_id source name am_alert) db

  abbrev pub Step : Option Service → AlertmanagerAlert → (before after : IngestResult × Db) → Type 0
  Step service am_alert before after =
      (e : Entry) × (e.incoming ≡ am_alert) × Extends s tenant_id source service e before after

  abbrev with_investigation : ℕ → Alert → Alert
  with_investigation id a = record a { investigation_id = some id }

  attach-Step :
      (service : Service) (am_alert : AlertmanagerAlert) (name : String)
      (found : Option Investigation) (result : IngestResult) (db : Db)
      → lookup "alertname" am_alert.labels ≡ some name
      → FreshAlerts db
      → find_active_by_fingerprint tenant_id
          (fingerprint_of s tenant_id source name am_alert)
          (window_start s tenant_id source)
          (stored_row am_alert name db).1
        ≡ found
      → Step
          (some service)
          am_alert
          (result, db)
          (attach s tenant_id source service
            (stored_row am_alert name db).0.id
            (fingerprint_of s tenant_id source name am_alert)
            found
            (
              record result {
                alert_ids = result.alert_ids ++ (stored_row am_alert name db).0.id ∷ [];
              },
              (stored_row am_alert name db).1,
            ))
  unfolding attach set_investigation create_pending create_alert enqueue
  attach-Step service am_alert name (some i) result db named fresh found =
      let row = with_investigation i.id (stored_row am_alert name db).0 in
      (
        record { incoming = am_alert; row = row; outcome = joined i },
        refl,
        record {
          alerts = update_alert-last db.next_id (with_investigation i.id) db.alerts _ fresh refl;
          alert_ids = refl;
          investigations = append_nil db.investigations;
          new = append_nil result.new_investigation_ids;
          linked = refl;
          jobs = append_nil db.jobs;
          recorded = record {
            tenant = refl;
            origin = refl;
            received_at = refl;
            name = named;
            severity = refl;
            status = refl;
            started_at = refl;
            ended_at = refl;
            labels = refl;
            annotations = refl;
            fingerprint = refl;
          };
          attended =
              found-Joined (fingerprint_of s tenant_id source name am_alert)
                (stored_row am_alert name db).1 row i found refl refl;
          fresh = omega arith;
          grows = omega arith;
        },
      )
  attach-Step service am_alert name none result db named fresh found =
      let row = with_investigation (suc db.next_id) (stored_row am_alert name db).0 in
      (
        record {
          incoming = am_alert;
          row = row;
          outcome =
              opened
                (create_pending tenant_id s.database_now service.id
                  (some (stored_row am_alert name db).0.id)
                  (fingerprint_of s tenant_id source name am_alert) false false none
                  (stored_row am_alert name db).1).0;
        },
        refl,
        record {
          alerts =
              update_alert-last db.next_id (with_investigation (suc db.next_id)) db.alerts _ fresh
                refl;
          alert_ids = refl;
          investigations = refl;
          new = refl;
          linked = append_nil result.linked_investigation_ids;
          jobs = refl;
          recorded = record {
            tenant = refl;
            origin = refl;
            received_at = refl;
            name = named;
            severity = refl;
            status = refl;
            started_at = refl;
            ended_at = refl;
            labels = refl;
            annotations = refl;
            fingerprint = refl;
          };
          attended = record {
            linked = refl;
            tenant = refl;
            owner = refl;
            trigger = refl;
            fingerprint = refl;
            pending = refl;
          };
          fresh = omega arith;
          grows = omega arith;
        },
      )

  pub ingest_named-Step :
      (service : Option Service) (am_alert : AlertmanagerAlert) (name : String)
      (result : IngestResult) (db : Db)
      → lookup "alertname" am_alert.labels ≡ some name
      → FreshAlerts db
      → Step service am_alert
          (result, db)
          (ingest_named s tenant_id source service am_alert name (result, db))
  unfolding ingest_named investigate create_alert
  ingest_named-Step none am_alert name result db named fresh = (
    record { incoming = am_alert; row = (stored_row am_alert name db).0; outcome = unattended },
    refl,
    record {
      alerts = refl;
      alert_ids = refl;
      investigations = append_nil db.investigations;
      new = append_nil result.new_investigation_ids;
      linked = append_nil result.linked_investigation_ids;
      jobs = append_nil db.jobs;
      recorded = record {
        tenant = refl;
        origin = refl;
        received_at = refl;
        name = named;
        severity = refl;
        status = refl;
        started_at = refl;
        ended_at = refl;
        labels = refl;
        annotations = refl;
        fingerprint = refl;
      };
      attended = refl;
      fresh = omega arith;
      grows = omega arith;
    },
  )
  ingest_named-Step (some service) am_alert name result db named fresh =
      attach-Step service am_alert name
        (find_active_by_fingerprint tenant_id (fingerprint_of s tenant_id source name am_alert)
          (window_start s tenant_id source) (stored_row am_alert name db).1)
        result db named fresh refl

  pub FreshAlerts-Step :
      (service : Option Service) (am_alert : AlertmanagerAlert) (before after : IngestResult × Db)
      → Step service am_alert before after
      → FreshAlerts before.1
      → FreshAlerts after.1
  FreshAlerts-Step service am_alert before after (e, same, x) fresh =
      subst (AlertsBelow after.1.next_id) (sym x.alerts) (
        AlertsBelow-snoc before.1.next_id after.1.next_id before.1.alerts e.row x.grows x.fresh
          fresh)
