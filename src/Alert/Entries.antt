-- ===== src/Alert/Entries.antt =====
-- What core/alert/service.py leaves of each alert of a payload.
use nightswatch.Prelude.{
  ℕ, ◌≤◌, ◌<◌, String, ◌≡◌, refl, sym, ap, ◌∙◌, true, inl, inr, Option, none, some, List, [], ◌∷◌,
  ◌++◌, map, lookup,
}
use mathlib.Core.Path.{subst}
use nightswatch.Database.{Status, Alert, Investigation, Service, Db}
use nightswatch.Repository.{in_statuses, active_dedupe_statuses}
use nightswatch.Repository.Chosen.{Among}
use nightswatch.Alert.{AlertmanagerAlert, IngestResult, AlertService, window_start, fingerprint_of}

-- What became of an alert: it opened an investigation, it joined one, or there is no service.
pub data Outcome : Type 0 where
  opened joined : Investigation → Outcome
  unattended : Outcome

pub record Entry : Type 0 where
  pub incoming : AlertmanagerAlert
  pub row : Alert
  pub outcome : Outcome

abbrev pub opened_of : Outcome → List Investigation
opened_of (opened i) = i ∷ []
opened_of _ = []

abbrev pub joined_of : Outcome → List Investigation
joined_of (joined i) = i ∷ []
joined_of _ = []

abbrev pub concat_map : {A B : Type 0} → (A → List B) → List A → List B
concat_map f [] = []
concat_map f (x ∷ xs) = f x ++ concat_map f xs

abbrev pub ids_of : List Investigation → List ℕ
ids_of is = map (λ (i : Investigation). i.id) is

-- The rows of the investigations that the payload opened, and that it joined, in its order.
abbrev pub all_opened : List Entry → List Investigation
all_opened entries = concat_map (λ (e : Entry). opened_of e.outcome) entries

abbrev pub all_joined : List Entry → List Investigation
all_joined entries = concat_map (λ (e : Entry). joined_of e.outcome) entries

pub append_assoc {ℓ} : {A : Type ℓ} (xs ys zs : List A) → (xs ++ ys) ++ zs ≡ xs ++ (ys ++ zs)
append_assoc [] ys zs = refl
append_assoc (x ∷ xs) ys zs = ap (λ l. x ∷ l) (append_assoc xs ys zs)

pub append_nil {ℓ} : {A : Type ℓ} (xs : List A) → xs ≡ xs ++ []
append_nil [] = refl
append_nil (x ∷ xs) = ap (λ l. x ∷ l) (append_nil xs)

map-append : {A B : Type 0} (f : A → B) (xs ys : List A) → map f (xs ++ ys) ≡ map f xs ++ map f ys
map-append f [] ys = refl
map-append f (x ∷ xs) ys = ap (λ l. f x ∷ l) (map-append f xs ys)

concat_map-snoc :
    {A B : Type 0} (f : A → List B) (xs : List A) (x : A)
    → concat_map f (xs ++ x ∷ []) ≡ concat_map f xs ++ f x
concat_map-snoc f [] x = sym (append_nil (f x))
concat_map-snoc f (y ∷ xs) x =
    ap (λ l. f y ++ l) (concat_map-snoc f xs x) ∙ sym (append_assoc (f y) (concat_map f xs) (f x))

Among-append : (i : Investigation) (is js : List Investigation) → Among i is → Among i (is ++ js)
Among-append i [] js h = elim h [ ]
Among-append i (j ∷ is) js (inl e) = inl e
Among-append i (j ∷ is) js (inr h) = inr (Among-append i is js h)

module _ (s : AlertService) (tenant_id : ℕ) (source : String) where
  -- The stored row has what came in, the fingerprint of it, and the tenant.
  pub record Recorded (incoming : AlertmanagerAlert) (row : Alert) : Type 0 where
    pub tenant : row.tenant_id ≡ tenant_id
    pub origin : row.source ≡ source
    pub received_at : row.received_at ≡ s.now
    pub name : lookup "alertname" incoming.labels ≡ some row.alert_name
    pub severity : row.severity ≡ lookup "severity" incoming.labels
    pub status : row.status ≡ incoming.status
    pub started_at : row.started_at ≡ incoming.starts_at
    pub ended_at : row.ended_at ≡ incoming.ends_at
    pub labels : row.labels ≡ incoming.labels
    pub annotations : row.annotations ≡ incoming.annotations
    pub fingerprint : row.fingerprint ≡ fingerprint_of s tenant_id source row.alert_name incoming

  -- A new investigation, of this service, for this alert.
  pub record Opened (service : Service) (row : Alert) (i : Investigation) : Type 0 where
    pub linked : row.investigation_id ≡ some i.id
    pub tenant : i.tenant_id ≡ tenant_id
    pub owner : i.service_id ≡ service.id
    pub trigger : i.triggering_alert_id ≡ some row.id
    pub fingerprint : i.fingerprint ≡ row.fingerprint
    pub pending : i.status ≡ Status.pending

  -- A stored investigation of the same fingerprint that is active and not too old.
  pub record Joined (investigations : List Investigation) (row : Alert) (i : Investigation)
      : Type 0 where
    pub linked : row.investigation_id ≡ some i.id
    pub stored : Among i investigations
    pub tenant : i.tenant_id ≡ tenant_id
    pub fingerprint : i.fingerprint ≡ row.fingerprint
    pub active : in_statuses i.status active_dedupe_statuses ≡ true
    pub recent : window_start s tenant_id source ≤ i.created_at

  -- Without a service no alert is investigated; with one every alert is.
  abbrev pub Attended : Option Service → List Investigation → Alert → Outcome → Type 0
  Attended none investigations row unattended = row.investigation_id ≡ none
  Attended (some service) investigations row (opened i) = Opened service row i
  Attended (some service) investigations row (joined i) = Joined investigations row i
  Attended none investigations row _ = ⊥
  Attended (some service) investigations row _ = ⊥

  abbrev pub AllRight : Option Service → List Investigation → List Entry → Type 0
  AllRight service investigations [] = Unit
  AllRight service investigations (e ∷ entries) =
      Recorded e.incoming e.row
      × Attended service investigations e.row e.outcome
      × AllRight service investigations entries

  -- After the alerts `done`: an entry for each, in their order. The tables have grown by the rows of the
  -- alerts and of the investigations that they opened, the answer has the ids of these, and the queue
  -- has one job more for each new investigation.
  pub record Tally (service : Option Service) (start : Db) (done : List AlertmanagerAlert)
      (r : IngestResult × Db) : Type 0 where
    pub entries : List Entry
    pub payload : map (λ (e : Entry). e.incoming) entries ≡ done
    pub alerts : r.1.alerts ≡ start.alerts ++ map (λ (e : Entry). e.row) entries
    pub alert_ids : r.0.alert_ids ≡ map (λ (e : Entry). e.row.id) entries
    pub investigations : r.1.investigations ≡ start.investigations ++ all_opened entries
    pub new : r.0.new_investigation_ids ≡ ids_of (all_opened entries)
    pub linked : r.0.linked_investigation_ids ≡ ids_of (all_joined entries)
    pub jobs : r.1.jobs ≡ start.jobs ++ ids_of (all_opened entries)
    pub right : AllRight service r.1.investigations entries

  -- What one alert adds.
  pub record Extends (service : Option Service) (e : Entry) (before after : IngestResult × Db)
      : Type 0 where
    pub alerts : after.1.alerts ≡ before.1.alerts ++ e.row ∷ []
    pub alert_ids : after.0.alert_ids ≡ before.0.alert_ids ++ e.row.id ∷ []
    pub investigations : after.1.investigations ≡ before.1.investigations ++ opened_of e.outcome
    pub new :
        after.0.new_investigation_ids
        ≡ before.0.new_investigation_ids ++ ids_of (opened_of e.outcome)
    pub linked :
        after.0.linked_investigation_ids
        ≡ before.0.linked_investigation_ids ++ ids_of (joined_of e.outcome)
    pub jobs : after.1.jobs ≡ before.1.jobs ++ ids_of (opened_of e.outcome)
    pub recorded : Recorded e.incoming e.row
    pub attended : Attended service after.1.investigations e.row e.outcome
    pub fresh : e.row.id < after.1.next_id
    pub grows : before.1.next_id ≤ after.1.next_id

  Attended-append :
      (service : Option Service) (is js : List Investigation) (row : Alert) (outcome : Outcome)
      → Attended service is row outcome
      → Attended service (is ++ js) row outcome
  Attended-append none is js row (opened i) h = h
  Attended-append none is js row (joined i) h = h
  Attended-append none is js row unattended h = h
  Attended-append (some service) is js row (opened i) h = h
  Attended-append (some service) is js row (joined i) h = record {
    linked = h.linked;
    stored = Among-append i is js h.stored;
    tenant = h.tenant;
    fingerprint = h.fingerprint;
    active = h.active;
    recent = h.recent;
  }
  Attended-append (some service) is js row unattended h = h

  AllRight-snoc :
      (service : Option Service) (is js : List Investigation) (entries : List Entry) (e : Entry)
      → AllRight service is entries
      → Recorded e.incoming e.row
      → Attended service (is ++ js) e.row e.outcome
      → AllRight service (is ++ js) (entries ++ e ∷ [])
  AllRight-snoc service is js [] e all recorded attended = (recorded, attended, tt)
  AllRight-snoc service is js (f ∷ entries) e (r, a, all) recorded attended = (
    r,
    Attended-append service is js f.row f.outcome a,
    AllRight-snoc service is js entries e all recorded attended,
  )

  grown :
      {A B : Type 0} (start : List B) (f : A → List B) (entries : List A) (e : A)
      {before after : List B}
      → before ≡ start ++ concat_map f entries
      → after ≡ before ++ f e
      → after ≡ start ++ concat_map f (entries ++ e ∷ [])
  grown start f entries e b a =
      a
      ∙ ap (λ l. l ++ f e) b
      ∙ append_assoc start (concat_map f entries) (f e)
      ∙ ap (λ l. start ++ l) (sym (concat_map-snoc f entries e))

  grown_ids :
      (start : List ℕ) (f : Entry → List Investigation) (entries : List Entry) (e : Entry)
      {before after : List ℕ}
      → before ≡ start ++ ids_of (concat_map f entries)
      → after ≡ before ++ ids_of (f e)
      → after ≡ start ++ ids_of (concat_map f (entries ++ e ∷ []))
  grown_ids start f entries e b a =
      a
      ∙ ap (λ l. l ++ ids_of (f e)) b
      ∙ append_assoc start (ids_of (concat_map f entries)) (ids_of (f e))
      ∙ ap (λ l. start ++ l)
          (sym (map-append (λ (i : Investigation). i.id) (concat_map f entries) (f e))
            ∙ ap ids_of (sym (concat_map-snoc f entries e)))

  pub Tally-extend :
      {service : Option Service} {start : Db} {done : List AlertmanagerAlert} (e : Entry)
      {before after : IngestResult × Db}
      → Tally service start done before
      → Extends service e before after
      → Tally service start (done ++ e.incoming ∷ []) after
  Tally-extend {service} {start} {done} e {before} {after} t x = record {
    entries = t.entries ++ e ∷ [];
    payload =
        map-append (λ (f : Entry). f.incoming) t.entries (e ∷ [])
        ∙ ap (λ l. l ++ e.incoming ∷ []) t.payload;
    alerts =
        x.alerts
        ∙ ap (λ l. l ++ e.row ∷ []) t.alerts
        ∙ append_assoc start.alerts (map (λ (f : Entry). f.row) t.entries) (e.row ∷ [])
        ∙ ap (λ l. start.alerts ++ l) (sym (map-append (λ (f : Entry). f.row) t.entries (e ∷ [])));
    alert_ids =
        x.alert_ids
        ∙ ap (λ l. l ++ e.row.id ∷ []) t.alert_ids
        ∙ sym (map-append (λ (f : Entry). f.row.id) t.entries (e ∷ []));
    investigations =
        grown start.investigations (λ (f : Entry). opened_of f.outcome) t.entries e t.investigations
          x.investigations;
    new = grown_ids [] (λ (f : Entry). opened_of f.outcome) t.entries e t.new x.new;
    linked = grown_ids [] (λ (f : Entry). joined_of f.outcome) t.entries e t.linked x.linked;
    jobs = grown_ids start.jobs (λ (f : Entry). opened_of f.outcome) t.entries e t.jobs x.jobs;
    right =
        subst (λ is. AllRight service is (t.entries ++ e ∷ [])) (sym x.investigations)
          (AllRight-snoc service before.1.investigations (opened_of e.outcome) t.entries e t.right
            x.recorded
            (subst (λ is. Attended service is e.row e.outcome) x.investigations x.attended));
  }
