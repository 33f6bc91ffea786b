-- ===== src/Alert/Dedupe.antt =====
-- Deduplication: while an investigation is active in the window, its fingerprint starts no other.
use nightswatch.Prelude.{
  ℕ, suc, ◌≤◌, ◌<◌, String, ◌≡◌, refl, ap, ◌∙◌, Bool, true, false, Option, none, some, List, [],
  ◌∷◌, ◌++◌, length, length-append, eq_iff, arith,
}
use mathlib.Core.Path.{subst}
use nightswatch.Database.{Investigation, Service, Db}
use nightswatch.Repository.{
  filter, first, insert_newest, newest_first, is_active, set_investigation,
  find_active_by_fingerprint, create_pending, create_alert,
}
use nightswatch.Alert.{
  AlertmanagerAlert, IngestResult, AlertService, window_start, fingerprint_of, enqueue, attach,
  investigate, ingest_named,
}

length-insert_newest :
    (i : Investigation) (is : List Investigation) → length (insert_newest i is) ≡ suc (length is)
unfolding insert_newest
length-insert_newest i [] = refl
length-insert_newest i (j ∷ is) = ground (arith, length-insert_newest i is)

length-newest_first : (is : List Investigation) → length (newest_first is) ≡ length is
unfolding newest_first
length-newest_first [] = refl
length-newest_first (i ∷ is) =
    length-insert_newest i (newest_first is) ∙ ap (λ n. suc n) (length-newest_first is)

-- A newest row exists where there is a row.
first-newest_first :
    (is : List Investigation)
    → 0 < length is
    → (i : Investigation) × (first (newest_first is) ≡ some i)
first-newest_first is h = pick (newest_first is) (omega (arith, h, length-newest_first is))
  where
    pick : (xs : List Investigation) → 0 < length xs → (i : Investigation) × (first xs ≡ some i)
    pick [] h = absurd (omega (arith, h))
    pick (x ∷ xs) h = (x, refl)

length-filter_last :
    (p : Investigation → Bool) (is : List Investigation) (i : Investigation)
    → p i ≡ true
    → 0 < length (filter p (is ++ i ∷ []))
length-filter_last p [] i h = ground (arith, h)
length-filter_last p (j ∷ is) i h = ground (arith, length-filter_last p is i h)

module _ (s : AlertService) (tenant_id : ℕ) (source : String) where
  -- A fingerprint is covered where an active investigation of the window has it.
  abbrev Covered : String → Db → Type 0
  Covered fp db =
      (i : Investigation) × (find_active_by_fingerprint tenant_id fp
          (window_start s tenant_id source) db
        ≡ some i)

  create_pending-Covered :
      (service_id : ℕ) (alert_id : Option ℕ) (fp : String) (db : Db)
      → window_start s tenant_id source ≤ s.database_now
      → Covered fp
          (create_pending tenant_id s.database_now service_id alert_id fp false false none db).1
  unfolding find_active_by_fingerprint create_pending is_active
  create_pending-Covered service_id alert_id fp db h = first-newest_first _ (
      length-filter_last (is_active tenant_id fp (window_start s tenant_id source))
        db.investigations _ (ground (arith, eq_iff fp fp, h)))

  Covered-same :
      (fp : String) (a b : Db) → b.investigations ≡ a.investigations → Covered fp a → Covered fp b
  unfolding find_active_by_fingerprint
  Covered-same fp a b e (i, found) = (i, rw e found)

  attach-Covered :
      (service : Service) (alert_id : ℕ) (fp : String) (found : Option Investigation)
      (r : IngestResult × Db)
      → window_start s tenant_id source ≤ s.database_now
      → find_active_by_fingerprint tenant_id fp (window_start s tenant_id source) r.1 ≡ found
      → Covered fp (attach s tenant_id source service alert_id fp found r).1
  unfolding attach set_investigation enqueue
  attach-Covered service alert_id fp (some existing) (result, db) h found =
      Covered-same fp db _ refl (existing, found)
  attach-Covered service alert_id fp none (result, db) h found =
      Covered-same fp
        (create_pending tenant_id s.database_now service.id (some alert_id) fp false false none
          db).1
        _ refl (create_pending-Covered service.id (some alert_id) fp db h)

  -- After an alert its fingerprint is covered, and where it is covered nothing is started.
  ingest_named-Covered :
      (service : Service) (am_alert : AlertmanagerAlert) (name : String) (r : IngestResult × Db)
      → window_start s tenant_id source ≤ s.database_now
      → Covered
          (fingerprint_of s tenant_id source name am_alert)
          (ingest_named s tenant_id source (some service) am_alert name r).1
  unfolding ingest_named investigate
  ingest_named-Covered service am_alert name (result, db) h = attach-Covered service _ _ _ _ h refl

  -- Nothing is started: no investigation and no job is added, and the answer has one more link.
  pub record Linked (before after : IngestResult × Db) : Type 0 where
    pub investigations : after.1.investigations ≡ before.1.investigations
    pub jobs : after.1.jobs ≡ before.1.jobs
    pub new_ids : after.0.new_investigation_ids ≡ before.0.new_investigation_ids
    pub linked_ids :
        length after.0.linked_investigation_ids ≡ suc (length before.0.linked_investigation_ids)

  ingest_named-Linked :
      (service : Service) (am_alert : AlertmanagerAlert) (name : String) (r : IngestResult × Db)
      → Covered (fingerprint_of s tenant_id source name am_alert) r.1
      → Linked r (ingest_named s tenant_id source (some service) am_alert name r)
  unfolding ingest_named investigate find_active_by_fingerprint create_alert attach
      set_investigation
  ingest_named-Linked service am_alert name (result, db) (existing, found) = rw found (record {
    investigations = refl;
    jobs = refl;
    new_ids = refl;
    linked_ids = omega (arith, length-append result.linked_investigation_ids (existing.id ∷ []));
  })

  -- Where the tenant has a service and the database's clock is not behind the start of the window, a
  -- second alert with the fingerprint of the one before starts nothing: the investigations and the
  -- queue stay as they are, and the answer has one more link and no new investigation.
  pub ingest_again-Linked :
      (service : Service) (first_alert second_alert : AlertmanagerAlert) (name name' : String)
      (r : IngestResult × Db)
      → window_start s tenant_id source ≤ s.database_now
      → fingerprint_of s tenant_id source name first_alert
        ≡ fingerprint_of s tenant_id source name' second_alert
      → Linked (ingest_named s tenant_id source (some service) first_alert name r) (
          ingest_named s tenant_id source
            (some service)
            second_alert
            name'
            (ingest_named s tenant_id source (some service) first_alert name r))
  ingest_again-Linked service first_alert second_alert name name' r h same =
      let once = ingest_named s tenant_id source (some service) first_alert name r in
      ingest_named-Linked service second_alert name' once
        (subst (λ fp. Covered fp once.1) same (ingest_named-Covered service first_alert name r h))
