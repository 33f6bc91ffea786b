-- ===== src/Triage/Sound.antt =====
-- A known issue points at an investigation that is there, is another one and has concluded.
use nightswatch.Prelude.{
  ℕ, ◌-◌, ◌≤◌, ◌<◌, leb→le, String, ◌≡◌, ◌≢◌, refl, sym, Bool, true, false, not, ◌⊎◌, inl, inr,
  Option, none, some, List, [], ◌∷◌, ◌==◌, ==_iff, leb, str_eq, eq_iff, and_true, if◌then◌else◌,
  arith,
}
use mathlib.Core.Path.{subst}
use nightswatch.Context.{Classification, noise, known_issue, novel, TriageResult}
use nightswatch.Database.{Status, Investigation, Db}
use nightswatch.Repository.{
  filter, in_statuses, is_prior, find_by_fingerprint, count_by_fingerprint,
}
use nightswatch.Repository.Chosen.{
  Among, Among-filter, Among-newest_first, NoneOf, none_of, nothing_newest,
}
use nightswatch.Triage.{
  TriageStage, resolved_statuses, of_prior, classify, known_or_novel, noise_result,
}

either :
    (P : TriageResult → Type 0) (b : Bool) (x y : TriageResult)
    → (b ≡ true → P x)
    → (b ≡ false → P y)
    → P (if b then x else y)
either P true x y f g = f refl
either P false x y f g = g refl

chosen :
    (P : TriageResult → Type 0) (a b : Bool) (x y : TriageResult)
    → (a ≡ true → b ≡ true → P x)
    → ((a ≡ false) ⊎ (b ≡ false) → P y)
    → P (if a then if b then x else y else y)
chosen P true true x y f g = f refl refl
chosen P true false x y f g = g (inr refl)
chosen P false b x y f g = g (inl refl)

module _ (stage : TriageStage) (tenant_id : ℕ) where
  -- A row that a known issue may lean on.
  pub record Prior (now investigation_id : ℕ) (fingerprint : String) (db : Db) (i : Investigation)
      : Type 0 where
    pub stored : Among i db.investigations
    pub tenant : i.tenant_id ≡ tenant_id
    pub same_fingerprint : i.fingerprint ≡ fingerprint
    pub other : i.id ≢ investigation_id
    pub recent : now - stage.known_issue_window ≤ i.created_at
    pub resolved : (i.status ≡ Status.succeeded) ⊎ (i.status ≡ Status.partial)

  resolved_of :
      (status : Status)
      → in_statuses status resolved_statuses ≡ true
      → (status ≡ Status.succeeded) ⊎ (status ≡ Status.partial)
  resolved_of status h = ground arith

  Prior-of :
      (now investigation_id : ℕ) (fingerprint : String) (db : Db) (i : Investigation)
      → is_prior tenant_id fingerprint
          (now - stage.known_issue_window)
          investigation_id
          resolved_statuses
          i
        ≡ true
      → Among i db.investigations
      → Prior now investigation_id fingerprint db i
  unfolding is_prior
  Prior-of now investigation_id fingerprint db i h stored =
      let and1 = and_true (i.tenant_id == tenant_id) _ h in
      let and2 = and_true (str_eq i.fingerprint fingerprint) _ and1.1 in
      let and3 = and_true (leb (now - stage.known_issue_window) i.created_at) _ and2.1 in
      let and4 = and_true (not (i.id == investigation_id)) _ and3.1 in
      record {
        stored = stored;
        tenant = (==_iff i.tenant_id tenant_id).0 and1.0;
        same_fingerprint = (eq_iff i.fingerprint fingerprint).0 and2.0;
        other = ground (arith, and4.0);
        recent = leb→le (now - stage.known_issue_window) i.created_at and3.0;
        resolved = resolved_of i.status and4.1;
      }

  is_prior_of :
      (now investigation_id : ℕ) (fingerprint : String) (db : Db) (i : Investigation)
      → Prior now investigation_id fingerprint db i
      → is_prior tenant_id fingerprint
          (now - stage.known_issue_window)
          investigation_id
          resolved_statuses
          i
        ≡ true
  unfolding is_prior
  is_prior_of now investigation_id fingerprint db i p = ground (
    arith,
    p.tenant,
    p.other,
    p.recent,
    p.resolved,
    p.same_fingerprint,
    eq_iff i.fingerprint fingerprint,
  )

  -- Where alerts can be read, there are fewer firings than the threshold.
  abbrev pub Quiet : (now : ℕ) (fingerprint : String) → Db → Type 0
  Quiet now fingerprint db =
      (stage.has_alert_repo ≡ false)
      ⊎ (count_by_fingerprint tenant_id fingerprint (now - stage.noise_window) db
          < stage.noise_threshold)

  -- The grounds for each verdict.
  abbrev pub Grounds :
      (now investigation_id : ℕ) (fingerprint : String) (db : Db)
      → Classification
      → Option ℕ
      → Type 0
  Grounds now investigation_id fingerprint db noise related =
      (stage.has_alert_repo ≡ true)
      × (stage.noise_threshold
          ≤ count_by_fingerprint tenant_id fingerprint (now - stage.noise_window) db)
      × (related ≡ none)
  Grounds now investigation_id fingerprint db known_issue related =
      Quiet now fingerprint db
      × ((i : Investigation) × (related ≡ some i.id) × Prior now investigation_id fingerprint db i)
  Grounds now investigation_id fingerprint db novel related =
      Quiet now fingerprint db
      × ((stage.has_investigation_repo ≡ false)
          ⊎ NoneOf (Prior now investigation_id fingerprint db) db.investigations)
      × (related ≡ none)

  known_or_novel-Grounds :
      (now investigation_id : ℕ) (fingerprint : String) (db : Db) (found : List Investigation)
      → Quiet now fingerprint db
      → find_by_fingerprint tenant_id fingerprint
          (now - stage.known_issue_window)
          investigation_id
          resolved_statuses
          db
        ≡ found
      → Grounds now investigation_id fingerprint db
          (of_prior stage tenant_id found).classification
          (of_prior stage tenant_id found).related_investigation_id
  unfolding find_by_fingerprint
  known_or_novel-Grounds now investigation_id fingerprint db [] quiet e = (
    quiet,
    inr (
        none_of
          (is_prior tenant_id fingerprint (now - stage.known_issue_window) investigation_id
            resolved_statuses)
          (Prior now investigation_id fingerprint db) db.investigations
          (is_prior_of now investigation_id fingerprint db) (nothing_newest _ e)),
    refl,
  )
  known_or_novel-Grounds now investigation_id fingerprint db (prior ∷ others) quiet e =
      let p =
        is_prior tenant_id fingerprint (now - stage.known_issue_window) investigation_id
          resolved_statuses in
      let among =
        Among-newest_first (filter p db.investigations) prior
          (subst (Among prior) (sym e) (inl refl)) in
      let (holds, stored) = Among-filter p db.investigations prior among in
      (quiet, (prior, refl, Prior-of now investigation_id fingerprint db prior holds stored))

  abbrev Judged :
      (now investigation_id : ℕ) (fingerprint : String) (db : Db) → TriageResult → Type 0
  Judged now investigation_id fingerprint db result =
      Grounds now investigation_id fingerprint db result.classification
        result.related_investigation_id

  known_or_novel-Judged :
      (now investigation_id : ℕ) (fingerprint : String) (db : Db)
      → Quiet now fingerprint db
      → Judged now investigation_id fingerprint db
          (known_or_novel stage tenant_id now investigation_id fingerprint db)
  known_or_novel-Judged now investigation_id fingerprint db quiet =
      either (Judged now investigation_id fingerprint db) stage.has_investigation_repo _ _
        (λ can. known_or_novel-Grounds now investigation_id fingerprint db _ quiet refl)
        (λ cannot. (quiet, inl cannot, refl))

  -- A verdict on an alert with a fingerprint has its grounds. Noise: at least the threshold of
  -- firings in the window. Known issue: not noise, and the related investigation is stored, is
  -- another one of this tenant with this fingerprint, is in the window and has concluded. Novel:
  -- neither noise nor, where investigations can be read, is there such an investigation.
  pub classify-Grounds :
      (now investigation_id : ℕ) (fingerprint : String) (db : Db)
      → Grounds now investigation_id fingerprint db
          (classify stage tenant_id now investigation_id (some fingerprint) db).classification
          (classify stage tenant_id now investigation_id
            (some fingerprint)
            db).related_investigation_id
  unfolding classify
  classify-Grounds now investigation_id fingerprint db =
      let flaps = count_by_fingerprint tenant_id fingerprint (now - stage.noise_window) db in
      chosen (Judged now investigation_id fingerprint db) stage.has_alert_repo
        (leb stage.noise_threshold flaps) (noise_result stage tenant_id flaps)
        (known_or_novel stage tenant_id now investigation_id fingerprint db)
        (λ can enough. (can, leb→le stage.noise_threshold flaps enough, refl))
        (λ few.
          known_or_novel-Judged now investigation_id fingerprint db
            (elim few [ inl cannot ↦ inl cannot | inr below ↦ inr (ground (arith, below)) ]))
