-- ===== src/Services/Registration/Current.antt =====
-- A tenant has one service: the one that it registered first.
use nightswatch.Prelude.{
  ℕ, String, ◌≡◌, refl, ap, ◌∙◌, Bool, true, false, Option, none, some, List, [], ◌∷◌, ◌++◌, ◌==◌,
  ==_iff, if◌then◌else◌,
}
use nightswatch.Json.{Fields}
use nightswatch.Action.{Result, return, raise}
use nightswatch.Database.{Labels}
use nightswatch.Repository.{filter, first}
use nightswatch.Integrations as Integrations
use nightswatch.Connectors.Registry.{Setup, ConnectorRegistry}
use nightswatch.Services.{Service, Tables, get_for_tenant, insert_service, create}
use nightswatch.Services.Registration.{
  Backends, LabelSelectorValidation, ServiceRegistrationResult, World, validate_label_selector,
  build_slo_config_and_warnings, with_warnings, store_validated, register,
}

module _ (tenant_id : ℕ) where
  abbrev owned : List Service → Option Service
  owned services = first (filter (λ (s : Service). s.tenant_id == tenant_id) services)

  kept_first :
      (b : Bool) (s row : Service) (rest rest' : List Service)
      → first (if b then s ∷ rest else rest) ≡ none
      → (first rest ≡ none → first rest' ≡ some row)
      → first (if b then s ∷ rest' else rest') ≡ some row
  kept_first true s row rest rest' h ih = absurd (cc)
  kept_first false s row rest rest' h ih = ih h

  -- The first service of a tenant is found.
  owned-append :
      (services : List Service) (row : Service)
      → row.tenant_id ≡ tenant_id
      → owned services ≡ none
      → owned (services ++ row ∷ []) ≡ some row
  owned-append [] row mine h =
      ap (λ b. first (if b then row ∷ [] else [])) ((==_iff row.tenant_id tenant_id).1 mine)
  owned-append (s ∷ services) row mine h =
      kept_first (s.tenant_id == tenant_id) s row
        (filter (λ (x : Service). x.tenant_id == tenant_id) services)
        (filter (λ (x : Service). x.tenant_id == tenant_id) (services ++ row ∷ [])) h
        (owned-append services row mine)

  inserted :
      (found : Option Service) (row created : Service) (t : Tables)
      → row.tenant_id ≡ tenant_id
      → owned t.services ≡ found
      → (insert_service tenant_id found row t).0 ≡ return created
      → owned (insert_service tenant_id found row t).1.services ≡ some created
  inserted (some existing) row created t mine e h = absurd (cc)
  inserted none row created t mine e h =
      let same : row ≡ created = cc in owned-append t.services row mine e ∙ ap some same

  created-owned :
      (name : String) (selector : Labels) (ownership slo_config : Option Fields) (t : Tables)
      (row : Service)
      → (create tenant_id name selector ownership slo_config t).0 ≡ return row
      → get_for_tenant tenant_id (create tenant_id name selector ownership slo_config t).1
        ≡ some row
  unfolding create get_for_tenant
  created-owned name selector ownership slo_config t row h =
      inserted (owned t.services) _ row t refl refl h

  not_created :
      (found : Option Service) (existing row created : Service) (t : Tables)
      → found ≡ some existing
      → ¬ ((insert_service tenant_id found row t).0 ≡ return created)
  not_created (some s) existing row created t e h = cc
  not_created none existing row created t e h = cc

  created_once :
      (name : String) (selector : Labels) (ownership slo_config : Option Fields) (t : Tables)
      (existing row : Service)
      → get_for_tenant tenant_id t ≡ some existing
      → ¬ ((create tenant_id name selector ownership slo_config t).0 ≡ return row)
  unfolding create
  created_once name selector ownership slo_config t existing row e h =
      not_created (get_for_tenant tenant_id t) existing _ row t e h

  module _ (backends : Backends) (setup : Setup) (integrations : Integrations.Store) where
    warned :
        (warnings : List String) (registry : ConnectorRegistry) (q : Result Service × Tables)
        → ((row : Service) → q.0 ≡ return row → get_for_tenant tenant_id q.1 ≡ some row)
        → (result : ServiceRegistrationResult)
        → (with_warnings backends setup tenant_id integrations warnings registry q).0
          ≡ return result
        → get_for_tenant tenant_id
            (with_warnings backends setup tenant_id integrations warnings registry q).1.tables
          ≡ some result.service
    warned warnings registry (raise e, t) stored result h = absurd (cc)
    warned warnings registry (return row, t) stored result h =
        let same : row ≡ result.service = cc in stored row refl ∙ ap some same

    store_validated-owned :
        (name : String) (selector : Labels) (ownership : Option Fields) (t : Tables)
        (validated : Result LabelSelectorValidation × ConnectorRegistry)
        (result : ServiceRegistrationResult)
        → (store_validated backends setup tenant_id integrations name selector ownership t
            validated).0
          ≡ return result
        → get_for_tenant tenant_id
            (store_validated backends setup tenant_id integrations name selector ownership t
              validated).1.tables
          ≡ some result.service
    store_validated-owned name selector ownership t (raise e, registry) result h = absurd (cc)
    store_validated-owned name selector ownership t (return validation, registry) result h =
        let outcome = build_slo_config_and_warnings validation in
        warned outcome.1 registry (create tenant_id name selector ownership outcome.0 t)
          (created-owned name selector ownership outcome.0 t) result h

    not_warned :
        (warnings : List String) (registry : ConnectorRegistry) (q : Result Service × Tables)
        (result : ServiceRegistrationResult)
        → ((row : Service) → ¬ (q.0 ≡ return row))
        → ¬ (
            (with_warnings backends setup tenant_id integrations warnings registry q).0
            ≡ return result)
    not_warned warnings registry (raise e, t) result never h = absurd (cc)
    not_warned warnings registry (return row, t) result never h = never row refl

    not_stored :
        (name : String) (selector : Labels) (ownership : Option Fields) (t : Tables)
        (existing : Service) (validated : Result LabelSelectorValidation × ConnectorRegistry)
        (result : ServiceRegistrationResult)
        → get_for_tenant tenant_id t ≡ some existing
        → ¬ (
            (store_validated backends setup tenant_id integrations name selector ownership t
              validated).0
            ≡ return result)
    not_stored name selector ownership t existing (raise e, registry) result found h = absurd (cc)
    not_stored name selector ownership t existing (return validation, registry) result found h =
        let outcome = build_slo_config_and_warnings validation in
        not_warned outcome.1 registry (create tenant_id name selector ownership outcome.0 t) result
          (λ row. created_once name selector ownership outcome.0 t existing row found) h

    -- Where a registration returns, whatever the probe of the selector said, its service is the one of
    -- the tenant from then on, and a further registration of the tenant does not return.
    pub register-Current :
        (name : String) (selector : Labels) (ownership : Option Fields) (world : World)
        (result : ServiceRegistrationResult)
        → (register backends setup tenant_id integrations name selector ownership world).0
          ≡ return result
        → (get_for_tenant tenant_id
              (register backends setup tenant_id integrations name selector ownership
                world).1.tables
            ≡ some result.service)
          × ((again : String) (other : Labels) (owner : Option Fields)
                (second : ServiceRegistrationResult)
              → ¬ (
                  (register backends setup tenant_id integrations again other owner
                    (register backends setup tenant_id integrations name selector ownership
                      world).1).0
                  ≡ return second))
    unfolding register
    register-Current name selector ownership world result h =
        let stored =
          store_validated-owned name selector ownership world.tables
            (validate_label_selector backends setup tenant_id integrations selector world.registry)
            result h in
        (
          stored,
          λ again other owner second. not_stored again other owner _ result.service _ second stored,
        )
