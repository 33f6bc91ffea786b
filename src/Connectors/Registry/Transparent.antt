-- ===== src/Connectors/Registry/Transparent.antt =====
-- The cache cannot be told from building each time, as long as every change of a tenant's
-- integrations is followed by an invalidation.
use nightswatch.Prelude.{
  ℕ, ◌≡◌, refl, sym, ap, ◌∙◌, Bool, true, false, not, Option, none, some, List, [], ◌∷◌, ◌==◌,
  ==_iff, and_true, if◌then◌else◌, ◌⊎◌, inl, inr,
}
use nightswatch.Action.{Result, return, raise}
use nightswatch.Repository.{filter}
use nightswatch.Integrations.{Store}
use nightswatch.Connectors.{ConnectorKind, prometheus, newrelic, Connector}
use nightswatch.Connectors.Registry.{
  Setup, Entry, ConnectorRegistry, same_kind, is_key, cached, build, get, of_cached, is_dropped,
  invalidate, close_all, keep_built,
}

same_kind-eq : (j k : ConnectorKind) → same_kind j k ≡ true → j ≡ k
same_kind-eq prometheus prometheus h = refl
same_kind-eq newrelic newrelic h = refl
same_kind-eq prometheus newrelic h = absurd (cc)
same_kind-eq newrelic prometheus h = absurd (cc)

module _ (setup : Setup) where
  -- What is cached is what would be built now.
  abbrev pub Coherent : Store → List Entry → Type 0
  Coherent store [] = Unit
  Coherent store (e ∷ es) =
      (build setup e.tenant_id e.kind store ≡ return e.connector) × Coherent store es

  picked :
      (b : Bool) (e : Entry) (rest : Option Connector) (c : Connector)
      → (if b then some e.connector else rest) ≡ some c
      → ((b ≡ true) × (e.connector ≡ c)) ⊎ (rest ≡ some c)
  picked true e rest c h = inl (refl, cc)
  picked false e rest c h = inr h

  cached-Coherent :
      (tenant_id : ℕ) (kind : ConnectorKind) (store : Store) (es : List Entry) (c : Connector)
      → Coherent store es
      → cached tenant_id kind es ≡ some c
      → build setup tenant_id kind store ≡ return c
  unfolding cached
  cached-Coherent tenant_id kind store [] c coherent h = absurd (cc)
  cached-Coherent tenant_id kind store (e ∷ es) c (built, coherent) h =
      elim (picked (is_key tenant_id kind e) e (cached tenant_id kind es) c h) [
        | inl (hit, same) ↦
            (let (tenant, kinds) =
                and_true (e.tenant_id == tenant_id) (same_kind e.kind kind) hit in
              let mine : e.tenant_id ≡ tenant_id = (==_iff e.tenant_id tenant_id).0 tenant in
              let alike : e.kind ≡ kind = same_kind-eq e.kind kind kinds in
              ap (λ t. build setup t kind store) (sym mine)
              ∙ ap (λ k. build setup e.tenant_id k store) (sym alike)
              ∙ built
              ∙ ap return same)
        | inr rest ↦ cached-Coherent tenant_id kind store es c coherent rest
      ]

  -- A call answers what building answers, and keeps the cache coherent.
  kept :
      (tenant_id : ℕ) (kind : ConnectorKind) (store : Store) (registry : ConnectorRegistry)
      (result : Result Connector)
      → Coherent store registry.cache
      → build setup tenant_id kind store ≡ result
      → Coherent store (keep_built setup tenant_id kind registry result).1.cache
        × ((keep_built setup tenant_id kind registry result).0 ≡ result)
  kept tenant_id kind store registry (raise e) coherent h = (coherent, refl)
  kept tenant_id kind store registry (return c) coherent h = ((h, coherent), refl)

  looked_up :
      (tenant_id : ℕ) (kind : ConnectorKind) (store : Store) (registry : ConnectorRegistry)
      (found : Option Connector)
      → Coherent store registry.cache
      → cached tenant_id kind registry.cache ≡ found
      → Coherent store (of_cached setup tenant_id kind store registry found).1.cache
        × ((of_cached setup tenant_id kind store registry found).0
            ≡ build setup tenant_id kind store)
  looked_up tenant_id kind store registry (some c) coherent h =
      (coherent, sym (cached-Coherent tenant_id kind store registry.cache c coherent h))
  looked_up tenant_id kind store registry none coherent h =
      kept tenant_id kind store registry (build setup tenant_id kind store) coherent refl

  get-Coherent :
      (tenant_id : ℕ) (kind : ConnectorKind) (store : Store) (registry : ConnectorRegistry)
      → Coherent store registry.cache
      → Coherent store (get setup tenant_id kind store registry).1.cache
        × ((get setup tenant_id kind store registry).0 ≡ build setup tenant_id kind store)
  unfolding get
  get-Coherent tenant_id kind store registry coherent =
      looked_up tenant_id kind store registry (cached tenant_id kind registry.cache) coherent refl

  -- Nothing changed for the keys that stay.
  abbrev pub Unchanged : ℕ → Option ConnectorKind → (before after : Store) → Type 0
  Unchanged tenant_id kind before after =
      (e : Entry)
      → is_dropped tenant_id kind e ≡ false
      → build setup e.tenant_id e.kind after ≡ build setup e.tenant_id e.kind before

  Coherent-kept :
      (b : Bool) (store : Store) (e : Entry) (es : List Entry)
      → (b ≡ false → build setup e.tenant_id e.kind store ≡ return e.connector)
      → Coherent store es
      → Coherent store (if not b then e ∷ es else es)
  Coherent-kept true store e es h rest = rest
  Coherent-kept false store e es h rest = (h refl, rest)

  Coherent-filter :
      (tenant_id : ℕ) (kind : Option ConnectorKind) (before after : Store) (es : List Entry)
      → Unchanged tenant_id kind before after
      → Coherent before es
      → Coherent after (filter (λ e. not (is_dropped tenant_id kind e)) es)
  Coherent-filter tenant_id kind before after [] same coherent = tt
  Coherent-filter tenant_id kind before after (e ∷ es) same (built, coherent) =
      Coherent-kept (is_dropped tenant_id kind e) after e
        (filter (λ e'. not (is_dropped tenant_id kind e')) es) (λ stays. same e stays ∙ built)
        (Coherent-filter tenant_id kind before after es same coherent)

  -- What may happen to the integrations and to a registry: a connector is asked for, a tenant's
  -- integrations are changed and invalidated, or the registry is closed.
  pub data Step : (before after : Store × ConnectorRegistry) → Type 0 where
    asked :
        {store : Store} {registry : ConnectorRegistry} (tenant_id : ℕ) (kind : ConnectorKind)
        → Step (store, registry) (store, (get setup tenant_id kind store registry).1)
    changed :
        {before after : Store} {registry : ConnectorRegistry} (tenant_id : ℕ)
        (kind : Option ConnectorKind)
        → Unchanged tenant_id kind before after
        → Step (before, registry) (after, invalidate tenant_id kind registry)
    shut :
        {store : Store} {registry : ConnectorRegistry}
        → Step (store, registry) (store, close_all registry)

  -- From a registry that has nothing yet.
  pub data Reach : Store × ConnectorRegistry → Type 0 where
    new : (store : Store) → Reach (store, record { cache = []; closed = [] })
    next : {s t : Store × ConnectorRegistry} → Reach s → Step s t → Reach t

  Step-Coherent :
      {s t : Store × ConnectorRegistry} → Step s t → Coherent s.0 s.1.cache → Coherent t.0 t.1.cache
  unfolding invalidate close_all
  Step-Coherent (asked {store} {registry} tenant_id kind) h =
      (get-Coherent tenant_id kind store registry h).0
  Step-Coherent (changed {before} {after} {registry} tenant_id kind same) h =
      Coherent-filter tenant_id kind before after registry.cache same h
  Step-Coherent shut h = tt

  Reach-Coherent : {s : Store × ConnectorRegistry} → Reach s → Coherent s.0 s.1.cache
  Reach-Coherent (new store) = tt
  Reach-Coherent (next r step) = Step-Coherent step (Reach-Coherent r)

  -- Whatever was asked for, changed with the invalidation that goes with it, and closed before: a
  -- registry answers what building the connector from the integrations of now answers, the
  -- exception included.
  pub get-build :
      (store : Store) (registry : ConnectorRegistry) (tenant_id : ℕ) (kind : ConnectorKind)
      → Reach (store, registry)
      → (get setup tenant_id kind store registry).0 ≡ build setup tenant_id kind store
  get-build store registry tenant_id kind r =
      (get-Coherent tenant_id kind store registry (Reach-Coherent r)).1
