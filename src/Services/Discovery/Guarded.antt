-- ===== src/Services/Discovery/Guarded.antt =====
-- What a refresh may do to the tables, however it ends.
use nightswatch.Prelude.{
  ◌≡◌, ◌⊎◌, inl, inr, refl, sym, Bool, true, false, not, Option, none, some, List, ◌++◌, ◌≢◌, ◌&&◌,
  ◌==◌, Bool-cases, [], ◌∷◌, map, ap, length, ℕ, if◌then◌else◌,
}
use mathlib.Core.Path.{subst}
use nightswatch.Action.{Exception, Result, return, raise, Action}
use nightswatch.Repository.{filter}
use nightswatch.Integrations as Integrations
use nightswatch.Connectors.{Connector, metrics_connector_kinds}
use nightswatch.Connectors.Registry.{Setup}
use nightswatch.Services.{
  Service, DiscoveredMetric, DiscoveredDependency, MetricCatalogEntry, Tables,
}
use nightswatch.Services.Edges.{are_unique, upsert_edges, upsert_discovered, list_for_service}
use nightswatch.Services.Edges.Kept.{Refreshed, Refreshed-refl, upsert_discovered-Refreshed}
use nightswatch.Services.Catalog.{are_distinct, catalog_rows, replace_for_service}
use nightswatch.Services.Registration.{
  World, is_integration_error, is_connector_error, find_connector,
}
use nightswatch.Services.Discovery.{
  Topology, Discoverers, ok, RefreshResult, directed, caught, counted, with_connector, refresh_with,
  store_catalog, refresh_catalog, store_topology, refresh_topology,
}

-- The refresh says `ok`, or the tables are as they were.
abbrev pub OkOr : Tables → Result RefreshResult × Tables → Type 0
OkOr t q = ((result : RefreshResult) × (q.0 ≡ return result) × (result.status ≡ ok)) ⊎ (q.1 ≡ t)

module _ (discoverers : Discoverers) (setup : Setup) (tenant_id : ℕ)
    (integrations : Integrations.Store) (now : ℕ) where
  -- What holds of the tables as they were, whatever the result, and of each discovery.
  module _ (P : Result RefreshResult × Tables → Type 0) (t : Tables)
      (untouched : (r : Result RefreshResult) → P (r, t)) where
    caught-by :
        (b : Bool) (e : Exception) → P (caught discoverers setup tenant_id integrations now b e t)
    caught-by true e = untouched _
    caught-by false e = untouched _

    connected :
        (discover : Connector → Action Tables RefreshResult) (found : Result (Option Connector))
        → ((connector : Connector) → P (discover connector t))
        → P (with_connector discoverers setup tenant_id integrations now discover found t)
    connected discover (raise e) each = caught-by (is_integration_error e) e
    connected discover (return none) each = untouched _
    connected discover (return (some connector)) each = each connector

  by_refresh :
      (P : Result RefreshResult × Tables → Type 0) (world : World)
      (discover : Connector → Action Tables RefreshResult)
      → ((r : Result RefreshResult) → P (r, world.tables))
      → ((connector : Connector) → P (discover connector world.tables))
      → P (
        (refresh_with discoverers setup tenant_id integrations now discover world).0,
        (refresh_with discoverers setup tenant_id integrations now discover world).1.tables,
      )
  unfolding refresh_with
  by_refresh P world discover untouched each =
      connected P world.tables untouched discover
        (find_connector setup tenant_id integrations metrics_connector_kinds world.registry).0 each

  counted-OkOr :
      (t : Tables) (b : Bool) (count : ℕ) (e : Exception) (after : Tables)
      → OkOr t (
          counted discoverers setup tenant_id integrations now
            (if◌then◌else◌ {A = Result ℕ × Tables} b (return count, after) (raise e, t)))
  counted-OkOr t true count e after = inl (_, refl, refl)
  counted-OkOr t false count e after = inr refl

  counted-tables :
      (q : Result ℕ × Tables) → (counted discoverers setup tenant_id integrations now q).1 ≡ q.1
  counted-tables (return count, t) = refl
  counted-tables (raise e, t) = refl

  -- Edges are kept with what users said of them, and a refresh that does not say `ok` changes nothing.
  abbrev pub SafeTopology : Tables → Result RefreshResult × Tables → Type 0
  SafeTopology t q = Refreshed now t q.1 × OkOr t q

  SafeTopology-untouched : (t : Tables) (r : Result RefreshResult) → SafeTopology t (r, t)
  SafeTopology-untouched t r = (Refreshed-refl now t, inr refl)

  upserted :
      (service : Service) (deps : List DiscoveredDependency) (t : Tables)
      → OkOr t (
          counted discoverers setup tenant_id integrations now
            (upsert_discovered tenant_id now service.id deps t))
  unfolding upsert_discovered
  upserted service deps t =
      let after =
        upsert_edges tenant_id now service.id (list_for_service tenant_id service.id t) deps t in
      counted-OkOr t (are_unique after.dependencies) _ _ after

  stored-SafeTopology :
      (service : Service) (found : Result Topology) (t : Tables)
      → SafeTopology t (store_topology discoverers setup tenant_id integrations now service found t)
  unfolding store_topology
  stored-SafeTopology service (raise e) t =
      caught-by (SafeTopology t) t (SafeTopology-untouched t) (is_connector_error e) e
  stored-SafeTopology service (return topo) t =
      let deps = directed "upstream" topo.upstream ++ directed "downstream" topo.downstream in
      (
        subst (Refreshed now t)
            (sym (counted-tables (upsert_discovered tenant_id now service.id deps t)))
            (upsert_discovered-Refreshed now tenant_id service.id deps t),
        upserted service deps t,
      )

  -- A refresh of the topology, however it ends: every edge that was stored is still there, in its place
  -- and with the confirmation of the user, and is as it was or was seen now; every edge that is added
  -- is not confirmed; the other tables stay as they are. Unless the refresh says `ok`, nothing changes.
  pub refresh_topology-SafeTopology :
      (service : Service) (world : World)
      → SafeTopology world.tables (
        (refresh_topology discoverers setup tenant_id integrations now service world).0,
        (refresh_topology discoverers setup tenant_id integrations now service world).1.tables,
      )
  unfolding refresh_topology
  refresh_topology-SafeTopology service world =
      by_refresh (SafeTopology world.tables) world
        (λ connector.
          store_topology discoverers setup tenant_id integrations now service
            (discoverers.discover_topology connector service.label_selector service.name))
        (SafeTopology-untouched world.tables)
        (λ connector.
          stored-SafeTopology service
            (discoverers.discover_topology connector service.label_selector service.name)
            world.tables)

  -- A backend was found, and what it discovered has each metric once.
  abbrev pub Discovered :
      Service
      → (found : Result (Option Connector)) → (connector : Connector) (raw : List DiscoveredMetric)
      → Type 0
  Discovered service found connector raw =
      (found ≡ return (some connector))
      × (discoverers.discover_metrics connector service.label_selector ≡ return raw)
      × (are_distinct raw ≡ true)

  abbrev pub NotOk : Result RefreshResult → Type 0
  NotOk r = (result : RefreshResult) → r ≡ return result → result.status ≢ ok

  -- A metric of the service, seen now.
  abbrev pub dated : (service_id : ℕ) → DiscoveredMetric → MetricCatalogEntry
  dated service_id m = record {
    tenant_id = tenant_id;
    service_id = service_id;
    metric = m;
    last_seen_at = now;
  }

  -- The rows of the service are what was discovered, in its order, and all other rows are kept; or
  -- nothing was discovered, and the tables are as they were.
  abbrev pub SafeCatalog :
      Service → Result (Option Connector) → Tables → Result RefreshResult × Tables → Type 0
  SafeCatalog service found t q =
      ((connector : Connector) × (raw : List DiscoveredMetric) × Discovered service found connector
          raw
        × (q ≡ (
          return (record { discovered = length raw; status = ok; failure = none }),
          record t {
            metrics =
                filter
                  (λ (m : MetricCatalogEntry).
                    not (m.tenant_id == tenant_id && m.service_id == service.id))
                  t.metrics
                ++ map (dated service.id) raw;
          },
        )))
      ⊎ (((connector : Connector) (raw : List DiscoveredMetric)
            → ¬ (Discovered service found connector raw))
          × (q.1 ≡ t)
          × NotOk q.0)

  catalog_rows-map :
      (service_id : ℕ) (raw : List DiscoveredMetric)
      → catalog_rows tenant_id service_id now raw ≡ map (dated service_id) raw
  unfolding catalog_rows
  catalog_rows-map service_id [] = refl
  catalog_rows-map service_id (m ∷ raw) =
      ap (λ rows. dated service_id m ∷ rows) (catalog_rows-map service_id raw)

  caught-NotOk :
      (b : Bool) (e : Exception) (t : Tables)
      → ((caught discoverers setup tenant_id integrations now b e t).1 ≡ t)
        × NotOk (caught discoverers setup tenant_id integrations now b e t).0
  caught-NotOk true e t = (refl, λ result h same. absurd (cc))
  caught-NotOk false e t = (refl, λ result h same. absurd (cc))

  replaced :
      (service : Service) (connector : Connector) (raw : List DiscoveredMetric) (t : Tables)
      → discoverers.discover_metrics connector service.label_selector ≡ return raw
      → SafeCatalog service (return (some connector)) t (
          counted discoverers setup tenant_id integrations now
            (replace_for_service tenant_id now service.id raw t))
  unfolding replace_for_service
  replaced service connector raw t discovered = elim (Bool-cases (are_distinct raw)) [
    | inl distinct ↦ inl (
      connector,
      raw,
      (refl, discovered, distinct),
      rw (distinct, catalog_rows-map service.id raw) refl,
    )
    | inr twice ↦ inr (
      λ other found (same, discovered', distinct).
          absurd (let one : connector ≡ other = cc in let both : raw ≡ found = cc in cc),
      rw twice refl,
      rw twice (λ result h ok_. absurd (cc)),
    )
  ]

  stored :
      (service : Service) (connector : Connector) (found : Result (List DiscoveredMetric))
      (t : Tables)
      → discoverers.discover_metrics connector service.label_selector ≡ found
      → SafeCatalog service
          (return (some connector))
          t
          (store_catalog discoverers setup tenant_id integrations now service found t)
  unfolding store_catalog
  stored service connector (raise e) t discovered = inr (
    λ other raw (same, discovered', distinct). absurd (let one : connector ≡ other = cc in cc),
    (caught-NotOk (is_connector_error e) e t).0,
    (caught-NotOk (is_connector_error e) e t).1,
  )
  stored service connector (return raw) t discovered = replaced service connector raw t discovered

  catalogued :
      (service : Service) (found : Result (Option Connector)) (t : Tables)
      → SafeCatalog service found t (
          with_connector discoverers setup tenant_id integrations now
            (λ connector.
              store_catalog discoverers setup tenant_id integrations now service
                (discoverers.discover_metrics connector service.label_selector))
            found
            t)
  catalogued service (raise e) t = inr (
    λ connector raw (same, rest, distinct). absurd (cc),
    (caught-NotOk (is_integration_error e) e t).0,
    (caught-NotOk (is_integration_error e) e t).1,
  )
  catalogued service (return none) t =
      inr (λ connector raw (same, rest, distinct). absurd (cc), refl, λ result h ok_. absurd (cc))
  catalogued service (return (some connector)) t =
      stored service connector (discoverers.discover_metrics connector service.label_selector) t
        refl

  -- A refresh of the catalog. If a backend is found and discovers metrics, each once, the refresh says
  -- `ok` with their number, and the rows of the service are then exactly these metrics, with the rows of
  -- all other services and tenants as they were. In every other case it does not say `ok`, and the
  -- tables stay as they are.
  pub refresh_catalog-SafeCatalog :
      (service : Service) (world : World)
      → SafeCatalog service
          (find_connector setup tenant_id integrations metrics_connector_kinds world.registry).0
          world.tables
          (
            (refresh_catalog discoverers setup tenant_id integrations now service world).0,
            (refresh_catalog discoverers setup tenant_id integrations now service world).1.tables,
          )
  unfolding refresh_catalog refresh_with
  refresh_catalog-SafeCatalog service world =
      catalogued service
        (find_connector setup tenant_id integrations metrics_connector_kinds world.registry).0
        world.tables
