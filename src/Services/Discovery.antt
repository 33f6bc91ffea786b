-- ===== src/Services/Discovery.antt =====
-- core/service/catalog_service.py and core/service/topology_service.py: the refresh of the catalog and of
-- the dependencies of a service, and what a user confirms.
pub mod Guarded
use nightswatch.Prelude.{
  ℕ, String, Bool, true, false, Option, none, some, List, [], ◌∷◌, ◌++◌, if◌then◌else◌,
}
use nightswatch.Action.{Exception, Result, return, raise, Action}
use nightswatch.Database.{Labels}
use nightswatch.Integrations as Integrations
use nightswatch.Connectors.{Connector, metrics_connector_kinds}
use nightswatch.Connectors.Registry.{Setup, ConnectorRegistry}
use nightswatch.Services.{
  Service, ServiceDependency, DiscoveredMetric, DiscoveredDependency, MetricCatalogEntry, Tables,
  get_by_id,
}
use nightswatch.Services.Edges.{upsert_discovered, set_confirmation, list_for_service}
use nightswatch.Services.Catalog as Catalog
use nightswatch.Services.Registration.{
  World, is_integration_error, is_connector_error, find_connector,
}

-- An edge of what `discover_topology` gives, without its direction.
pub record Neighbour : Type 0 where
  pub name : String
  pub via_label : Option String

pub record Topology : Type 0 where
  pub upstream : List Neighbour
  pub downstream : List Neighbour

-- The discovery of the connectors, and `str(exc)`.
pub record Discoverers : Type 0 where
  pub discover_metrics : Connector → Labels → Result (List DiscoveredMetric)
  pub discover_topology : Connector → Labels → (name : String) → Result Topology
  pub str : Exception → String

pub data RefreshStatus : Type 0 where
  ok no_prometheus error : RefreshStatus

-- `CatalogRefreshResult` and `TopologyRefreshResult`.
pub record RefreshResult : Type 0 where
  pub discovered : ℕ
  pub status : RefreshStatus
  pub failure : Option String

abbrev pub skipped : RefreshResult
skipped = record { discovered = 0; status = no_prometheus; failure = none }

unfoldable pub directed : String → List Neighbour → List DiscoveredDependency
directed direction [] = []
directed direction (n ∷ neighbours) =
    record { direction = direction; name = n.name; via_label = n.via_label }
    ∷ directed direction neighbours

module _ (discoverers : Discoverers) (setup : Setup) (tenant_id : ℕ)
    (integrations : Integrations.Store) (now : ℕ) where
  abbrev failed : Exception → RefreshResult
  failed e = record { discovered = 0; status = error; failure = some (discoverers.str e) }

  -- An exception of a class that is caught is a result, any other goes on.
  abbrev caught : Bool → Exception → Action Tables RefreshResult
  caught b e t = if b then (return (failed e), t) else (raise e, t)

  abbrev counted : Result ℕ × Tables → Result RefreshResult × Tables
  counted (return count, t) =
      (return (record { discovered = count; status = ok; failure = none }), t)
  counted (raise e, t) = (raise e, t)

  abbrev with_connector :
      (Connector → Action Tables RefreshResult)
      → Result (Option Connector)
      → Action Tables RefreshResult
  with_connector discover (raise e) t = caught (is_integration_error e) e t
  with_connector discover (return none) t = (return skipped, t)
  with_connector discover (return (some connector)) t = discover connector t

  -- The two services look for a backend in the same way.
  unfoldable pub refresh_with :
      (Connector → Action Tables RefreshResult) → Action World RefreshResult
  unfolding find_connector
  refresh_with discover world =
      let (found, registry) =
        find_connector setup tenant_id integrations metrics_connector_kinds world.registry in
      let (result, tables) = with_connector discover found world.tables in
      (result, record { tables = tables; registry = registry })

  unfoldable pub store_catalog :
      Service → Result (List DiscoveredMetric) → Action Tables RefreshResult
  store_catalog service (raise e) t = caught (is_connector_error e) e t
  store_catalog service (return raw) t =
      counted (Catalog.replace_for_service tenant_id now service.id raw t)

  unfoldable pub refresh_catalog : Service → Action World RefreshResult
  unfolding refresh_with store_catalog
  refresh_catalog service = refresh_with (λ connector.
      store_catalog service (discoverers.discover_metrics connector service.label_selector))

  unfoldable pub store_topology : Service → Result Topology → Action Tables RefreshResult
  unfolding directed
  store_topology service (raise e) t = caught (is_connector_error e) e t
  store_topology service (return topo) t = counted (
      upsert_discovered tenant_id now service.id
        (directed "upstream" topo.upstream ++ directed "downstream" topo.downstream) t)

  unfoldable pub refresh_topology : Service → Action World RefreshResult
  unfolding refresh_with store_topology
  refresh_topology service = refresh_with (λ connector.
      store_topology service
        (discoverers.discover_topology connector service.label_selector service.name))

  abbrev some_of : Result RefreshResult × World → Result (Option RefreshResult) × World
  some_of (return result, after) = (return (some result), after)
  some_of (raise e, after) = (raise e, after)

  abbrev if_owned :
      (Service → Action World RefreshResult) → Option Service → Action World (Option RefreshResult)
  if_owned refresh none world = (return none, world)
  if_owned refresh (some service) world = some_of (refresh service world)

  -- `none` where the tenant has no such service.
  unfoldable pub refresh_by_id :
      (refresh : Service → Action World RefreshResult) → ℕ → Action World (Option RefreshResult)
  refresh_by_id refresh service_id world =
      if_owned refresh (get_by_id tenant_id service_id world.tables) world

module _ (tenant_id : ℕ) where
  unfoldable pub apply_edits : List (ℕ × Bool) → Tables → Tables
  unfolding set_confirmation
  apply_edits [] t = t
  apply_edits ((dependency_id, confirmed) ∷ edits) t =
      apply_edits edits (set_confirmation tenant_id dependency_id confirmed t)

  abbrev edited :
      ℕ → List (ℕ × Bool) → Tables → Option Service → Option (List ServiceDependency) × Tables
  edited service_id edits t none = (none, t)
  edited service_id edits t (some service) =
      let after = apply_edits edits t in (some (list_for_service tenant_id service_id after), after)

  unfoldable pub confirm : ℕ → List (ℕ × Bool) → Tables → Option (List ServiceDependency) × Tables
  unfolding apply_edits
  confirm service_id edits t = edited service_id edits t (get_by_id tenant_id service_id t)

  abbrev listed : {A : Type 0} → A → Option Service → Option A
  listed value none = none
  listed value (some service) = some value

  unfoldable pub get_topology : ℕ → Tables → Option (List ServiceDependency)
  get_topology service_id t =
      listed (list_for_service tenant_id service_id t) (get_by_id tenant_id service_id t)

  unfoldable pub list_metrics :
      (ilike : String → String → Bool) (name_filter : Option String) (limit offset : ℕ)
      → ℕ
      → Tables
      → Option (List MetricCatalogEntry)
  list_metrics ilike name_filter limit offset service_id t =
      listed (Catalog.list_for_service tenant_id ilike name_filter limit offset service_id t)
        (get_by_id tenant_id service_id t)
