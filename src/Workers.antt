-- ===== src/Workers.antt =====
-- workers/app.py: the jobs of the worker, and connectors/registry.py: the one-off health check.
pub mod Checked
use nightswatch.Prelude.{
  ℕ, String, Bool, true, false, not, ◌&&◌, ◌||◌, Option, none, some, List, [], ◌∷◌, str_eq, length,
  if◌then◌else◌,
}
use nightswatch.Json
use nightswatch.Json.{Json, Fields}
use nightswatch.Action.{Exception, other, Result, return, raise, Action}
use nightswatch.Repository.{filter, first}
use nightswatch.ApiKeys.{Tenant}
use nightswatch.Crypto.{Aead}
use nightswatch.Integrations.{
  Codec, Integration, Store, get_by_id, list_all, update_row, decrypt_config,
}
use nightswatch.Stages.{truthy}
use nightswatch.Connectors.{Connector}
use nightswatch.Connectors.Requests.{ConnectorHealth}
use nightswatch.Connectors.Registry.{Setup, ConnectorRegistry, build_from_row, close_all}
use nightswatch.Services as Services
use nightswatch.Services.Registration.{World}
use nightswatch.Services.Discovery.{RefreshResult}

-- The channel and the token of the tenant's Slack.
pub record SlackConfig : Type 0 where
  pub channel_id : Json
  pub bot_token : Json

abbrev both_set : Option Json → Option Json → Option SlackConfig
both_set (some channel_id) (some bot_token) =
    if truthy channel_id && truthy bot_token
    then some (record { channel_id = channel_id; bot_token = bot_token })
    else none
both_set _ _ = none

abbrev of_config : Result Fields → Option SlackConfig
of_config (raise e) = none
of_config (return config) = both_set (Json.get "channel_id" config) (Json.get "bot_token" config)

module _ (codec : Codec) (tenant_id : ℕ) where
  abbrev of_slack : Aead → Option Integration → Option SlackConfig
  of_slack aead none = none
  of_slack aead (some slack) = of_config (decrypt_config codec aead slack)

  -- `crypto` is `none` where the key cannot be used; `none` is the empty dictionary.
  unfoldable pub resolve_delivery_configs : (crypto : Option Aead) → Store → Option SlackConfig
  resolve_delivery_configs none store = none
  resolve_delivery_configs (some aead) store =
      of_slack aead
        (first (filter (λ (i : Integration). str_eq i.kind "slack") (list_all tenant_id store)))

-- `health` is `connector.health_check()`.
module _ (setup : Setup) (health : Connector → Result ConnectorHealth) (tenant_id : ℕ) where
  abbrev pub check_built : Result Connector → Result ConnectorHealth
  check_built (raise e) = raise e
  check_built (return connector) = health connector

  abbrev check_row : Option Integration → Result ConnectorHealth
  check_row none = raise (other "IntegrationNotFound")
  check_row (some row) = check_built (build_from_row setup row)

  unfoldable pub health_check_for : (integration_id : ℕ) → Store → Result ConnectorHealth
  unfolding get_by_id
  health_check_for integration_id store = check_row (get_by_id tenant_id integration_id store)

  -- Any exception is a failed check.
  abbrev pub new_status : Result ConnectorHealth → String
  new_status (return found) = if found.healthy then "healthy" else "unhealthy"
  new_status (raise e) = "unhealthy"

  abbrev pub with_health : (now : ℕ) (status : String) → Integration → Integration
  with_health now status row = record row { status = status; last_health_check_at = some now }

  abbrev pub write_health : (now : ℕ) (status : String) → Option Integration → Store → Store
  write_health now status none store = store
  write_health now status (some row) store = record store {
    rows = update_row row.id (with_health now status) store.rows;
  }

  -- The row is read again for the update.
  unfoldable pub run_health_check : (now integration_id : ℕ) → Store → Store
  unfolding health_check_for update_row
  run_health_check now integration_id store =
      write_health now (new_status (health_check_for integration_id store))
        (get_by_id tenant_id integration_id store) store

abbrev pub new_registry : ConnectorRegistry
new_registry = record { cache = []; closed = [] }

-- `run_metric_catalog_refresh` and `run_topology_refresh`, for the refresh by id that each asks for. An
-- exception goes on after the registry was closed, and what was not committed is undone.
abbrev closed_after :
    Services.Tables → Result (Option RefreshResult) × World → Result (Option RefreshResult) × World
closed_after before (return result, world) =
    (return result, record world { registry = close_all world.registry })
closed_after before (raise e, world) =
    (raise e, record { tables = before; registry = close_all world.registry })

unfoldable pub run_refresh :
    (refresh_by_id : Action World (Option RefreshResult))
    → Services.Tables
    → Result (Option RefreshResult) × World
unfolding close_all
run_refresh refresh_by_id tables =
    closed_after tables (refresh_by_id (record { tables = tables; registry = new_registry }))

-- The tenant and the service of each service that is registered.
abbrev add_pair : ℕ → Option Services.Service → List (ℕ × ℕ) → List (ℕ × ℕ)
add_pair tenant_id none pairs = pairs
add_pair tenant_id (some service) pairs = (tenant_id, service.id) ∷ pairs

unfoldable pub list_services_for_refresh : List Tenant → Services.Tables → List (ℕ × ℕ)
list_services_for_refresh [] tables = []
list_services_for_refresh (tenant ∷ tenants) tables =
    add_pair tenant.id (Services.get_for_tenant tenant.id tables)
      (list_services_for_refresh tenants tables)

-- The two jobs of the discovery queue.
pub data DiscoveryJob : Type 0 where
  run_metric_catalog_refresh run_topology_refresh : (tenant_id service_id : ℕ) → DiscoveryJob

unfoldable pub enqueue_refreshes : List (ℕ × ℕ) → List DiscoveryJob
enqueue_refreshes [] = []
enqueue_refreshes ((tenant_id, service_id) ∷ pairs) =
    run_metric_catalog_refresh tenant_id service_id
    ∷ run_topology_refresh tenant_id service_id
    ∷ enqueue_refreshes pairs

-- The jobs that it enqueues, and the number of services that it returns.
unfoldable pub enqueue_all_discovery_refreshes :
    List Tenant → Services.Tables → List DiscoveryJob × ℕ
unfolding list_services_for_refresh enqueue_refreshes
enqueue_all_discovery_refreshes tenants tables =
    let pairs = list_services_for_refresh tenants tables in (enqueue_refreshes pairs, length pairs)
