-- ===== src/Connectors/Registry.antt =====
-- connectors/registry.py: the connectors of the tenants, built from their integrations and kept.
pub mod Transparent
use nightswatch.Prelude.{
  ℕ, String, Bool, true, false, not, ◌&&◌, Option, none, some, List, [], ◌∷◌, ◌++◌, ◌==◌, str_eq,
  if◌then◌else◌,
}
use nightswatch.Json.{Fields}
use nightswatch.Action.{other, Result, return, raise, Action}
use nightswatch.Repository.{filter, first}
use nightswatch.Crypto.{Aead}
use nightswatch.Integrations.{Codec, Integration, Store, get_by_id, list_all, decrypt_config}
use nightswatch.Connectors.{
  ConnectorKind, prometheus, newrelic, kind_name, Connector, prometheus_connector,
  newrelic_connector, PrometheusConfig, NewRelicConfig, PyConfig, prometheus_from_decrypted,
  newrelic_from_decrypted,
}

-- What a registry is made with.
pub record Setup : Type 0 where
  pub codec : Codec
  pub aead : Aead
  pub py : PyConfig
  pub query_timeout_seconds : ℕ
  pub max_points : ℕ
  pub max_series : ℕ

pub record Entry : Type 0 where
  pub tenant_id : ℕ
  pub kind : ConnectorKind
  pub connector : Connector

-- The cache, and the connectors whose clients were closed.
pub record ConnectorRegistry : Type 0 where
  pub cache : List Entry
  pub closed : List Connector

abbrev pub same_kind : ConnectorKind → ConnectorKind → Bool
same_kind prometheus prometheus = true
same_kind newrelic newrelic = true
same_kind _ _ = false

abbrev pub is_key : ℕ → ConnectorKind → Entry → Bool
is_key tenant_id kind e = e.tenant_id == tenant_id && same_kind e.kind kind

unfoldable pub cached : ℕ → ConnectorKind → List Entry → Option Connector
cached tenant_id kind [] = none
cached tenant_id kind (e ∷ es) =
    if is_key tenant_id kind e then some e.connector else cached tenant_id kind es

unfoldable pub connectors_of : List Entry → List Connector
connectors_of [] = []
connectors_of (e ∷ es) = e.connector ∷ connectors_of es

module _ (setup : Setup) where
  abbrev of_prometheus : Result PrometheusConfig → Result Connector
  of_prometheus (return config) = return (prometheus_connector config)
  of_prometheus (raise e) = raise e

  abbrev of_newrelic : Result NewRelicConfig → Result Connector
  of_newrelic (return config) = return (newrelic_connector config)
  of_newrelic (raise e) = raise e

  abbrev build_prometheus : Result Fields → Result Connector
  build_prometheus (raise e) = raise e
  build_prometheus (return config) = of_prometheus (
      prometheus_from_decrypted setup.py setup.query_timeout_seconds setup.max_points
        setup.max_series config)

  abbrev build_newrelic : Result Fields → Result Connector
  build_newrelic (raise e) = raise e
  build_newrelic (return config) =
      of_newrelic
        (newrelic_from_decrypted setup.py setup.query_timeout_seconds setup.max_series config)

  unfoldable pub build_from_row : Integration → Result Connector
  build_from_row row =
      if str_eq row.kind "prometheus"
      then build_prometheus (decrypt_config setup.codec setup.aead row)
      else if str_eq row.kind "newrelic"
      then build_newrelic (decrypt_config setup.codec setup.aead row)
      else raise (other "IntegrationError")

  abbrev build_matching : Option Integration → Result Connector
  build_matching none = raise (other "IntegrationNotFound")
  build_matching (some row) =
      if str_eq row.status "disabled"
      then raise (other "IntegrationUnhealthy")
      else build_from_row row

  -- The newest integration of the kind.
  unfoldable pub build : (tenant_id : ℕ) → ConnectorKind → Store → Result Connector
  unfolding build_from_row
  build tenant_id kind store = build_matching (
      first
        (filter (λ (r : Integration). str_eq r.kind (kind_name kind)) (list_all tenant_id store)))

  abbrev keep_built :
      ℕ
      → ConnectorKind
      → ConnectorRegistry
      → Result Connector
      → Result Connector × ConnectorRegistry
  keep_built tenant_id kind registry (raise e) = (raise e, registry)
  keep_built tenant_id kind registry (return connector) = (
    return connector,
    record registry {
      cache = record { tenant_id = tenant_id; kind = kind; connector = connector } ∷ registry.cache;
    },
  )

  abbrev of_cached :
      ℕ
      → ConnectorKind
      → Store
      → ConnectorRegistry
      → Option Connector
      → Result Connector × ConnectorRegistry
  of_cached tenant_id kind store registry (some connector) = (return connector, registry)
  of_cached tenant_id kind store registry none =
      keep_built tenant_id kind registry (build tenant_id kind store)

  unfoldable pub get : (tenant_id : ℕ) → ConnectorKind → Store → Action ConnectorRegistry Connector
  unfolding cached
  get tenant_id kind store registry =
      of_cached tenant_id kind store registry (cached tenant_id kind registry.cache)

abbrev is_dropped : ℕ → Option ConnectorKind → Entry → Bool
is_dropped tenant_id none e = e.tenant_id == tenant_id
is_dropped tenant_id (some kind) e = is_key tenant_id kind e

-- Each connector that is dropped is closed.
unfoldable pub invalidate :
    (tenant_id : ℕ) → Option ConnectorKind → ConnectorRegistry → ConnectorRegistry
unfolding connectors_of
invalidate tenant_id kind registry = record {
  cache = filter (λ e. not (is_dropped tenant_id kind e)) registry.cache;
  closed = registry.closed ++ connectors_of (filter (is_dropped tenant_id kind) registry.cache);
}

unfoldable pub close_all : ConnectorRegistry → ConnectorRegistry
unfolding connectors_of
close_all registry = record { cache = []; closed = registry.closed ++ connectors_of registry.cache }
