-- ===== src/Services/Registration.antt =====
-- core/service/service.py: the registration of a service, with a probe of its label selector.
pub mod Current
use Prim.Native.Char.{Char}
use nightswatch.Prelude.{
  ℕ, String, Bool, true, false, not, ◌&&◌, Option, none, some, List, [], ◌∷◌, ◌==◌, contains,
  str_eq, if◌then◌else◌,
}
use nightswatch.Json.{bool, Fields, end, field}
use nightswatch.Action.{Exception, other, class_name, Result, return, raise, Action}
use nightswatch.Database.{Labels}
use nightswatch.Alert.Fingerprint.{sort_labels}
use nightswatch.Queries.{escape, join, parts}
use nightswatch.Integrations as Integrations
use nightswatch.Connectors.{
  ConnectorKind, Connector, prometheus_connector, newrelic_connector, PrometheusConfig,
  NewRelicConfig, metrics_connector_kinds,
}
use nightswatch.Connectors.Registry as Registry
use nightswatch.Connectors.Registry.{Setup, ConnectorRegistry}
use nightswatch.Services.{Service, Tables, get_for_tenant, create}

-- `ConnectorResult`, of what is read here.
pub record Probed : Type 0 where
  pub success : Bool
  pub series_count : ℕ
  pub error : Option String

-- The requests to the backends, and `str(exc)`.
pub record Backends : Type 0 where
  pub query : PrometheusConfig → (promql : String) → Result Probed
  pub probe_selector : NewRelicConfig → Labels → Result Probed
  pub str : Exception → String

pub record LabelSelectorValidation : Type 0 where
  pub has_prometheus : Bool
  pub series_count : ℕ
  pub error : Option String

pub record ServiceRegistrationResult : Type 0 where
  pub service : Service
  pub warnings : List String

-- What the services act on.
pub record World : Type 0 where
  pub tables : Tables
  pub registry : ConnectorRegistry

-- The classes of exceptions.py that are an IntegrationError.
abbrev pub is_integration_error : Exception → Bool
is_integration_error e = contains (class_name e) (
    "IntegrationError" ∷ "IntegrationUnhealthy" ∷ "IntegrationAlreadyExists" ∷ "IntegrationNotFound"
    ∷ "IntegrationCredentialDecryptionFailed" ∷ [])

abbrev pub is_connector_error : Exception → Bool
is_connector_error e =
    contains (class_name e) ("ConnectorError" ∷ "ConnectorTimeout" ∷ "ConnectorUnsupported" ∷ [])

abbrev is_skipped : Exception → Bool
is_skipped e = contains (class_name e) ("IntegrationNotFound" ∷ "IntegrationUnhealthy" ∷ [])

module _ (setup : Setup) (tenant_id : ℕ) (integrations : Integrations.Store) where
  abbrev or_next :
      Result Connector × ConnectorRegistry
      → Action ConnectorRegistry (Option Connector)
      → Result (Option Connector) × ConnectorRegistry
  or_next (return connector, registry) next = (return (some connector), registry)
  or_next (raise e, registry) next = if is_skipped e then next registry else (raise e, registry)

  -- The first backend of `kinds` that is there: the loop that the three services share.
  unfoldable pub find_connector :
      (kinds : List ConnectorKind) → Action ConnectorRegistry (Option Connector)
  find_connector [] registry = (return none, registry)
  find_connector (kind ∷ kinds) registry =
      or_next (Registry.get setup tenant_id kind integrations registry) (find_connector kinds)

abbrev quote : Char
quote = "\""

abbrev matcher_parts : Labels → List String
matcher_parts [] = []
matcher_parts ((k, v) ∷ labels) =
    parts (k ∷ "=\"" ∷ escape quote v ∷ "\"" ∷ []) ∷ matcher_parts labels

unfoldable pub build_existence_query : Labels → String
unfolding sort_labels
build_existence_query [] = "up"
build_existence_query (label ∷ labels) =
    parts ("up{" ∷ join "," (matcher_parts (sort_labels (label ∷ labels))) ∷ "}" ∷ [])

abbrev pending : Option Fields
pending = some (field "validation_pending" (bool true) end)

abbrev zero_series : String
zero_series =
    "label_selector matched 0 series in Prometheus. The service was registered, but investigations won't be able to query metrics until at least one series matches."

-- `if validation.error`
abbrev pub set_error : Option String → Option String
set_error none = none
set_error (some error) = if str_eq error "" then none else some error

abbrev for_backend : ℕ → Option String → Option Fields × List String
for_backend series_count (some error) = (
  pending,
  parts (
        "Could not validate label_selector against Prometheus: " ∷ error
        ∷ ". The service was registered; re-run validation after fixing the integration." ∷ [])
      ∷ [],
)
for_backend series_count none = (none, if series_count == 0 then zero_series ∷ [] else [])

abbrev for_none : Option String → Option Fields × List String
for_none none = (pending, [])
for_none (some error) =
    (pending, parts ("Could not look up Prometheus integration: " ∷ error ∷ []) ∷ [])

unfoldable pub build_slo_config_and_warnings : LabelSelectorValidation → Option Fields × List String
build_slo_config_and_warnings validation =
    if validation.has_prometheus
    then for_backend validation.series_count (set_error validation.error)
    else for_none (set_error validation.error)

module _ (backends : Backends) where
  abbrev query_failed : Option String → String
  query_failed none = "Prometheus query failed"
  query_failed (some error) = if str_eq error "" then "Prometheus query failed" else error

  abbrev of_probed : Result Probed → Result LabelSelectorValidation
  of_probed (return result) = return (
      if result.success
      then record { has_prometheus = true; series_count = result.series_count; error = none }
      else record {
        has_prometheus = true;
        series_count = 0;
        error = some (query_failed result.error);
      })
  of_probed (raise e) =
      if str_eq (class_name e) "ConnectorTimeout"
      then return (record {
        has_prometheus = true;
        series_count = 0;
        error = some (parts ("timeout: " ∷ backends.str e ∷ []));
      })
      else if is_connector_error e
      then return
          (record { has_prometheus = true; series_count = 0; error = some (backends.str e) })
      else raise e

  unfoldable pub probe : Labels → Connector → Result Probed
  unfolding build_existence_query
  probe selector (prometheus_connector config) =
      backends.query config (build_existence_query selector)
  probe selector (newrelic_connector config) = backends.probe_selector config selector

  abbrev of_found : Labels → Result (Option Connector) → Result LabelSelectorValidation
  of_found selector (raise e) =
      if is_integration_error e
      then return
          (record { has_prometheus = false; series_count = 0; error = some (backends.str e) })
      else raise e
  of_found selector (return none) =
      return (record { has_prometheus = false; series_count = 0; error = none })
  of_found selector (return (some connector)) = of_probed (probe selector connector)

  module _ (setup : Setup) (tenant_id : ℕ) (integrations : Integrations.Store) where
    unfoldable pub validate_label_selector :
        Labels → Action ConnectorRegistry LabelSelectorValidation
    unfolding find_connector probe
    validate_label_selector selector registry =
        let (found, registry') =
          find_connector setup tenant_id integrations metrics_connector_kinds registry in
        (of_found selector found, registry')

    abbrev with_warnings :
        List String
        → ConnectorRegistry
        → Result Service × Tables
        → Result ServiceRegistrationResult × World
    with_warnings warnings registry (return row, tables) = (
      return (record { service = row; warnings = warnings }),
      record { tables = tables; registry = registry },
    )
    with_warnings warnings registry (raise e, tables) =
        (raise e, record { tables = tables; registry = registry })

    abbrev store_validated :
        (name : String)
        → Labels
        → (ownership : Option Fields) → Tables
        → Result LabelSelectorValidation × ConnectorRegistry
        → Result ServiceRegistrationResult × World
    store_validated name selector ownership tables (raise e, registry) =
        (raise e, record { tables = tables; registry = registry })
    store_validated name selector ownership tables (return validation, registry) =
        let (slo_config, warnings) = build_slo_config_and_warnings validation in
        with_warnings warnings registry (create tenant_id name selector ownership slo_config tables)

    unfoldable pub register :
        (name : String)
        → Labels
        → (ownership : Option Fields) → Action World ServiceRegistrationResult
    unfolding validate_label_selector build_slo_config_and_warnings
    register name selector ownership world =
        store_validated name selector ownership world.tables
          (validate_label_selector selector world.registry)
