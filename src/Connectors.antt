-- ===== src/Connectors.antt =====
-- connectors: the configurations and the results that the connectors share.
pub mod Registry
pub mod Requests
pub mod Prometheus
pub mod NewRelic
use Prim.Native.Char.{Char}
use nightswatch.Prelude.{
  ℕ, String, Bool, true, false, Option, none, some, List, [], ◌∷◌, ◌==◌, str_eq, strip_right,
  if◌then◌else◌,
}
use nightswatch.Json
use nightswatch.Json.{Json, text, object, Fields, end, field}
use nightswatch.Action.{other, Result, return, raise}
use nightswatch.Stages.{truthy}

-- `ConnectorKind`, of the kinds that can be built.
pub data ConnectorKind : Type 0 where
  prometheus newrelic : ConnectorKind

abbrev pub kind_name : ConnectorKind → String
kind_name prometheus = "prometheus"
kind_name newrelic = "newrelic"

-- `METRICS_CONNECTOR_KINDS`
abbrev pub metrics_connector_kinds : List ConnectorKind
metrics_connector_kinds = prometheus ∷ newrelic ∷ []

pub record PrometheusAuth : Type 0 where
  pub kind : Option Json
  pub bearer_token : Option Json
  pub basic_user : Option Json
  pub basic_password : Option Json

pub record PrometheusConfig : Type 0 where
  pub base_url : String
  pub auth : PrometheusAuth
  pub query_timeout_seconds : ℕ
  pub max_points : ℕ
  pub max_series : ℕ

pub record NewRelicConfig : Type 0 where
  pub account_id : ℕ
  pub api_key : String
  pub region : String
  pub query_timeout_seconds : ℕ
  pub max_series : ℕ

-- A connector is its configuration: the client that it holds is made from it.
pub data Connector : Type 0 where
  prometheus_connector : PrometheusConfig → Connector
  newrelic_connector : NewRelicConfig → Connector

-- `str`, `str.upper` and `int` of Python.
pub record PyConfig : Type 0 where
  pub str : Json → String
  pub upper : String → String
  pub int : Json → Result ℕ

abbrev slash : Char
slash = "/"

-- `config.get("auth") or {"type": "none"}`
abbrev auth_of : Option Json → Result Fields
auth_of none = return (field "type" (text "none") end)
auth_of (some (object auth)) =
    return (if truthy (object auth) then auth else field "type" (text "none") end)
auth_of (some value) =
    if truthy value then raise (other "AttributeError") else return (field "type" (text "none") end)

abbrev or_none : Option Json → Option Json
or_none none = some (text "none")
or_none (some kind) = some kind

abbrev with_url :
    PyConfig
    → (query_timeout_seconds max_points max_series : ℕ) → Fields
    → Option Json
    → Result PrometheusConfig
with_url py query_timeout_seconds max_points max_series auth none = raise (other "KeyError")
with_url py query_timeout_seconds max_points max_series auth (some url) = return record {
  base_url = strip_right slash (py.str url);
  auth = record {
    kind = or_none (Json.get "type" auth);
    bearer_token = Json.get "token" auth;
    basic_user = Json.get "username" auth;
    basic_password = Json.get "password" auth;
  };
  query_timeout_seconds = query_timeout_seconds;
  max_points = max_points;
  max_series = max_series;
}

abbrev with_auth :
    PyConfig
    → (query_timeout_seconds max_points max_series : ℕ) → Fields
    → Result Fields
    → Result PrometheusConfig
with_auth py query_timeout_seconds max_points max_series config (raise e) =
    elim (Json.get "url" config) [ none ↦ raise (other "KeyError") | some url ↦ raise e ]
with_auth py query_timeout_seconds max_points max_series config (return auth) =
    with_url py query_timeout_seconds max_points max_series auth (Json.get "url" config)

module _ (py : PyConfig) where
  unfoldable pub prometheus_from_decrypted :
      (query_timeout_seconds max_points max_series : ℕ) → Fields → Result PrometheusConfig
  unfolding strip_right
  prometheus_from_decrypted query_timeout_seconds max_points max_series config =
      with_auth py query_timeout_seconds max_points max_series config
        (auth_of (Json.get "auth" config))

  abbrev region_of : Option Json → String
  region_of none = py.upper "US"
  region_of (some region) = py.upper (py.str region)

  abbrev with_account :
      (query_timeout_seconds max_series : ℕ)
      → Fields
      → Result ℕ
      → Option Json
      → Result NewRelicConfig
  with_account query_timeout_seconds max_series config (raise e) api_key = raise e
  with_account query_timeout_seconds max_series config (return account_id) none =
      raise (other "KeyError")
  with_account query_timeout_seconds max_series config (return account_id) (some api_key) =
      return record {
        account_id = account_id;
        api_key = py.str api_key;
        region = region_of (Json.get "region" config);
        query_timeout_seconds = query_timeout_seconds;
        max_series = max_series;
      }

  abbrev account_of : Option Json → Result ℕ
  account_of none = raise (other "KeyError")
  account_of (some account_id) = py.int account_id

  unfoldable pub newrelic_from_decrypted :
      (query_timeout_seconds max_series : ℕ) → Fields → Result NewRelicConfig
  newrelic_from_decrypted query_timeout_seconds max_series config =
      with_account query_timeout_seconds max_series config
        (account_of (Json.get "account_id" config)) (Json.get "api_key" config)

-- `NewRelicConfig.endpoint`
abbrev pub endpoint : NewRelicConfig → String
endpoint config =
    if str_eq config.region "EU"
    then "https://api.eu.newrelic.com/graphql"
    else "https://api.newrelic.com/graphql"
