-- ===== src/Connectors/NewRelic.antt =====
-- connectors/newrelic/connector.py: the requests of the connector, and what it makes of the answers.
pub mod Edges
use nightswatch.Prelude.{
  ℕ, suc, ◌+◌, String, Bool, true, false, not, ◌&&◌, ◌||◌, Option, none, some, List, [], ◌∷◌, ◌++◌,
  length, ltb, ◌==◌, ◌/◌, contains, str_eq, if◌then◌else◌,
}
use nightswatch.Json
use nightswatch.Json.{
  Json, null, bool, integer, float, text, array, object, Items, nil, cons, Fields, end, field,
}
use nightswatch.Action.{Exception, other, class_name, Result, return, raise}
use nightswatch.Database.{Labels}
use nightswatch.Queries.{QueryIntent, escape, occurs, parts}
use nightswatch.Queries.Nrql.{build, metric_discovery_query, selector_probe_query}
use nightswatch.Stages.{truthy, items_of}
use nightswatch.Connectors.{NewRelicConfig, endpoint}
use nightswatch.Connectors.Requests.{
  Reply, timed_out, transport_failed, responded, Client, ConnectorResult, ConnectorHealth,
  ConnectorQuery, promql_query, nrql_query, other_query, connector_timeout, connector_error,
  failure, array_or_empty, object_or_empty, to_items, cap,
}

-- The texts of the GraphQL operations.
pub record Operations : Type 0 where
  pub nrql_gql : String
  pub health_gql : String
  pub entity_search_gql : String
  pub related_gql : String

-- `d.get(k) or {}`, where an object or nothing is expected.
abbrev get_object : String → Fields → Fields
get_object k fields = object_or_empty (Json.get k fields)

-- The keys and the values of an object, in order.
unfoldable pub values_of : Fields → List Json
values_of end = []
values_of (field k v fields) = v ∷ values_of fields

unfoldable pub count_keys : Json → ℕ
unfolding values_of
count_keys (object fields) = length (values_of fields)
count_keys _ = 0

unfoldable pub sum_keys : List Json → ℕ
unfolding count_keys
sum_keys [] = 0
sum_keys (row ∷ rows) = count_keys row + sum_keys rows

abbrev array_in : List Json → Option (List Json)
array_in [] = none
array_in (array items ∷ vs) = some (items_of items)
array_in (v ∷ vs) = array_in vs

abbrev row_values : Json → List Json
row_values (object fields) = values_of fields
row_values _ = []

-- `_first_list_value`: the first array in the first row that has one.
unfoldable pub first_list_value : List Json → List Json
unfolding values_of
first_list_value [] = []
first_list_value (row ∷ rows) =
    let rest = first_list_value rows in
    elim (array_in (row_values row)) [ none ↦ rest | some found ↦ found ]

-- `int(...)` of a number goes towards 0; a count is not negative.
abbrev whole : ℕ → ℕ
whole n = n / 1000000

abbrev number_in : List Json → Option ℕ
number_in [] = none
number_in (integer minus n ∷ vs) = some n
number_in (float minus n ∷ vs) = some (whole n)
number_in (v ∷ vs) = number_in vs

-- `int(_first_number_value(rows))`
unfoldable pub first_number_value : List Json → ℕ
unfolding values_of
first_number_value [] = 0
first_number_value (row ∷ rows) =
    let rest = first_number_value rows in
    elim (number_in (row_values row)) [ none ↦ rest | some found ↦ found ]

module _ (client : Client) (ops : Operations) (config : NewRelicConfig) where
  abbrev without_errors : Fields → Result Fields
  without_errors body = elim (Json.get "errors" body) [
    | none ↦ return (get_object "data" body)
    | some errors ↦
        (if truthy errors then raise connector_error else return (get_object "data" body))
  ]

  abbrev of_json : Result Fields → Result Fields
  of_json (raise e) = raise e
  of_json (return body) = without_errors body

  abbrev of_reply : Reply → Result Fields
  of_reply (timed_out message) = raise connector_timeout
  of_reply (transport_failed message) = raise connector_error
  of_reply (responded status_code body) =
      if status_code == 200 then of_json (client.json body) else raise connector_error

  -- `_graphql`
  unfoldable pub graphql : (operation : String) → (variables : Fields) → Result Fields
  graphql operation variables = of_reply (
      client.send (endpoint config)
        (field "query" (text operation) (field "variables" (object variables) end)))

  abbrev account_id : Json
  account_id = integer false config.account_id

  abbrev has_account : Fields → Bool
  has_account fields = elim (Json.get "account" (get_object "actor" fields)) [
    | none ↦ false
    | some account ↦ truthy account
  ]

  abbrev unhealthy : String → (kind : String) → ConnectorHealth
  unhealthy error kind = record {
    healthy = false;
    error = some error;
    details = field "kind" (text kind) end;
  }

  abbrev health_of : (str : Exception → String) → Result Fields → Result ConnectorHealth
  health_of str (return fields) =
      if has_account fields
      then return (record { healthy = true; error = none; details = end })
      else return (unhealthy "Account not visible to this API key." "account_not_found")
  health_of str (raise e) =
      if str_eq (class_name e) "ConnectorTimeout"
      then return (unhealthy (str e) "timeout")
      else if str_eq (class_name e) "ConnectorError"
      then return (unhealthy (str e) "http_error")
      else raise e

  -- `str` is `str(exc)`.
  unfoldable pub health_check : (str : Exception → String) → Result ConnectorHealth
  unfolding graphql
  health_check str = health_of str (graphql ops.health_gql (field "accountId" account_id end))

  unfoldable pub capped_rows : (nrql : String) → List Json → ConnectorResult
  unfolding cap sum_keys
  capped_rows nrql rows =
      let (results, truncated) = cap config.max_series rows in
      record {
        success = true;
        payload =
            field "nrql" (text nrql)
              (field "results" (array (to_items results)) (field "truncated" (bool truncated) end));
        series_count = length results;
        point_count = sum_keys results;
        error = none;
      }

  abbrev of_block : (nrql : String) → Option Json → ConnectorResult
  of_block nrql (some (array rows)) = capped_rows nrql (items_of rows)
  of_block nrql _ = failure end "NerdGraph returned no NRQL results block."

  abbrev of_data :
      (str : Exception → String) → (nrql : String) → Result Fields → Result ConnectorResult
  of_data str nrql (return fields) = return (
      of_block nrql
        (Json.get "results" (get_object "nrql" (get_object "account" (get_object "actor" fields)))))
  of_data str nrql (raise e) =
      if str_eq (class_name e) "ConnectorError" then return (failure end (str e)) else raise e

  -- `_run_nrql`
  unfoldable pub run_nrql : (str : Exception → String) → (nrql : String) → Result ConnectorResult
  unfolding graphql capped_rows
  run_nrql str nrql =
      of_data str nrql
        (graphql ops.nrql_gql (field "accountId" account_id (field "nrql" (text nrql) end)))

  abbrev run_built : (str : Exception → String) → Result String → Result ConnectorResult
  run_built str (raise e) = raise e
  run_built str (return nrql) = run_nrql str nrql

  unfoldable pub query : (str : Exception → String) → ConnectorQuery → Result ConnectorResult
  unfolding run_nrql
  query str (nrql_query none start finish) = raise connector_error
  query str (nrql_query (some intent) start finish) =
      run_built str (build client.text intent start finish)
  query str (promql_query intent start finish step) = raise (other "ConnectorUnsupported")
  query str (other_query kind) = raise (other "ConnectorUnsupported")

  abbrev names_of : List Json → List String
  names_of [] = []
  names_of (name ∷ names) = client.str name ∷ names_of names

  abbrev of_names : Result ConnectorResult → Result (List String)
  of_names (raise e) = raise e
  of_names (return result) =
      if result.success
      then return (names_of (first_list_value (array_or_empty (Json.get "results" result.payload))))
      else raise connector_error

  -- The names of the metrics; type, labels, unit and help text are not known.
  unfoldable pub discover_metrics :
      (str : Exception → String) → (selector : Labels) → Result (List String)
  unfolding run_nrql first_list_value
  discover_metrics str selector =
      of_names (run_nrql str (metric_discovery_query client.text selector 1000))

  abbrev of_probe : Result ConnectorResult → Result ConnectorResult
  of_probe (raise e) = raise e
  of_probe (return result) =
      if result.success
      then return (record {
        success = true;
        payload = result.payload;
        series_count = first_number_value (array_or_empty (Json.get "results" result.payload));
        point_count = 0;
        error = none;
      })
      else return result

  unfoldable pub probe_selector :
      (str : Exception → String) → (selector : Labels) → Result ConnectorResult
  unfolding run_nrql first_number_value
  probe_selector str selector = of_probe (run_nrql str (selector_probe_query client.text selector))
