-- ===== src/Connectors/Prometheus/Api.antt =====
-- connectors/prometheus/connector.py: the requests of the connector.
pub mod Capped
use Prim.Native.Char.{Char}
use Prim.Native.String as Native
use nightswatch.Prelude.{
  ℕ, suc, ◌+◌, String, Bool, true, false, not, ◌&&◌, ◌||◌, Option, none, some, List, [], ◌∷◌, ◌++◌,
  length, ltb, ◌==◌, str_eq, if◌then◌else◌,
}
use nightswatch.Json
use nightswatch.Json.{Json, null, bool, integer, text, array, object, nil, cons, Fields, end, field}
use nightswatch.Action.{Exception, other, class_name, Result, return, raise}
use nightswatch.Queries.{QueryIntent, parts}
use nightswatch.Queries.Promql.{build}
use nightswatch.Stages.{truthy, items_of, keys_of}
use nightswatch.Connectors.{PrometheusConfig, PrometheusAuth}
use nightswatch.Connectors.Requests.{
  Reply, timed_out, transport_failed, responded, Client, ConnectorResult, ConnectorHealth,
  ConnectorQuery, promql_query, nrql_query, other_query, connector_timeout, connector_error,
  failure, array_or_empty, object_or_empty, to_items, cap,
}

abbrev is_text : String → Option Json → Bool
is_text expected (some (text s)) = str_eq s expected
is_text expected _ = false

abbrev is_truthy : Option Json → Bool
is_truthy none = false
is_truthy (some value) = truthy value

abbrev written : (str : Json → String) → Option Json → String
written str none = ""
written str (some value) = str value

-- `_auth_headers`
unfoldable pub auth_headers : (str : Json → String) → PrometheusAuth → Fields
auth_headers str auth =
    if is_text "bearer" auth.kind && is_truthy auth.bearer_token
    then field "Authorization" (text (parts ("Bearer " ∷ written str auth.bearer_token ∷ []))) end
    else end

abbrev is_there : Option Json → Bool
is_there none = false
is_there (some null) = false
is_there (some value) = true

-- `_basic_auth`
unfoldable pub basic_auth : PrometheusAuth → Option (Option Json × Option Json)
basic_auth auth =
    if is_text "basic" auth.kind && (is_there auth.basic_user && is_there auth.basic_password)
    then some (auth.basic_user, auth.basic_password)
    else none

-- `len(value)` of a value that is true; numbers and `true` have none.
abbrev length_of : Json → Result ℕ
length_of (text t) = return (Native.count t)
length_of (array items) = return (length (items_of items))
length_of (object fields) = return (length (keys_of fields))
length_of _ = raise (other "TypeError")

abbrev one_if : Bool → ℕ
one_if b = if b then 1 else 0

abbrev points_of : (values value : Option Json) → Result ℕ
points_of none value = return (one_if (is_truthy value))
points_of (some values) value =
    if truthy values then length_of values else return (one_if (is_truthy value))

-- The points of one series of a result: its values, or its one value.
abbrev points : Json → Result ℕ
points (object entry) = points_of (Json.get "values" entry) (Json.get "value" entry)
points _ = raise (other "AttributeError")

abbrev add_points : Result ℕ → Result ℕ → Result ℕ
add_points (raise e) more = raise e
add_points (return n) (raise e) = raise e
add_points (return n) (return m) = return (n + m)

unfoldable pub sum_points : List Json → Result ℕ
sum_points [] = return 0
sum_points (entry ∷ result) = add_points (points entry) (sum_points result)

-- `body.get("data", {})`, of which `get` is called.
abbrev pub data_of : Option Json → Result Fields
data_of none = return end
data_of (some (object fields)) = return fields
data_of (some _) = raise (other "AttributeError")

-- A result that is true has to have a length, and its entries have to have `get`.
abbrev rows_if : Bool → Json → Result (List Json)
rows_if false value = return []
rows_if true (array items) = return (items_of items)
rows_if true (text t) = raise (other "AttributeError")
rows_if true (object fields) = raise (other "AttributeError")
rows_if true _ = raise (other "TypeError")

-- `data.get("result", []) or []`
abbrev pub rows_of : Option Json → Result (List Json)
rows_of none = return []
rows_of (some value) = rows_if (truthy value) value

abbrev or_null : Option Json → Json
or_null none = null
or_null (some value) = value

abbrev or_message : (str : Json → String) → Option Json → String
or_message str none = "Prometheus error"
or_message str (some value) = str value

module _ (client : Client) (config : PrometheusConfig) where
  abbrev health_of : Reply → ConnectorHealth
  health_of (timed_out message) = record {
    healthy = false;
    error = some (parts ("timeout: " ∷ message ∷ []));
    details = field "kind" (text "timeout") end;
  }
  health_of (transport_failed message) = record {
    healthy = false;
    error = some message;
    details = field "kind" (text "http_error") end;
  }
  health_of (responded status_code body) =
      if status_code == 200
      then record { healthy = true; error = none; details = end }
      else record {
        healthy = false;
        error = some (parts ("HTTP " ∷ client.text.str status_code ∷ []));
        details = field "status_code" (integer false status_code) end;
      }

  unfoldable pub health_check : ConnectorHealth
  health_check = health_of (client.send "/-/healthy" end)

  abbrev successful : Result Fields → Result Fields
  successful (raise e) = raise e
  successful (return body) =
      if is_text "success" (Json.get "status" body) then return body else raise connector_error

  abbrev api_body : Reply → Result Fields
  api_body (timed_out message) = raise connector_timeout
  api_body (transport_failed message) = raise connector_error
  api_body (responded status_code body) =
      if status_code == 200 then successful (client.json body) else raise connector_error

  -- `_get_api`
  unfoldable pub get_api : (path : String) → Fields → Result Fields
  get_api path params = api_body (client.send path params)

  abbrev series_of : Result Fields → Result (List Json)
  series_of (raise e) = raise e
  series_of (return body) =
      let (series, truncated) = cap config.max_series (array_or_empty (Json.get "data" body)) in
      return series

  -- `get_series` of one matcher, without bounds of time.
  unfoldable pub get_series : (matcher : String) → Result (List Json)
  unfolding get_api cap
  get_series matcher =
      series_of (get_api "/api/v1/series" (field "match[]" (array (cons (text matcher) nil)) end))

  abbrev is_caught : Exception → Bool
  is_caught e = str_eq (class_name e) "ConnectorError" || str_eq (class_name e) "ConnectorTimeout"

  abbrev metadata_of : Result Fields → Result Fields
  metadata_of (return body) = return (object_or_empty (Json.get "data" body))
  metadata_of (raise e) = if is_caught e then return end else raise e

  unfoldable pub get_metadata : Result Fields
  unfolding get_api
  get_metadata = metadata_of (get_api "/api/v1/metadata" end)

  -- What is counted and kept of the rows of a result.
  unfoldable pub capped_result :
      (promql : String) → (payload : Fields) → List Json → (point_count : ℕ) → ConnectorResult
  unfolding cap
  capped_result promql payload rows point_count =
      let (result, truncated) = cap config.max_series rows in
      record {
        success = true;
        payload = field "resultType" (or_null (Json.get "resultType" payload)) (
            field "result" (array (to_items result))
              (field "promql" (text promql) (field "truncated" (bool truncated) end)));
        series_count =
            if ltb config.max_series (length rows) then config.max_series else length rows;
        point_count = point_count;
        error = none;
      }

  abbrev pub with_points :
      (promql : String) → Fields → List Json → Result ℕ → Result ConnectorResult
  with_points promql payload rows (raise e) = raise e
  with_points promql payload rows (return n) = return (capped_result promql payload rows n)

  abbrev pub with_rows : (promql : String) → Fields → Result (List Json) → Result ConnectorResult
  with_rows promql payload (raise e) = raise e
  with_rows promql payload (return rows) = with_points promql payload rows (sum_points rows)

  abbrev pub with_data : (promql : String) → Result Fields → Result ConnectorResult
  with_data promql (raise e) = raise e
  with_data promql (return payload) = with_rows promql payload (rows_of (Json.get "result" payload))

  abbrev of_body : (promql : String) → Result Fields → Result ConnectorResult
  of_body promql (raise e) = raise e
  of_body promql (return body) =
      if is_text "success" (Json.get "status" body)
      then with_data promql (data_of (Json.get "data" body))
      else return (
          failure (field "errorType" (or_null (Json.get "errorType" body)) end)
            (or_message client.str (Json.get "error" body)))

  abbrev of_reply : (promql : String) → Reply → Result ConnectorResult
  of_reply promql (timed_out message) = raise connector_timeout
  of_reply promql (transport_failed message) =
      return (failure end (parts ("HTTP transport: " ∷ message ∷ [])))
  of_reply promql (responded status_code body) =
      if status_code == 200
      then of_body promql (client.json body)
      else return (
          failure
            (field "status_code" (integer false status_code)
              (field "body" (text (client.slice 512 body)) end))
            (parts ("Prometheus returned HTTP " ∷ client.text.str status_code ∷ [])))

  abbrev seconds : ℕ → String
  seconds n = parts (client.text.str n ∷ "s" ∷ [])

  -- A range is asked for where both bounds are there.
  abbrev path_of : Option ℕ → Option ℕ → String
  path_of (some start) (some finish) = "/api/v1/query_range"
  path_of _ _ = "/api/v1/query"

  abbrev bounds_of : Option ℕ → Option ℕ → ℕ → Fields
  bounds_of (some start) (some finish) step =
      field "start" (integer false start)
        (field "end" (integer false finish) (field "step" (text (seconds step)) end))
  bounds_of _ _ step = end

  unfoldable pub execute :
      (promql : String) (start finish : Option ℕ) (step : ℕ) → Result ConnectorResult
  unfolding capped_result sum_points
  execute promql start finish step = of_reply promql (
      client.send (path_of start finish) (
        field "query" (text promql) (
          field "timeout" (text (seconds config.query_timeout_seconds))
            (bounds_of start finish step))))

  module _ (is_space is_word : Char → Bool) where
    abbrev run : Result String → Option ℕ → Option ℕ → ℕ → Result ConnectorResult
    run (raise e) start finish step = raise e
    run (return promql) start finish step = execute promql start finish step

    unfoldable pub query : ConnectorQuery → Result ConnectorResult
    unfolding execute
    query (promql_query none start finish step) = raise connector_error
    query (promql_query (some intent) start finish step) =
        run (build is_space is_word client.text intent) start finish step
    query (nrql_query intent start finish) = raise (other "ConnectorUnsupported")
    query (other_query kind) = raise (other "ConnectorUnsupported")
