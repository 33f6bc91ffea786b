-- ===== src/Connectors/Requests.antt =====
-- connectors/base.py: the results of the connectors, and what they use of httpx and of JSON. A request is
-- answered at once, so that latencies are left out.
use nightswatch.Prelude.{
  ℕ, String, Bool, true, false, Option, some, List, [], ◌∷◌, length, take, ltb, if◌then◌else◌,
}
use nightswatch.Json.{Json, array, object, Items, nil, cons, Fields, end}
use nightswatch.Action.{Exception, other, Result}
use nightswatch.Queries.{QueryIntent, PyText}
use nightswatch.Stages.{items_of}

-- `httpx.TimeoutException`, any other `httpx.HTTPError`, or a response.
pub data Reply : Type 0 where
  timed_out transport_failed : (message : String) → Reply
  responded : (status_code : ℕ) (body : String) → Reply

-- `send` is a GET of a path, or a POST of a body to the endpoint; `json` is `r.json()`, for the
-- dictionaries that both backends answer with; `slice` is `text[:n]`.
pub record Client : Type 0 where
  pub send : (path : String) → Fields → Reply
  pub json : String → Result Fields
  pub str : Json → String
  pub slice : ℕ → String → String
  pub text : PyText

-- The field `data` is `payload` here.
pub record ConnectorResult : Type 0 where
  pub success : Bool
  pub payload : Fields
  pub series_count : ℕ
  pub point_count : ℕ
  pub error : Option String

pub record ConnectorHealth : Type 0 where
  pub healthy : Bool
  pub error : Option String
  pub details : Fields

-- `PromQLQuery` and `NRQLQuery`, or any other query by the name of its class. Bounds are in seconds.
pub data ConnectorQuery : Type 0 where
  promql_query :
      (intent : Option QueryIntent) (start end : Option ℕ) (step_seconds : ℕ) → ConnectorQuery
  nrql_query : (intent : Option QueryIntent) (start end : Option ℕ) → ConnectorQuery
  other_query : (kind : String) → ConnectorQuery

abbrev pub connector_timeout : Exception
connector_timeout = other "ConnectorTimeout"

abbrev pub connector_error : Exception
connector_error = other "ConnectorError"

abbrev pub failure : (payload : Fields) → String → ConnectorResult
failure payload error = record {
  success = false;
  payload = payload;
  series_count = 0;
  point_count = 0;
  error = some error;
}

-- `body.get(key) or []`, and `body.get(key) or {}`; a backend answers with an array or an object, or
-- leaves the key out.
abbrev pub array_or_empty : Option Json → List Json
array_or_empty (some (array items)) = items_of items
array_or_empty _ = []

abbrev pub object_or_empty : Option Json → Fields
object_or_empty (some (object fields)) = fields
object_or_empty _ = end

abbrev pub to_items : List Json → Items
to_items [] = nil
to_items (x ∷ xs) = cons x (to_items xs)

-- The rows up to the limit, and whether there were more.
unfoldable pub cap : (max_series : ℕ) → List Json → List Json × Bool
cap max_series rows =
    if ltb max_series (length rows) then (take max_series rows, true) else (rows, false)
