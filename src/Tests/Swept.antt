-- ===== src/Tests/Swept.antt =====
-- What the connectors find.
use Prim.Native.Char.{Char}
use nightswatch.Prelude.{◌≡◌, refl, Bool, true, false, none, some, [], ◌∷◌}
use nightswatch.Json.{integer, text, array, object, Items, nil, cons, Fields, end, field}
use nightswatch.Action.{return}
use nightswatch.Database.{Labels}
use nightswatch.Queries.{change_over_time}
use nightswatch.Queries.Promql.{build, labels_selector}
use nightswatch.Connectors.{PrometheusConfig}
use nightswatch.Connectors.Requests.{
  responded, Client, ConnectorResult, ConnectorQuery, promql_query, cap,
}
use nightswatch.Connectors.Prometheus.{
  MetricEntry, Sweeps, alter, add_sample, group_labels, group_series, sort_texts, insert_text,
  insert_key, sort_keys, sort_values, infer_unit_from, entry_of, entries_of, discover_metrics,
}
use nightswatch.Connectors.Prometheus.Sampled.{AllSampled, discover_metrics-AllSampled}
use nightswatch.Connectors.Prometheus.Topology.{
  DiscoveredDependency, set_default, see_value, see_keys, see_series, values_of, discover_topology,
}
use nightswatch.Connectors.Prometheus.Topology.Distinct.{Found, discover_topology-Found}
use nightswatch.Connectors.Prometheus.Api.{capped_result, sum_points, execute, query}
use nightswatch.Connectors.Prometheus.Api.Capped.{FailedOr, query-FailedOr}
use nightswatch.Tests.Rendering.{py}

abbrev labelset : Labels
labelset =
    ("__name__", "up") ∷ ("app", "checkout") ∷ ("client", "gateway") ∷ ("dst", "checkout") ∷ []

abbrev sweeps : Sweeps
sweeps = record { get_series = λ matcher. return (labelset ∷ labelset ∷ []); metadata = [] }

abbrev gateway : DiscoveredDependency
gateway = record { direction = "upstream"; name = "gateway"; via_label = "client" }

found : discover_topology sweeps (("app", "checkout") ∷ []) ≡ return (gateway ∷ [])
unfolding discover_topology see_series see_keys see_value set_default
found = refl

discover_topology-Found_example : Found (values_of (("app", "checkout") ∷ [])) (gateway ∷ [])
discover_topology-Found_example =
    discover_topology-Found sweeps (("app", "checkout") ∷ []) (gateway ∷ []) found

abbrev up : MetricEntry
up = record {
  name = "up";
  kind = "unknown";
  labels = ("app", "checkout" ∷ []) ∷ ("client", "gateway" ∷ []) ∷ ("dst", "checkout" ∷ []) ∷ [];
  unit = none;
  help_text = none;
  truncated = false;
}

catalogued : discover_metrics sweeps (("app", "checkout") ∷ []) ≡ return (up ∷ [])
unfolding discover_metrics group_series group_labels alter add_sample sort_keys insert_key
    entries_of entry_of infer_unit_from sort_values sort_texts insert_text
catalogued = refl

discover_metrics-AllSampled_example : AllSampled (up ∷ [])
discover_metrics-AllSampled_example =
    discover_metrics-AllSampled sweeps (("app", "checkout") ∷ []) (up ∷ []) catalogued

abbrev body : Fields
body = field "status" (text "success") (
    field "data" (object (field "result" (array (cons (object end) (cons (object end) nil))) end))
      end)

abbrev client : Client
client = record {
  send = λ path params. responded 200 "body";
  json = λ s. return body;
  str = λ value. "";
  slice = λ n s. s;
  text = py;
}

abbrev config : PrometheusConfig
config = record {
  base_url = "http://p";
  auth = record { kind = none; bearer_token = none; basic_user = none; basic_password = none };
  query_timeout_seconds = 10;
  max_points = 10;
  max_series = 1;
}

abbrev no_char : Char → Bool
no_char c = false

abbrev increase : ConnectorQuery
increase = promql_query (some (change_over_time "errors" [] 60)) none none 30

abbrev one_row : ConnectorResult
one_row = record {
  success = true;
  payload = field "resultType" nightswatch.Json.null (
      field "result" (array (cons (object end) nil)) (
        field "promql" (text "delta(errors[300s])")
          (field "truncated" (nightswatch.Json.bool true) end)));
  series_count = 1;
  point_count = 0;
  error = none;
}

queried : query client config no_char no_char increase ≡ return one_row
unfolding query execute capped_result cap sum_points build labels_selector nightswatch.Json.get
queried = refl

query-FailedOr_example : FailedOr client config one_row
query-FailedOr_example = query-FailedOr client config no_char no_char increase one_row queried
