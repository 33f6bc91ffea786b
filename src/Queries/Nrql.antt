-- ===== src/Queries/Nrql.antt =====
-- connectors/newrelic/queries.py: intents as NRQL. Times are in seconds since the epoch.
pub mod Conditions
use Prim.Native.Char.{Char}
use Prim.Native.String as Native
use text.Mathlib.Text.{starts_with, find?}
use nightswatch.Prelude.{
  ℕ, String, Bool, true, false, not, ◌||◌, Option, none, some, List, [], ◌∷◌, map, contains,
  is_empty, ltb, str_eq, if◌then◌else◌,
}
use nightswatch.Action.{other, Result, return, raise}
use nightswatch.Context.{Millionths}
use nightswatch.Database.{Labels}
use nightswatch.Alert.Fingerprint.{sort_labels}
use nightswatch.Queries.{
  QueryIntent, rate_over_window, aggregation, percentile, change_over_time, raw_nrql, Inner, absent,
  inner, PyText, parts, join, occurs, remove, escape,
}

abbrev pub single_quote : Char
single_quote = "'"

abbrev pub backtick : Char
backtick = "`"

abbrev pub escape_string : String → String
escape_string value = escape single_quote value

unfoldable pub ident : String → String
unfolding remove
ident name = parts ("`" ∷ remove backtick name ∷ "`" ∷ [])

abbrev pub condition : String × String → String
condition (k, v) = parts (ident k ∷ " = '" ∷ escape_string v ∷ "'" ∷ [])

unfoldable pub where_clause : Labels → String
unfolding sort_labels
where_clause [] = ""
where_clause (label ∷ labels) =
    parts (" WHERE " ∷ join " AND " (map condition (sort_labels (label ∷ labels))) ∷ [])

abbrev allowed_ops : List String
allowed_ops = "sum" ∷ "avg" ∷ "max" ∷ "min" ∷ "count" ∷ []

abbrev pub max_raw_len : ℕ
max_raw_len = 4096

abbrev connector_error : {A : Type 0} → Result A
connector_error = raise (other "ConnectorError")

abbrev unsupported : {A : Type 0} → Result A
unsupported = raise (other "ConnectorUnsupported")

module _ (py : PyText) where
  unfoldable pub since : (window_seconds : ℕ) (start end : Option ℕ) → String
  since window_seconds none end = parts (" SINCE " ∷ py.str window_seconds ∷ " seconds ago" ∷ [])
  since window_seconds (some start) none = parts (" SINCE " ∷ py.str start ∷ [])
  since window_seconds (some start) (some end) =
      parts (" SINCE " ∷ py.str start ∷ " UNTIL " ∷ py.str end ∷ [])

  -- `stripped.lstrip()` is `stripped`.
  unfoldable pub validate_raw : String → Result String
  validate_raw query =
      let stripped = py.strip query in
      if str_eq stripped ""
      then connector_error
      else if ltb max_raw_len (Native.count stripped)
      then connector_error
      else if occurs ";" stripped
      then connector_error
      else if starts_with (py.upper stripped) "SELECT" || starts_with (py.upper stripped) "FROM"
      then return stripped
      else connector_error

  abbrev select_from :
      (select : String) → Labels → (window_seconds : ℕ) (start end : Option ℕ) → String
  select_from select labels w start end =
      parts ("SELECT " ∷ select ∷ " FROM Metric" ∷ where_clause labels ∷ since w start end ∷ [])

  abbrev rate_of : (op metric : String) → String
  rate_of op m = parts ("rate(" ∷ op ∷ "(" ∷ ident m ∷ "), 1 minute)" ∷ [])

  abbrev percentile_of : Millionths → (metric : String) → String
  percentile_of p m = parts ("percentile(" ∷ ident m ∷ ", " ∷ py.percent p ∷ ")" ∷ [])

  abbrev facet : List String → String
  facet [] = ""
  facet (b ∷ by) = parts (" FACET " ∷ join ", " (map ident (b ∷ by)) ∷ [])

  -- The rest of the case of an aggregation, once its operation is allowed.
  unfoldable pub build_aggregation :
      (op : String) (by : List String) → Inner → (start end : Option ℕ) → Result String
  unfolding where_clause since
  build_aggregation op by (inner (rate_over_window m labels w)) start end =
      return (parts (select_from (rate_of op m) labels w start end ∷ facet by ∷ []))
  build_aggregation op by (inner (percentile p m labels w)) start end =
      return (parts (select_from (percentile_of p m) labels w start end ∷ facet by ∷ []))
  build_aggregation op by (inner (change_over_time m labels w)) start end = return (
      parts
        (select_from (parts (op ∷ "(" ∷ ident m ∷ ")" ∷ [])) labels w start end ∷ facet by ∷ []))
  build_aggregation op by _ start end = unsupported

  -- Bounds are only appended where the author set no window.
  abbrev with_bounds : Result String → (start end : Option ℕ) → Result String
  with_bounds (raise e) start end = raise e
  with_bounds (return nrql) none end = return nrql
  with_bounds (return nrql) (some start) end =
      if occurs "SINCE" (py.upper nrql)
      then return nrql
      else return (parts (nrql ∷ since 0 (some start) end ∷ []))

  unfoldable pub build : QueryIntent → (start end : Option ℕ) → Result String
  unfolding validate_raw build_aggregation
  build (raw_nrql q) start end = with_bounds (validate_raw q) start end
  build (rate_over_window m labels w) start end =
      return (select_from (rate_of "sum" m) labels w start end)
  build (change_over_time m labels w) start end =
      return (
        select_from (parts ("max(" ∷ ident m ∷ ") - min(" ∷ ident m ∷ ")" ∷ [])) labels w start end)
  build (percentile p m labels w) start end =
      return (select_from (percentile_of p m) labels w start end)
  build (aggregation op by i) start end =
      if contains op allowed_ops then build_aggregation op by i start end else connector_error
  build _ start end = unsupported

  unfoldable pub metric_discovery_query : (selector : Labels) (limit : ℕ) → String
  unfolding where_clause
  metric_discovery_query selector limit = parts (
      "SELECT uniques(metricName, "
      ∷ py.str limit
      ∷ ") FROM Metric"
      ∷ where_clause selector
      ∷ " SINCE 1 day ago"
      ∷ [])

  unfoldable pub selector_probe_query : (selector : Labels) → String
  unfolding where_clause
  selector_probe_query selector = parts (
      "SELECT uniqueCount(metricName) FROM Metric"
      ∷ where_clause selector
      ∷ " SINCE 1 hour ago"
      ∷ [])
