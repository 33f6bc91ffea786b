-- ===== src/Queries/Promql.antt =====
-- connectors/prometheus/queries.py: intents as PromQL, and the filter of raw queries.
pub mod Selectors
use Prim.Native.Char.{Char, code}
use Prim.Native.String as Native
use text.Mathlib.Text.{starts_with, find?}
use nightswatch.Prelude.{
  ℕ, String, Bool, true, false, not, ◌||◌, ◌&&◌, Option, none, some, List, [], ◌∷◌, map, ltb, leb,
  str_eq, if◌then◌else◌,
}
use nightswatch.Action.{other, Result, return, raise}
use nightswatch.Database.{Labels}
use nightswatch.Alert.Fingerprint.{sort_labels}
use nightswatch.Queries.{
  QueryIntent, rate_over_window, aggregation, percentile, change_over_time, raw_promql, raw_nrql,
  Inner, absent, inner, PyText, parts, join, escape, is_char, occurs,
}

abbrev pub double_quote : Char
double_quote = "\""

abbrev pub pair : String × String → String
pair (k, v) = parts (k ∷ "=\"" ∷ escape double_quote v ∷ "\"" ∷ [])

unfoldable pub labels_selector : Labels → String
unfolding sort_labels
labels_selector [] = ""
labels_selector (label ∷ labels) =
    parts ("{" ∷ join "," (map pair (sort_labels (label ∷ labels))) ∷ "}" ∷ [])

abbrev connector_error : {A : Type 0} → Result A
connector_error = raise (other "ConnectorError")

abbrev forbidden_tokens : List String
forbidden_tokens = "alerts{" ∷ "alertstate=" ∷ "count_values(" ∷ []

abbrev any_occurs : List String → String → Bool
any_occurs [] s = false
any_occurs (token ∷ tokens) s = occurs token s || any_occurs tokens s

abbrev is_digit : Char → Bool
is_digit c = leb b'0' (code c) && leb (code c) b'9'

-- `\s` and `\w` of the regular expressions.
module _ (is_space is_word : Char → Bool) where
  abbrev opens : Char → Bool
  opens c = is_space c || (is_char c "(" || (is_char c "," || is_char c "["))

  -- `_BARE_SELECTOR.search(q)`; `bare` says that a selector that starts here has no metric name.
  unfoldable pub bare_selector : (bare : Bool) → String → Bool
  bare_selector bare String.[] = false
  bare_selector bare (String.◌∷◌ c s) =
      let rest = bare_selector (opens c) s in (bare && is_char c "{") || rest

  -- `\(\s*(?![0-9])`: the white space may match nothing, so the next character decides.
  abbrev no_digit : String → Bool
  no_digit String.[] = true
  no_digit (String.◌∷◌ c s) = not (is_digit c)

  unfoldable pub unbounded_from : String → Bool
  unbounded_from String.[] = false
  unbounded_from (String.◌∷◌ c s) =
      let rest = unbounded_from s in if is_space c then rest else is_char c "(" && no_digit s

  abbrev named : String → String → Bool
  named name s =
      starts_with s name && unbounded_from (Native.slice s (Native.len name) (Native.len s))

  -- `_UNBOUNDED_TOPK.search(q)`; `inside` says that the character before is part of a word.
  unfoldable pub unbounded_topk : (inside : Bool) → String → Bool
  unfolding unbounded_from
  unbounded_topk inside String.[] = false
  unbounded_topk inside (String.◌∷◌ c s) =
      let rest = unbounded_topk (is_word c) s in
      (not inside && (named "topk" (String.◌∷◌ c s) || named "bottomk" (String.◌∷◌ c s))) || rest

  module _ (py : PyText) where
    -- A query that starts with `{` is one with a bare selector.
    unfoldable pub parse_safe_promql : String → Result String
    unfolding bare_selector unbounded_topk
    parse_safe_promql query =
        let q = py.strip query in
        if str_eq q ""
        then connector_error
        else if ltb 4096 (Native.count q)
        then connector_error
        else if any_occurs forbidden_tokens (py.lower q)
        then connector_error
        else if bare_selector true q
        then connector_error
        else if unbounded_topk false q
        then connector_error
        else return q

    abbrev by_clause : List String → String
    by_clause [] = ""
    by_clause (b ∷ by) = parts (" by (" ∷ join "," (b ∷ by) ∷ ")" ∷ [])

    abbrev aggregated : (op : String) (by : List String) → Result String → Result String
    aggregated op by (raise e) = raise e
    aggregated op by (return expr) = return (parts (op ∷ by_clause by ∷ "(" ∷ expr ∷ ")" ∷ []))

    abbrev ranged : (function metric : String) → Labels → ℕ → String
    ranged function m labels w =
        parts (function ∷ "(" ∷ m ∷ labels_selector labels ∷ "[" ∷ py.str w ∷ "s])" ∷ [])

    unfoldable mutual
      unfolding labels_selector parse_safe_promql

      pub build : QueryIntent → Result String
      build (rate_over_window m labels w) = return (ranged "rate" m labels w)
      build (aggregation op by i) = aggregated op by (build_inner i)
      build (percentile p m labels w) = return (
          parts (
            "histogram_quantile("
            ∷ py.float p
            ∷ ", sum("
            ∷ ranged "rate" m labels w
            ∷ ") by (le))"
            ∷ []))
      build (change_over_time m labels w) = return (ranged "delta" m labels w)
      build (raw_promql q) = parse_safe_promql q
      build (raw_nrql q) = connector_error

      pub build_inner : Inner → Result String
      build_inner absent = return ""
      build_inner (inner i) = build i
