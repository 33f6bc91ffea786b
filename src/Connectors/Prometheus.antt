-- ===== src/Connectors/Prometheus.antt =====
-- connectors/prometheus/catalog.py: the catalog of the metrics of a service, found in the label sets of its
-- series.
pub mod Topology
pub mod Api
pub mod Sampled
use Prim.Native.Char.{Char}
use Prim.Native.String as Native
use package.text.Mathlib.Text.{is_le}
use nightswatch.Prelude.{
  ℕ, suc, ◌-◌, String, Bool, true, false, not, ◌&&◌, ◌||◌, Option, none, some, List, [], ◌∷◌, ◌++◌,
  length, lookup, contains, ltb, str_eq, if◌then◌else◌,
}
use nightswatch.Json.{Json, null, bool, text, array, object, Items, nil, cons, Fields, end, field}
use nightswatch.Action.{Result, return, raise}
use nightswatch.Database.{Labels}
use nightswatch.Queries.Promql.{labels_selector}

abbrev pub max_series_per_metric : ℕ
max_series_per_metric = 1000

abbrev pub max_sample_values_per_label : ℕ
max_sample_values_per_label = 20

-- A suffix of the name, and the unit that it implies.
abbrev pub unit_suffixes : Labels
unit_suffixes =
    ("_seconds_total", "seconds")
    ∷ ("_seconds", "seconds")
    ∷ ("_bytes_total", "bytes")
    ∷ ("_bytes", "bytes")
    ∷ ("_ratio", "ratio")
    ∷ ("_total", "")
    ∷ []

-- `str.endswith`
abbrev ends_with : String → String → Bool
ends_with s suffix =
    str_eq (Native.slice s (Native.len s - Native.len suffix) (Native.len s)) suffix

abbrev or_none : String → Option String
or_none s = if str_eq s "" then none else some s

unfoldable pub infer_unit_from : Labels → String → Option String
infer_unit_from [] metric_name = none
infer_unit_from ((suffix, unit) ∷ suffixes) metric_name =
    let rest = infer_unit_from suffixes metric_name in
    if ends_with metric_name suffix then or_none unit else rest

-- An entry of `/api/v1/metadata`; a key that is missing is `none`.
pub record Meta : Type 0 where
  pub kind : Option String
  pub unit : Option String
  pub help : Option String

pub record MetricEntry : Type 0 where
  pub name : String
  pub kind : String
  pub labels : List (String × List String)
  pub unit : Option String
  pub help_text : Option String
  pub truncated : Bool

-- The value under a key of a `defaultdict` is replaced; a new key stands last.
unfoldable pub alter {ℓ} :
    {V : Type ℓ} → (default : V) → String → (V → V) → List (String × V) → List (String × V)
alter default k f [] = (k, f default) ∷ []
alter default k f ((j, v) ∷ d) =
    let rest = alter default k f d in if str_eq j k then (j, f v) ∷ d else (j, v) ∷ rest

-- A set, in the order of insertion.
abbrev add_to_set : String → List String → List String
add_to_set value values = if contains value values then values else values ++ value ∷ []

unfoldable pub add_sample : String → List String → List String
add_sample value values =
    if ltb (length values) max_sample_values_per_label then add_to_set value values else values

abbrev pub Grouped : Type 0
Grouped = List (String × List (String × List String))

-- The inner loop, over the labels of one series.
unfoldable pub group_labels : (name : String) → Labels → Grouped → Grouped
unfolding alter add_sample
group_labels name [] grouped = grouped
group_labels name ((key, value) ∷ labelset) grouped = group_labels name labelset (
    if str_eq key "__name__"
    then grouped
    else alter [] name (alter [] key (add_sample value)) grouped)

-- `grouped` and `series_counts`.
abbrev pub Sweep : Type 0
Sweep = Grouped × List (String × ℕ)

abbrev group_named : Option String → Labels → Sweep → Sweep
group_named none labelset sweep = sweep
group_named (some name) labelset (grouped, counts) =
    if str_eq name ""
    then (grouped, counts)
    else (group_labels name labelset grouped, alter 0 name suc counts)

unfoldable pub group_series : List Labels → Sweep → Sweep
unfolding group_labels
group_series [] sweep = sweep
group_series (labelset ∷ series) sweep =
    group_series series (group_named (lookup "__name__" labelset) labelset sweep)

-- `sorted`, of texts and of the keys of a dictionary.
unfoldable pub insert_text : String → List String → List String
insert_text s [] = s ∷ []
insert_text s (t ∷ ts) =
    let rest = insert_text s ts in if is_le (Native.compare s t) then s ∷ t ∷ ts else t ∷ rest

unfoldable pub sort_texts : List String → List String
unfolding insert_text
sort_texts [] = []
sort_texts (s ∷ ss) = insert_text s (sort_texts ss)

unfoldable pub insert_key {ℓ} : {V : Type ℓ} → String × V → List (String × V) → List (String × V)
insert_key e [] = e ∷ []
insert_key e (f ∷ fs) =
    let rest = insert_key e fs in if is_le (Native.compare e.0 f.0) then e ∷ f ∷ fs else f ∷ rest

unfoldable pub sort_keys {ℓ} : {V : Type ℓ} → List (String × V) → List (String × V)
unfolding insert_key
sort_keys [] = []
sort_keys (e ∷ es) = insert_key e (sort_keys es)

unfoldable pub sort_values : List (String × List String) → List (String × List String)
unfolding sort_texts
sort_values [] = []
sort_values ((key, vals) ∷ labels) = (key, sort_texts vals) ∷ sort_values labels

-- `(metadata.get(name) or [{}])[0]`
abbrev no_meta : Meta
no_meta = record { kind = none; unit = none; help = none }

abbrev first_meta : Option (List Meta) → Meta
first_meta (some (meta ∷ metas)) = meta
first_meta _ = no_meta

abbrev set_or : Option String → Option String → Option String
set_or none default = default
set_or (some s) default = if str_eq s "" then default else some s

abbrev or_unknown : Option String → String
or_unknown none = "unknown"
or_unknown (some s) = if str_eq s "" then "unknown" else s

abbrev or_zero : Option ℕ → ℕ
or_zero none = 0
or_zero (some n) = n

unfoldable pub entry_of :
    List (String × List Meta)
    → List (String × ℕ)
    → String × List (String × List String)
    → MetricEntry
unfolding infer_unit_from sort_values
entry_of metadata counts (name, labels) =
    let meta = first_meta (lookup name metadata) in
    record {
      name = name;
      kind = or_unknown meta.kind;
      labels = sort_values labels;
      unit = set_or meta.unit (infer_unit_from unit_suffixes name);
      help_text = set_or meta.help none;
      truncated = ltb max_series_per_metric (or_zero (lookup name counts));
    }

unfoldable pub entries_of :
    List (String × List Meta) → List (String × ℕ) → Grouped → List MetricEntry
unfolding entry_of
entries_of metadata counts [] = []
entries_of metadata counts (g ∷ gs) = entry_of metadata counts g ∷ entries_of metadata counts gs

-- The two sweeps of the connector: the series that match, and the metadata, which never raises.
pub record Sweeps : Type 0 where
  pub get_series : (matcher : String) → Result (List Labels)
  pub metadata : List (String × List Meta)

-- The matcher of a selector with labels is that of a query.
module _ (sweeps : Sweeps) where
  abbrev of_series : Result (List Labels) → Result (List MetricEntry)
  of_series (raise e) = raise e
  of_series (return series) =
      let (grouped, counts) = group_series series ([], []) in
      return (entries_of sweeps.metadata counts (sort_keys grouped))

  -- `MetricCatalogDiscovery.discover`
  unfoldable pub discover_metrics : (selector : Labels) → Result (List MetricEntry)
  unfolding group_series sort_keys entries_of
  discover_metrics [] = return []
  discover_metrics (label ∷ selector) =
      of_series (sweeps.get_series (labels_selector (label ∷ selector)))
