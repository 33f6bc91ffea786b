-- ===== src/Connectors/Prometheus/Topology.antt =====
-- connectors/prometheus/catalog.py: the dependencies of a service, from the labels that by convention name a
-- neighbour.
pub mod Distinct
use nightswatch.Prelude.{
  String, Bool, true, false, not, ◌&&◌, ◌||◌, Option, none, some, List, [], ◌∷◌, ◌++◌, lookup,
  contains, str_eq, if◌then◌else◌,
}
use nightswatch.Action.{Result, return, raise}
use nightswatch.Database.{Labels}
use nightswatch.Queries.Promql.{labels_selector}
use nightswatch.Connectors.Prometheus.{Sweeps}

pub record DiscoveredDependency : Type 0 where
  pub direction : String
  pub name : String
  pub via_label : String

-- `TopologyConventions`
abbrev pub upstream_labels : List String
upstream_labels = "upstream" ∷ "client" ∷ "source_service" ∷ []

abbrev pub downstream_labels : List String
downstream_labels = "dst" ∷ "target" ∷ "downstream_service" ∷ "peer_service" ∷ []

abbrev pub is_edge : (direction name : String) → DiscoveredDependency → Bool
is_edge direction name d = str_eq d.direction direction && str_eq d.name name

abbrev pub has_edge : (direction name : String) → List DiscoveredDependency → Bool
has_edge direction name [] = false
has_edge direction name (d ∷ deps) = is_edge direction name d || has_edge direction name deps

-- `seen.setdefault((direction, value), key)`
unfoldable pub set_default :
    (direction name via : String) → List DiscoveredDependency → List DiscoveredDependency
set_default direction name via seen =
    if has_edge direction name seen
    then seen
    else seen ++ record { direction = direction; name = name; via_label = via } ∷ []

abbrev pub values_of : Labels → List String
values_of [] = []
values_of ((k, v) ∷ labels) = v ∷ values_of labels

-- The innermost round, for what the series has under the convention label.
unfoldable pub see_value :
    (own : List String) (direction key : String)
    → Option String
    → List DiscoveredDependency
    → List DiscoveredDependency
unfolding set_default
see_value own direction key none seen = seen
see_value own direction key (some name) seen =
    if str_eq name "" || contains name own then seen else set_default direction name key seen

unfoldable pub see_keys :
    (own : List String) (direction : String) (labelset : Labels)
    → List String
    → List DiscoveredDependency
    → List DiscoveredDependency
unfolding see_value
see_keys own direction labelset [] seen = seen
see_keys own direction labelset (key ∷ keys) seen =
    see_keys own direction labelset keys (see_value own direction key (lookup key labelset) seen)

unfoldable pub see_series :
    (own : List String) → List Labels → List DiscoveredDependency → List DiscoveredDependency
unfolding see_keys
see_series own [] seen = seen
see_series own (labelset ∷ series) seen = see_series own series (
    see_keys own "downstream" labelset downstream_labels
      (see_keys own "upstream" labelset upstream_labels seen))

module _ (sweeps : Sweeps) where
  abbrev edges_of : (own : List String) → Result (List Labels) → Result (List DiscoveredDependency)
  edges_of own (raise e) = raise e
  edges_of own (return series) = return (see_series own series [])

  -- `TopologyDiscovery.discover`
  unfoldable pub discover_topology : (selector : Labels) → Result (List DiscoveredDependency)
  unfolding see_series
  discover_topology [] = return []
  discover_topology (label ∷ selector) =
      edges_of (values_of (label ∷ selector))
        (sweeps.get_series (labels_selector (label ∷ selector)))
