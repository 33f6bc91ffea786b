-- ===== src/Connectors/Prometheus/Topology/Distinct.antt =====
-- The dependencies that a sweep finds.
use nightswatch.Prelude.{
  String, ◌≡◌, ◌⊎◌, inl, inr, refl, Bool, true, false, ◌||◌, Bool-cases, Option, none, some, List,
  [], ◌∷◌, ◌++◌, lookup, contains, str_eq, eq_iff, arith,
}
use mathlib.Core.Path.{subst}
use nightswatch.Action.{Result, return, raise}
use nightswatch.Database.{Labels}
use nightswatch.Queries.Promql.{labels_selector}
use nightswatch.Connectors.Prometheus.{Sweeps}
use nightswatch.Connectors.Prometheus.Topology.{
  DiscoveredDependency, upstream_labels, downstream_labels, is_edge, has_edge, set_default,
  values_of, see_value, see_keys, see_series, edges_of, discover_topology,
}

-- No two edges have the same direction and name.
abbrev pub Distinct : List DiscoveredDependency → Type 0
Distinct [] = Unit
Distinct (d ∷ deps) = (has_edge d.direction d.name deps ≡ false) × Distinct deps

-- Every name is written, is not one of `own`, and is of one of the two directions.
abbrev pub AllForeign : (own : List String) → List DiscoveredDependency → Type 0
AllForeign own [] = Unit
AllForeign own (d ∷ deps) =
    (str_eq d.name "" ≡ false)
    × (contains d.name own ≡ false)
    × ((d.direction ≡ "upstream") ⊎ (d.direction ≡ "downstream"))
    × AllForeign own deps

or_false : (a b : Bool) → a || b ≡ false → (a ≡ false) × (b ≡ false)
or_false true b h = absurd (cc)
or_false false b h = (refl, h)

has_edge-append :
    (direction name : String) (deps : List DiscoveredDependency) (e : DiscoveredDependency)
    → has_edge direction name deps ≡ false
    → is_edge direction name e ≡ false
    → has_edge direction name (deps ++ e ∷ []) ≡ false
has_edge-append direction name [] e h new = rw new
has_edge-append direction name (d ∷ deps) e h new =
    let (other, rest) = or_false (is_edge direction name d) (has_edge direction name deps) h in
    rw other (has_edge-append direction name deps e rest new)

-- Whether two edges are the same does not depend on which is asked.
is_edge_comm :
    (d e : DiscoveredDependency)
    → is_edge e.direction e.name d ≡ false
    → is_edge d.direction d.name e ≡ false
is_edge_comm d e h = ground (
  arith,
  eq_iff d.direction e.direction,
  eq_iff e.direction d.direction,
  eq_iff d.name e.name,
  eq_iff e.name d.name,
)

Distinct-append :
    (deps : List DiscoveredDependency) (e : DiscoveredDependency)
    → Distinct deps
    → has_edge e.direction e.name deps ≡ false
    → Distinct (deps ++ e ∷ [])
Distinct-append [] e distinct h = (refl, tt)
Distinct-append (d ∷ deps) e (first, distinct) h =
    let (other, rest) =
      or_false (is_edge e.direction e.name d) (has_edge e.direction e.name deps) h in
    (
      has_edge-append d.direction d.name deps e first (is_edge_comm d e other),
      Distinct-append deps e distinct rest,
    )

AllForeign-append :
    (own : List String) (deps : List DiscoveredDependency) (e : DiscoveredDependency)
    → AllForeign own deps
    → AllForeign own (e ∷ [])
    → AllForeign own (deps ++ e ∷ [])
AllForeign-append own [] e h new = new
AllForeign-append own (d ∷ deps) e (written, foreign, direction, h) new =
    (written, foreign, direction, AllForeign-append own deps e h new)

-- What the loop keeps.
abbrev pub Found : (own : List String) → List DiscoveredDependency → Type 0
Found own deps = Distinct deps × AllForeign own deps

Found-set_default :
    (own : List String) (direction name via : String) (seen : List DiscoveredDependency)
    → str_eq name "" ≡ false
    → contains name own ≡ false
    → (direction ≡ "upstream") ⊎ (direction ≡ "downstream")
    → Found own seen
    → Found own (set_default direction name via seen)
unfolding set_default
Found-set_default own direction name via seen written foreign way (distinct, all) =
    elim (Bool-cases (has_edge direction name seen)) [
      | inl e ↦ rw e (distinct, all)
      | inr e ↦ rw e (
        Distinct-append seen _ distinct e,
        AllForeign-append own seen _ all (written, foreign, way, tt),
      )
    ]

Found-see_value :
    (own : List String) (direction key : String) (value : Option String)
    (seen : List DiscoveredDependency)
    → (direction ≡ "upstream") ⊎ (direction ≡ "downstream")
    → Found own seen
    → Found own (see_value own direction key value seen)
unfolding see_value
Found-see_value own direction key none seen way found = found
Found-see_value own direction key (some name) seen way found =
    elim (Bool-cases (str_eq name "" || contains name own)) [
      | inl e ↦ rw e found
      | inr e ↦
          (let (written, foreign) = or_false (str_eq name "") (contains name own) e in
            rw e (Found-set_default own direction name key seen written foreign way found))
    ]

Found-see_keys :
    (own : List String) (direction : String) (labelset : Labels) (keys : List String)
    (seen : List DiscoveredDependency)
    → (direction ≡ "upstream") ⊎ (direction ≡ "downstream")
    → Found own seen
    → Found own (see_keys own direction labelset keys seen)
unfolding see_keys
Found-see_keys own direction labelset [] seen way found = found
Found-see_keys own direction labelset (key ∷ keys) seen way found =
    Found-see_keys own direction labelset keys _ way
      (Found-see_value own direction key (lookup key labelset) seen way found)

Found-see_series :
    (own : List String) (series : List Labels) (seen : List DiscoveredDependency)
    → Found own seen
    → Found own (see_series own series seen)
unfolding see_series
Found-see_series own [] seen found = found
Found-see_series own (labelset ∷ series) seen found = Found-see_series own series _ (
    Found-see_keys own "downstream" labelset downstream_labels _ (inr refl)
      (Found-see_keys own "upstream" labelset upstream_labels seen (inl refl) found))

module _ (sweeps : Sweeps) where
  edges_of-Found :
      (own : List String) (swept : Result (List Labels)) (deps : List DiscoveredDependency)
      → edges_of sweeps own swept ≡ return deps
      → Found own deps
  edges_of-Found own (raise e) deps h = absurd (cc)
  edges_of-Found own (return series) deps h =
      let same : see_series own series [] ≡ deps = cc in
      subst (Found own) same (Found-see_series own series [] (tt, tt))

  -- Whatever series the backend has: the edges that are found differ in their direction or their name,
  -- their names are written and are not a value of the selector, and each is upstream or downstream.
  pub discover_topology-Found :
      (selector : Labels) (deps : List DiscoveredDependency)
      → discover_topology sweeps selector ≡ return deps
      → Found (values_of selector) deps
  unfolding discover_topology
  discover_topology-Found [] deps h = let same : [] ≡ deps = cc in subst (Found []) same (tt, tt)
  discover_topology-Found (label ∷ selector) deps h =
      edges_of-Found (values_of (label ∷ selector))
        (sweeps.get_series (labels_selector (label ∷ selector))) deps h
