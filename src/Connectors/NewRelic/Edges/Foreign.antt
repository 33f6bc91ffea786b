-- ===== src/Connectors/NewRelic/Edges/Foreign.antt =====
-- The dependencies that New Relic gives: each once, and never the service itself.
use nightswatch.Prelude.{
  String, ◌≡◌, refl, Bool, true, false, ◌||◌, Bool-cases, inl, inr, Option, none, some, List, [],
  ◌∷◌, ◌++◌, contains, str_eq, eq_iff, if◌then◌else◌, arith,
}
use mathlib.Core.Path.{subst}
use nightswatch.Json
use nightswatch.Json.{Json, null, bool, integer, float, text, array, object, Fields, end, field}
use nightswatch.Action.{Result, return, raise}
use nightswatch.Database.{Labels}
use nightswatch.Queries.{occurs}
use nightswatch.Connectors.{NewRelicConfig}
use nightswatch.Connectors.Requests.{Client, array_or_empty}
use nightswatch.Connectors.NewRelic.{Operations, get_object, graphql}
use nightswatch.Connectors.NewRelic.Edges.{
  Edges, no_edges, add_name, add_call, written, add_row, add_rows, related, of_guid, of_entities,
  searched, topology_for_name, is_surprise, or_no_edges, own_name, discover_topology,
}

-- Every name once, and not the service itself.
abbrev pub Foreign : (own : String) → List String → Type 0
Foreign own [] = Unit
Foreign own (name ∷ names) =
    (str_eq name own ≡ false) × (contains name names ≡ false) × Foreign own names

contains-append :
    (s t : String) (names : List String)
    → contains s names ≡ false
    → str_eq t s ≡ false
    → contains s (names ++ t ∷ []) ≡ false
contains-append s t [] h new = rw new
contains-append s t (n ∷ names) h new = elim (Bool-cases (str_eq n s)) [
  | inl e ↦ absurd (clash (str_eq n s) (contains s names) e h)
  | inr e ↦ rw e (contains-append s t names (rest (str_eq n s) (contains s names) h) new)
]
  where
    clash : (a b : Bool) → a ≡ true → a || b ≡ false → ⊥
    clash true b e h = cc
    clash false b e h = cc

    rest : (a b : Bool) → a || b ≡ false → b ≡ false
    rest true b h = absurd (cc)
    rest false b h = h

or_false : (a b : Bool) → a || b ≡ false → (a ≡ false) × (b ≡ false)
or_false true b h = absurd (cc)
or_false false b h = (refl, h)

symmetric : (s t : String) → str_eq s t ≡ false → str_eq t s ≡ false
symmetric s t h = ground (arith, eq_iff s t, eq_iff t s)

Foreign-append :
    (own name : String) (names : List String)
    → str_eq name own ≡ false
    → contains name names ≡ false
    → Foreign own names
    → Foreign own (names ++ name ∷ [])
Foreign-append own name [] other new foreign = (other, refl, tt)
Foreign-append own name (n ∷ names) other new (first, once, foreign) =
    let (differs, rest) = or_false (str_eq n name) (contains name names) new in
    (
      first,
      contains-append n name names once (symmetric n name differs),
      Foreign-append own name names other rest foreign,
    )

Foreign-add_name :
    (own name : String) (bucket : List String)
    → Foreign own bucket
    → Foreign own (add_name own name bucket)
Foreign-add_name own name bucket foreign =
    elim (Bool-cases (str_eq name own || contains name bucket)) [
      | inl e ↦ rw e foreign
      | inr e ↦
          (let (other, new) = or_false (str_eq name own) (contains name bucket) e in
            rw e (Foreign-append own name bucket other new foreign))
    ]

abbrev pub BothForeign : (own : String) → Edges → Type 0
BothForeign own edges = Foreign own edges.upstream × Foreign own edges.downstream

BothForeign-add_call :
    (own : String) (is_source : Bool) (target : Option String) (is_target : Bool)
    (source : Option String) (edges : Edges)
    → BothForeign own edges
    → BothForeign own (add_call own is_source target is_target source edges)
BothForeign-add_call own true (some target) is_target source edges (up, down) =
    (up, Foreign-add_name own target edges.downstream down)
BothForeign-add_call own true none true (some source) edges (up, down) =
    (Foreign-add_name own source edges.upstream up, down)
BothForeign-add_call own true none true none edges both = both
BothForeign-add_call own true none false source edges both = both
BothForeign-add_call own false target true (some source) edges (up, down) =
    (Foreign-add_name own source edges.upstream up, down)
BothForeign-add_call own false target true none edges both = both
BothForeign-add_call own false target false source edges both = both

BothForeign-if :
    (own : String) (b : Bool) (x y : Edges)
    → BothForeign own x
    → BothForeign own y
    → BothForeign own (if b then x else y)
BothForeign-if own true x y hx hy = hx
BothForeign-if own false x y hx hy = hy

module _ (client : Client) where
  BothForeign-add_row :
      (own guid : String) (row : Json) (edges : Edges)
      → BothForeign own edges
      → BothForeign own (add_row client own guid row edges)
  unfolding add_row
  BothForeign-add_row own guid (object row) edges both =
      BothForeign-if own (occurs "CALLS" (written client (Json.get "type" row))) _ edges
        (BothForeign-add_call own _ _ _ _ edges both) both
  BothForeign-add_row own guid null edges both = both
  BothForeign-add_row own guid (bool b) edges both = both
  BothForeign-add_row own guid (integer minus n) edges both = both
  BothForeign-add_row own guid (float minus n) edges both = both
  BothForeign-add_row own guid (text s) edges both = both
  BothForeign-add_row own guid (array xs) edges both = both

  BothForeign-add_rows :
      (own guid : String) (rows : List Json) (edges : Edges)
      → BothForeign own edges
      → BothForeign own (add_rows client own guid rows edges)
  unfolding add_rows
  BothForeign-add_rows own guid [] edges both = both
  BothForeign-add_rows own guid (row ∷ rows) edges both =
      BothForeign-add_rows own guid rows _ (BothForeign-add_row own guid row edges both)

  -- What is returned is foreign.
  abbrev ForeignResult : (own : String) → Result Edges → Type 0
  ForeignResult own (return edges) = BothForeign own edges
  ForeignResult own (raise e) = Unit

  ForeignResult-if :
      (own : String) (b : Bool) (x y : Result Edges)
      → ForeignResult own x
      → ForeignResult own y
      → ForeignResult own (if b then x else y)
  ForeignResult-if own true x y hx hy = hx
  ForeignResult-if own false x y hx hy = hy

  module _ (ops : Operations) (config : NewRelicConfig) where
    ForeignResult-related :
        (own guid : String) (found : Result Fields)
        → ForeignResult own (related client ops config own guid found)
    ForeignResult-related own guid (raise e) = tt
    ForeignResult-related own guid (return fields) =
        BothForeign-add_rows own guid
          (array_or_empty (
            Json.get "results"
              (get_object "relatedEntities" (get_object "entity" (get_object "actor" fields)))))
          no_edges (tt, tt)

    ForeignResult-of_guid :
        (own : String) (guid : Option Json) → ForeignResult own (of_guid client ops config own guid)
    ForeignResult-of_guid own (some (text guid)) =
        ForeignResult-related own guid
          (graphql client ops config ops.related_gql (field "guid" (text guid) end))
    ForeignResult-of_guid own none = tt
    ForeignResult-of_guid own (some null) = tt
    ForeignResult-of_guid own (some (bool b)) = tt
    ForeignResult-of_guid own (some (integer minus n)) = tt
    ForeignResult-of_guid own (some (float minus n)) = tt
    ForeignResult-of_guid own (some (array xs)) = tt
    ForeignResult-of_guid own (some (object fields)) = tt

    ForeignResult-of_entities :
        (own : String) (entities : List Json)
        → ForeignResult own (of_entities client ops config own entities)
    ForeignResult-of_entities own [] = (tt, tt)
    ForeignResult-of_entities own (object entity ∷ entities) =
        ForeignResult-of_guid own (Json.get "guid" entity)
    ForeignResult-of_entities own (null ∷ entities) = tt
    ForeignResult-of_entities own (bool b ∷ entities) = tt
    ForeignResult-of_entities own (integer minus n ∷ entities) = tt
    ForeignResult-of_entities own (float minus n ∷ entities) = tt
    ForeignResult-of_entities own (text s ∷ entities) = tt
    ForeignResult-of_entities own (array xs ∷ entities) = tt

    ForeignResult-searched :
        (own : String) (found : Result Fields)
        → ForeignResult own (searched client ops config own found)
    ForeignResult-searched own (raise e) = tt
    ForeignResult-searched own (return fields) = ForeignResult-of_entities own (
        array_or_empty (
          Json.get "entities"
            (get_object "results" (get_object "entitySearch" (get_object "actor" fields)))))

    ForeignResult-or_no_edges :
        (own : String) (found : Result Edges)
        → ForeignResult own found
        → ForeignResult own (or_no_edges client ops config found)
    ForeignResult-or_no_edges own (return edges) h = h
    ForeignResult-or_no_edges own (raise e) h =
        ForeignResult-if own (is_surprise client ops config e) _ _ (tt, tt) tt

    ForeignResult-discover_topology :
        (name : String) (selector : Labels)
        → ForeignResult
            (own_name client ops config name selector)
            (discover_topology client ops config name selector)
    unfolding discover_topology topology_for_name
    ForeignResult-discover_topology name selector =
        let own = own_name client ops config name selector in
        ForeignResult-if own (str_eq own "") _ _ (tt, tt)
          (ForeignResult-or_no_edges own (topology_for_name client ops config own)
            (ForeignResult-searched own _))

    -- Whatever New Relic answers: the edges that are returned have every upstream name once and every
    -- downstream name once, and neither is the name that the service goes by.
    pub discover_topology-Foreign :
        (name : String) (selector : Labels) (edges : Edges)
        → discover_topology client ops config name selector ≡ return edges
        → BothForeign (own_name client ops config name selector) edges
    discover_topology-Foreign name selector edges h =
        subst (ForeignResult (own_name client ops config name selector)) h
          (ForeignResult-discover_topology name selector)
