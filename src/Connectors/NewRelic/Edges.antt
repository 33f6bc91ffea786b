-- ===== src/Connectors/NewRelic/Edges.antt =====
-- connectors/newrelic/connector.py: the dependencies of a service, from the entities that call each other.
pub mod Foreign
use nightswatch.Prelude.{
  ℕ, String, ◌≡◌, refl, sym, ap, ◌∙◌, Bool, true, false, not, ◌&&◌, ◌||◌, Bool-cases, inl, inr,
  Option, none, some, List, [], ◌∷◌, ◌++◌, contains, str_eq, eq_iff, if◌then◌else◌, arith,
}
use nightswatch.Json
use nightswatch.Json.{Json, text, object, Fields, end, field}
use nightswatch.Action.{Exception, other, class_name, Result, return, raise}
use nightswatch.Database.{Labels}
use nightswatch.Queries.{occurs, parts}
use nightswatch.Queries.Nrql.{escape_string}
use nightswatch.Stages.{truthy}
use nightswatch.Connectors.{NewRelicConfig}
use nightswatch.Connectors.Requests.{Client, array_or_empty, object_or_empty}
use nightswatch.Connectors.NewRelic.{Operations, get_object, graphql}

-- The names of the two buckets; `via_label` is `nerdgraph` throughout. An edge is in `seen` where its name
-- is in its bucket.
pub record Edges : Type 0 where
  pub upstream : List String
  pub downstream : List String

abbrev pub no_edges : Edges
no_edges = record { upstream = []; downstream = [] }

abbrev pub add_name : (own name : String) → List String → List String
add_name own name bucket =
    if str_eq name own || contains name bucket then bucket else bucket ++ name ∷ []

-- Where one end of a call is the subject and the other has a name.
abbrev pub add_call :
    (own : String) (is_source : Bool) (target : Option String) (is_target : Bool)
    (source : Option String)
    → Edges
    → Edges
add_call own true (some target) is_target source edges = record edges {
  downstream = add_name own target edges.downstream;
}
add_call own is_source target true (some source) edges = record edges {
  upstream = add_name own source edges.upstream;
}
add_call own is_source target is_target source edges = edges

abbrev is_guid : (guid : String) → Option Json → Bool
is_guid guid (some (text s)) = str_eq s guid
is_guid guid _ = false

module _ (client : Client) where
  abbrev name_of : Option Json → Option String
  name_of none = none
  name_of (some name) = if truthy name then some (client.str name) else none

  abbrev written : Option Json → String
  written none = ""
  written (some kind) = client.str kind

  -- `((row.get(k) or {}).get("entity")) or {}`
  abbrev entity_of : String → Fields → Fields
  entity_of k row = get_object "entity" (get_object k row)

  unfoldable pub add_row : (own guid : String) → Json → Edges → Edges
  add_row own guid (object row) edges =
      let source = entity_of "source" row in
      let target = entity_of "target" row in
      if occurs "CALLS" (written (Json.get "type" row))
      then add_call own (is_guid guid (Json.get "guid" source)) (name_of (Json.get "name" target))
          (is_guid guid (Json.get "guid" target)) (name_of (Json.get "name" source)) edges
      else edges
  add_row own guid _ edges = edges

  unfoldable pub add_rows : (own guid : String) → List Json → Edges → Edges
  unfolding add_row
  add_rows own guid [] edges = edges
  add_rows own guid (row ∷ rows) edges = add_rows own guid rows (add_row own guid row edges)

  module _ (ops : Operations) (config : NewRelicConfig) where
    abbrev related : (own guid : String) → Result Fields → Result Edges
    related own guid (raise e) = raise e
    related own guid (return fields) = return (
        add_rows own guid
          (array_or_empty (
            Json.get "results"
              (get_object "relatedEntities" (get_object "entity" (get_object "actor" fields)))))
          no_edges)

    abbrev of_guid : (own : String) → Option Json → Result Edges
    of_guid own (some (text guid)) =
        related own guid (graphql client ops config ops.related_gql (field "guid" (text guid) end))
    of_guid own _ = raise (other "KeyError")

    abbrev of_entities : (own : String) → List Json → Result Edges
    of_entities own [] = return no_edges
    of_entities own (object entity ∷ entities) = of_guid own (Json.get "guid" entity)
    of_entities own (entity ∷ entities) = raise (other "TypeError")

    abbrev searched : (own : String) → Result Fields → Result Edges
    searched own (raise e) = raise e
    searched own (return fields) = of_entities own (
        array_or_empty (
          Json.get "entities"
            (get_object "results" (get_object "entitySearch" (get_object "actor" fields)))))

    unfoldable pub topology_for_name : (name : String) → Result Edges
    unfolding graphql add_rows
    topology_for_name name = searched name (
        graphql client ops config ops.entity_search_gql (
          field "q"
            (text (parts ("name = '" ∷ escape_string name ∷ "' AND domain IN ('APM', 'EXT')" ∷ [])))
            end))

    abbrev is_surprise : Exception → Bool
    is_surprise e = contains (class_name e) (
        "ConnectorError" ∷ "ConnectorTimeout" ∷ "ConnectorUnsupported" ∷ "KeyError" ∷ "TypeError"
        ∷ [])

    abbrev or_no_edges : Result Edges → Result Edges
    or_no_edges (return edges) = return edges
    or_no_edges (raise e) = if is_surprise e then return no_edges else raise e

    abbrev first_value : Labels → String
    first_value [] = ""
    first_value ((k, v) ∷ labels) = v

    abbrev pub own_name : (name : String) (selector : Labels) → String
    own_name name selector = if str_eq name "" then first_value selector else name

    -- `name` is that of the service, or empty; then the first value of the selector stands for it.
    unfoldable pub discover_topology : (name : String) (selector : Labels) → Result Edges
    unfolding topology_for_name
    discover_topology name selector =
        if str_eq (own_name name selector) ""
        then return no_edges
        else or_no_edges (topology_for_name (own_name name selector))
