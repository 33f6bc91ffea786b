-- ===== src/Services/Edges.antt =====
-- core/service/repository.py: ServiceDependencyRepository.
pub mod Kept
use Prim.Native.String as Native
use package.text.Mathlib.Text.{is_le}
use nightswatch.Prelude.{
  ℕ, suc, String, Bool, true, false, not, ◌&&◌, ◌||◌, Option, none, some, List, [], ◌∷◌, ◌++◌,
  length, ◌==◌, str_eq, if◌then◌else◌,
}
use nightswatch.Json.{Json, null, text, Fields, end, field}
use nightswatch.Action.{other, Result, return, raise, Action}
use nightswatch.Repository.{filter, first}
use nightswatch.Services.{ServiceDependency, DiscoveredDependency, Tables}

unfoldable pub update_dependency :
    ℕ → (ServiceDependency → ServiceDependency) → List ServiceDependency → List ServiceDependency
update_dependency id f [] = []
update_dependency id f (d ∷ deps) = (if d.id == id then f d else d) ∷ update_dependency id f deps

-- `order_by(direction, name)`
abbrev is_before : ServiceDependency → ServiceDependency → Bool
is_before d e =
    if str_eq d.direction e.direction
    then is_le (Native.compare d.name e.name)
    else is_le (Native.compare d.direction e.direction)

unfoldable pub insert_dependency :
    ServiceDependency → List ServiceDependency → List ServiceDependency
insert_dependency d [] = d ∷ []
insert_dependency d (e ∷ es) =
    let rest = insert_dependency d es in if is_before d e then d ∷ e ∷ es else e ∷ rest

unfoldable pub sort_dependencies : List ServiceDependency → List ServiceDependency
unfolding insert_dependency
sort_dependencies [] = []
sort_dependencies (d ∷ deps) = insert_dependency d (sort_dependencies deps)

-- `uq_service_dependency_edge`
abbrev is_edge : ℕ → String → String → ServiceDependency → Bool
is_edge service_id direction name d =
    d.service_id == service_id && (str_eq d.direction direction && str_eq d.name name)

abbrev has_edge : ServiceDependency → List ServiceDependency → Bool
has_edge d [] = false
has_edge d (e ∷ es) = is_edge d.service_id d.direction d.name e || has_edge d es

abbrev pub are_unique : List ServiceDependency → Bool
are_unique [] = true
are_unique (d ∷ deps) = not (has_edge d deps) && are_unique deps

-- The row that a row for the key replaces in the dictionary `existing`: there is at most one.
unfoldable pub find_edge :
    (direction name : String) → List ServiceDependency → Option ServiceDependency
find_edge direction name [] = none
find_edge direction name (d ∷ deps) =
    if str_eq d.direction direction && str_eq d.name name
    then some d
    else find_edge direction name deps

abbrev via : Option String → Json
via none = null
via (some label) = text label

abbrev pub metadata_of : DiscoveredDependency → Fields
metadata_of dep = field "via_label" (via dep.via_label) end

abbrev pub observe : ℕ → DiscoveredDependency → ServiceDependency → ServiceDependency
observe now dep row = record row { extra_metadata = metadata_of dep; last_seen_at = some now }

module _ (tenant_id : ℕ) where
  abbrev pub is_mine : ℕ → ServiceDependency → Bool
  is_mine service_id d = d.tenant_id == tenant_id && d.service_id == service_id

  unfoldable pub list_for_service : ℕ → Tables → List ServiceDependency
  unfolding sort_dependencies
  list_for_service service_id t = sort_dependencies (filter (is_mine service_id) t.dependencies)

  abbrev pub new_edge : (now service_id id : ℕ) → DiscoveredDependency → ServiceDependency
  new_edge now service_id id dep = record {
    id = id;
    tenant_id = tenant_id;
    service_id = service_id;
    direction = dep.direction;
    name = dep.name;
    extra_metadata = metadata_of dep;
    confirmed_by_user = false;
    last_seen_at = some now;
  }

  -- One round of the loop, for what the dictionary has under the key.
  unfoldable pub upsert_edge :
      (now service_id : ℕ) → DiscoveredDependency → Option ServiceDependency → Tables → Tables
  unfolding update_dependency
  upsert_edge now service_id dep none t = record t {
    dependencies = t.dependencies ++ new_edge now service_id t.next_id dep ∷ [];
    next_id = suc t.next_id;
  }
  upsert_edge now service_id dep (some row) t = record t {
    dependencies = update_dependency row.id (observe now dep) t.dependencies;
  }

  unfoldable pub upsert_edges :
      (now service_id : ℕ)
      → (existing : List ServiceDependency) → List DiscoveredDependency
      → Tables
      → Tables
  unfolding upsert_edge find_edge
  upsert_edges now service_id existing [] t = t
  upsert_edges now service_id existing (dep ∷ deps) t =
      upsert_edges now service_id existing deps
        (upsert_edge now service_id dep (find_edge dep.direction dep.name existing) t)

  abbrev flush : ℕ → (before after : Tables) → Result ℕ × Tables
  flush count before after =
      if are_unique after.dependencies
      then (return count, after)
      else (raise (other "IntegrityError"), before)

  -- The number of edges of this round, not of those stored.
  unfoldable pub upsert_discovered :
      (now service_id : ℕ) → List DiscoveredDependency → Action Tables ℕ
  unfolding upsert_edges list_for_service
  upsert_discovered now service_id deps t =
      flush (length deps) t (upsert_edges now service_id (list_for_service service_id t) deps t)

  abbrev confirm_row : Bool → Tables → Option ServiceDependency → Tables
  confirm_row confirmed t none = t
  confirm_row confirmed t (some row) = record t {
    dependencies =
        update_dependency row.id (λ d. record d { confirmed_by_user = confirmed }) t.dependencies;
  }

  -- The row of the tenant with this id.
  unfoldable pub set_confirmation : (dependency_id : ℕ) → Bool → Tables → Tables
  unfolding update_dependency
  set_confirmation dependency_id confirmed t = confirm_row confirmed t (
      first (
        filter (λ (d : ServiceDependency). d.tenant_id == tenant_id && d.id == dependency_id)
          t.dependencies))
