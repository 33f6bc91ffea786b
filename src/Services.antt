-- ===== src/Services.antt =====
-- models/service.py and core/service/repository.py: the subject service of a tenant, its catalog of
-- metrics and its dependencies. A breach of a unique constraint raises, and the rollback that follows
-- leaves the tables as they were.
pub mod Edges
pub mod Catalog
pub mod Registration
pub mod Discovery
use Prim.Native.String as Native
use package.text.Mathlib.Text.{is_le}
use nightswatch.Prelude.{
  ℕ, suc, String, Bool, true, false, not, ◌&&◌, ◌||◌, Option, none, some, List, [], ◌∷◌, ◌++◌,
  length, ◌==◌, str_eq, if◌then◌else◌,
}
use nightswatch.Json.{Json, null, text, Fields, end, field}
use nightswatch.Action.{other, Result, return, raise, Action}
use nightswatch.Database.{Labels}
use nightswatch.Repository.{filter, first}

pub record Service : Type 0 where
  pub id : ℕ
  pub tenant_id : ℕ
  pub name : String
  pub label_selector : Labels
  pub ownership : Option Fields
  pub slo_config : Option Fields

pub record ServiceDependency : Type 0 where
  pub id : ℕ
  pub tenant_id : ℕ
  pub service_id : ℕ
  pub direction : String
  pub name : String
  pub extra_metadata : Fields
  pub confirmed_by_user : Bool
  pub last_seen_at : Option ℕ

-- What `Connector.discover_metrics` gives for a metric.
pub record DiscoveredMetric : Type 0 where
  pub metric_name : String
  pub metric_type : String
  pub labels : Fields
  pub unit : Option String
  pub help_text : Option String

pub record MetricCatalogEntry : Type 0 where
  pub tenant_id : ℕ
  pub service_id : ℕ
  pub metric : DiscoveredMetric
  pub last_seen_at : ℕ

pub record DiscoveredDependency : Type 0 where
  pub direction : String
  pub name : String
  pub via_label : Option String

pub record Tables : Type 0 where
  pub services : List Service
  pub metrics : List MetricCatalogEntry
  pub dependencies : List ServiceDependency
  pub next_id : ℕ

-- A keyword argument that is `None` keeps what is there.
abbrev pub or_keep {ℓ} : {A : Type ℓ} → Option A → A → A
or_keep none old = old
or_keep (some new) old = new

abbrev pub or_keep_option {ℓ} : {A : Type ℓ} → Option A → Option A → Option A
or_keep_option none old = old
or_keep_option (some new) old = some new

abbrev with_metadata : Option String → Option Fields → Option Fields → Service → Service
with_metadata name ownership slo_config row = record row {
  name = or_keep name row.name;
  ownership = or_keep_option ownership row.ownership;
  slo_config = or_keep_option slo_config row.slo_config;
}

unfoldable pub update_service : ℕ → (Service → Service) → List Service → List Service
update_service id f [] = []
update_service id f (s ∷ services) = (if s.id == id then f s else s) ∷ update_service id f services

module _ (tenant_id : ℕ) where
  unfoldable pub get_by_id : ℕ → Tables → Option Service
  get_by_id id t =
      first (filter (λ (s : Service). s.tenant_id == tenant_id && s.id == id) t.services)

  -- `list(limit=1)`
  unfoldable pub get_for_tenant : Tables → Option Service
  get_for_tenant t = first (filter (λ (s : Service). s.tenant_id == tenant_id) t.services)

  abbrev insert_service : Option Service → Service → Action Tables Service
  insert_service (some existing) row t = (raise (other "ServiceAlreadyExists"), t)
  insert_service none row t =
      (return row, record t { services = t.services ++ row ∷ []; next_id = suc t.next_id })

  -- `uq_service_tenant_id`: one service for each tenant.
  unfoldable pub create :
      (name : String) (label_selector : Labels) (ownership slo_config : Option Fields)
      → Action Tables Service
  unfolding get_for_tenant
  create name label_selector ownership slo_config t =
      insert_service (get_for_tenant t)
        (record {
          id = t.next_id;
          tenant_id = tenant_id;
          name = name;
          label_selector = label_selector;
          ownership = ownership;
          slo_config = slo_config;
        })
        t

  abbrev updated :
      Option String
      → Option Fields
      → Option Fields
      → Tables
      → Option Service
      → Option Service × Tables
  updated name ownership slo_config t none = (none, t)
  updated name ownership slo_config t (some row) = (
    some (with_metadata name ownership slo_config row),
    record t {
      services = update_service row.id (with_metadata name ownership slo_config) t.services;
    },
  )

  -- The row as it is then, or `none` where the tenant has no such service.
  unfoldable pub update_metadata :
      (name : Option String) (ownership slo_config : Option Fields)
      → ℕ
      → Tables
      → Option Service × Tables
  unfolding get_by_id update_service
  update_metadata name ownership slo_config id t =
      updated name ownership slo_config t (get_by_id id t)
