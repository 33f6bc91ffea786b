-- ===== src/Services/Catalog.antt =====
-- core/service/repository.py: MetricCatalogRepository.
use Prim.Native.String as Native
use package.text.Mathlib.Text.{is_le}
use nightswatch.Prelude.{
  ℕ, String, Bool, true, false, not, ◌&&◌, ◌||◌, Option, none, some, List, [], ◌∷◌, ◌++◌, length,
  take, drop, ◌==◌, str_eq, if◌then◌else◌,
}
use nightswatch.Action.{other, return, raise, Action}
use nightswatch.Repository.{filter}
use nightswatch.Services.{DiscoveredMetric, MetricCatalogEntry, Tables}

-- `order_by(metric_name)`
unfoldable pub insert_metric :
    MetricCatalogEntry → List MetricCatalogEntry → List MetricCatalogEntry
insert_metric m [] = m ∷ []
insert_metric m (n ∷ ns) =
    let rest = insert_metric m ns in
    if is_le (Native.compare m.metric.metric_name n.metric.metric_name)
    then m ∷ n ∷ ns
    else n ∷ rest

unfoldable pub sort_metrics : List MetricCatalogEntry → List MetricCatalogEntry
unfolding insert_metric
sort_metrics [] = []
sort_metrics (m ∷ metrics) = insert_metric m (sort_metrics metrics)

abbrev has_metric : String → List DiscoveredMetric → Bool
has_metric name [] = false
has_metric name (m ∷ metrics) = str_eq m.metric_name name || has_metric name metrics

-- `uq_metric_catalog_service_metric`, among the rows that replace all others.
abbrev pub are_distinct : List DiscoveredMetric → Bool
are_distinct [] = true
are_distinct (m ∷ metrics) = not (has_metric m.metric_name metrics) && are_distinct metrics

unfoldable pub catalog_rows :
    (tenant_id service_id now : ℕ) → List DiscoveredMetric → List MetricCatalogEntry
catalog_rows tenant_id service_id now [] = []
catalog_rows tenant_id service_id now (entry ∷ entries) =
    record { tenant_id = tenant_id; service_id = service_id; metric = entry; last_seen_at = now }
    ∷ catalog_rows tenant_id service_id now entries

module _ (tenant_id : ℕ) where
  abbrev pub is_mine : ℕ → MetricCatalogEntry → Bool
  is_mine service_id m = m.tenant_id == tenant_id && m.service_id == service_id

  -- Delete and insert. The number of rows that are written.
  unfoldable pub replace_for_service :
      (now service_id : ℕ) → List DiscoveredMetric → Action Tables ℕ
  unfolding catalog_rows
  replace_for_service now service_id entries t =
      if are_distinct entries
      then (
        return (length entries),
        record t {
          metrics =
              filter (λ m. not (is_mine service_id m)) t.metrics
              ++ catalog_rows tenant_id service_id now entries;
        },
      )
      else (raise (other "IntegrityError"), t)

  abbrev matches : (ilike : String → String → Bool) → Option String → MetricCatalogEntry → Bool
  matches ilike none m = true
  matches ilike (some name) m = str_eq name "" || ilike m.metric.metric_name name

  -- `ilike value name` is SQL's `value ILIKE '%' || name || '%'`.
  unfoldable pub list_for_service :
      (ilike : String → String → Bool) (name_filter : Option String) (limit offset : ℕ)
      → ℕ
      → Tables
      → List MetricCatalogEntry
  unfolding sort_metrics
  list_for_service ilike name_filter limit offset service_id t = take limit (
      drop offset (
        sort_metrics (filter (λ m. is_mine service_id m && matches ilike name_filter m) t.metrics)))
