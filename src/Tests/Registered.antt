-- ===== src/Tests/Registered.antt =====
-- The services of a tenant.
use nightswatch.Prelude.{String, ◌≡◌, refl, Option, none, some, List, [], ◌∷◌, true}
use nightswatch.Json.{Fields, end, bool, field}
use nightswatch.Action.{return, raise, other}
use nightswatch.Crypto.{encrypt, decrypt}
use nightswatch.Integrations.{list_all, insert_newest, newest_first, decrypt_config}
use nightswatch.Connectors.{prometheus_from_decrypted}
use nightswatch.Connectors.Registry.{cached, build, build_from_row, get}
use nightswatch.Services.{Service, ServiceDependency, get_for_tenant, create}
use nightswatch.Services.Registration.{
  Backends, ServiceRegistrationResult, World, build_existence_query, build_slo_config_and_warnings,
  find_connector, probe, validate_label_selector, register,
}
use nightswatch.Services.Registration.Current.{register-Current}
use nightswatch.Services.Discovery.{Discoverers, refresh_topology, refresh_catalog}
use nightswatch.Services.Discovery.Guarded.{
  SafeTopology, SafeCatalog, refresh_topology-SafeTopology, refresh_catalog-SafeCatalog,
}
use nightswatch.Connectors.{metrics_connector_kinds}
use nightswatch.Tests.Connections.{setup, empty}
use nightswatch.Tests.Secrets.{store}

abbrev backends : Backends
backends = record {
  query = λ config promql. return (record { success = true; series_count = 0; error = none });
  probe_selector = λ config selector. raise (other "ConnectorError");
  str = λ e. "failed";
}

abbrev checkout : Service
checkout = record {
  id = 5;
  tenant_id = 1;
  name = "checkout";
  label_selector = ("app", "checkout") ∷ [];
  ownership = none;
  slo_config = none;
}

abbrev no_service : World
no_service = record {
  tables = record { services = []; metrics = []; dependencies = []; next_id = 5 };
  registry = empty;
}

abbrev zero_series : String
zero_series =
    "label_selector matched 0 series in Prometheus. The service was registered, but investigations won't be able to query metrics until at least one series matches."

registered :
    (register backends setup 1 store "checkout" (("app", "checkout") ∷ []) none no_service).0
    ≡ return (record { service = checkout; warnings = zero_series ∷ [] })
unfolding register validate_label_selector find_connector probe build_existence_query
    build_slo_config_and_warnings create get_for_tenant get cached build build_from_row list_all
    insert_newest newest_first decrypt_config decrypt encrypt prometheus_from_decrypted
    nightswatch.Json.get
registered = refl

register-Current_example :
    (get_for_tenant 1
        (register backends setup 1 store "checkout"
          (("app", "checkout") ∷ [])
          none
          no_service).1.tables
      ≡ some checkout)
    × ((again : String) (other : List (String × String)) (owner : Option Fields)
          (second : ServiceRegistrationResult)
        → ¬ (
            (register backends setup 1 store again other owner
              (register backends setup 1 store "checkout"
                (("app", "checkout") ∷ [])
                none
                no_service).1).0
            ≡ return second))
register-Current_example =
    register-Current 1 backends setup store "checkout" (("app", "checkout") ∷ []) none no_service
      (record { service = checkout; warnings = zero_series ∷ [] }) registered

abbrev discoverers : Discoverers
discoverers = record {
  discover_metrics = λ connector selector. return (
      record {
        metric_name = "up";
        metric_type = "gauge";
        labels = end;
        unit = none;
        help_text = none;
      }
      ∷ []);
  discover_topology = λ connector selector name. return (record {
    upstream = record { name = "gateway"; via_label = some "client" } ∷ [];
    downstream = [];
  });
  str = λ e. "failed";
}

abbrev confirmed_edge : ServiceDependency
confirmed_edge = record {
  id = 6;
  tenant_id = 1;
  service_id = 5;
  direction = "upstream";
  name = "gateway";
  extra_metadata = end;
  confirmed_by_user = true;
  last_seen_at = none;
}

abbrev with_edge : World
with_edge = record {
  tables = record {
    services = checkout ∷ [];
    metrics = [];
    dependencies = confirmed_edge ∷ [];
    next_id = 7;
  };
  registry = empty;
}

refresh_topology-SafeTopology_example :
    SafeTopology discoverers setup 1 store 800 with_edge.tables (
      (refresh_topology discoverers setup 1 store 800 checkout with_edge).0,
      (refresh_topology discoverers setup 1 store 800 checkout with_edge).1.tables,
    )
refresh_topology-SafeTopology_example =
    refresh_topology-SafeTopology discoverers setup 1 store 800 checkout with_edge

refresh_catalog-SafeCatalog_example :
    SafeCatalog discoverers setup 1 store 800 checkout
      (find_connector setup 1 store metrics_connector_kinds with_edge.registry).0
      with_edge.tables
      (
        (refresh_catalog discoverers setup 1 store 800 checkout with_edge).0,
        (refresh_catalog discoverers setup 1 store 800 checkout with_edge).1.tables,
      )
refresh_catalog-SafeCatalog_example =
    refresh_catalog-SafeCatalog discoverers setup 1 store 800 checkout with_edge
