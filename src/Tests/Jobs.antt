-- ===== src/Tests/Jobs.antt =====
-- Who is let in, and the jobs of the worker.
use nightswatch.Prelude.{map, [], ◌∷◌, refl, ◌≡◌, ◌⊎◌, none, some, true}
use nightswatch.Json.{end}
use nightswatch.Action.{Result, return}
use nightswatch.Auth.{PyHeader, expected, granted, current_tenant_or_admin}
use nightswatch.Auth.Granted.{Denied, KeyOf, current_tenant_or_admin_cases}
use nightswatch.Integrations.{Integration, get_by_id, update_row, decrypt_config}
use nightswatch.Crypto.{encrypt, decrypt}
use nightswatch.Json.{get}
use nightswatch.Connectors.{Connector, prometheus_from_decrypted}
use nightswatch.Connectors.Requests.{ConnectorHealth}
use nightswatch.Connectors.Registry.{build_from_row}
use nightswatch.Workers.{health_check_for, run_health_check}
use nightswatch.Workers.Checked.{Rechecked, run_health_check-Rechecked}
use nightswatch.Tests.Connections.{setup}
use nightswatch.Tests.Keys as Keys
use nightswatch.Tests.Secrets.{store}

abbrev header : PyHeader
header = record { lower = λ s. "bearer x"; strip = λ s. s }

current_tenant_or_admin_cases_example :
    (("Bearer ai-sre-live-a" ≡ expected "admin")
      × (current_tenant_or_admin header Keys.hash 500 "admin" "Bearer ai-sre-live-a" Keys.store
          ≡ (granted none, Keys.store)))
    ⊎ (Denied header Keys.hash 500 Keys.store
          (current_tenant_or_admin header Keys.hash 500 "admin" "Bearer ai-sre-live-a" Keys.store)
        ⊎ KeyOf header Keys.hash 500 Keys.store some "Bearer ai-sre-live-a" (
            current_tenant_or_admin header Keys.hash 500 "admin" "Bearer ai-sre-live-a" Keys.store))
current_tenant_or_admin_cases_example =
    current_tenant_or_admin_cases header Keys.hash 500 Keys.store "admin" "Bearer ai-sre-live-a"

abbrev well : Connector → Result ConnectorHealth
well connector = return (record { healthy = true; error = none; details = end })

run_health_check-Rechecked_example :
    Rechecked setup well 1 800 4 store (run_health_check setup well 1 800 4 store)
run_health_check-Rechecked_example = run_health_check-Rechecked setup well 1 800 4 store

-- The row is found, and its status is new.
rechecked :
    map (λ (i : Integration). i.status) (run_health_check setup well 1 800 4 store).rows
    ≡ "healthy" ∷ []
unfolding run_health_check health_check_for get_by_id update_row build_from_row decrypt_config
    decrypt encrypt prometheus_from_decrypted get
rechecked = refl
