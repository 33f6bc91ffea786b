-- ===== src/Tests/Inbound.antt =====
-- The webhooks.
use nightswatch.Prelude.{String, ◌≡◌, refl, none, some, [], ◌∷◌}
use nightswatch.Action.{return}
use nightswatch.Crypto.{encrypt, decrypt}
use nightswatch.Integrations.{
  Integration, Store, list_all, insert_newest, newest_first, get_webhook_secret,
}
use nightswatch.Webhooks.{Receiver, resolve_webhook_secret, alertmanager_webhook, newrelic_webhook}
use nightswatch.Webhooks.NewRelic.{NewRelicWebhookPayload}
use nightswatch.Webhooks.Guarded.{
  Guarded, Accepted, alertmanager_webhook-Guarded, newrelic_webhook-Accepted,
}
use nightswatch.Tests.Incidents.{alert_service, am_alert, db}
use nightswatch.Tests.Secrets.{aead, codec, nonce, row, signing}

abbrev issue : NewRelicWebhookPayload
issue = record {
  issue_id = "i-1";
  title = "Error rate";
  state = "ACTIVATED";
  priority = some "CRITICAL";
  condition_name = "error-rate";
  policy_name = none;
  entity_names = "checkout" ∷ [];
  nrql = none;
  route_group = none;
  runbook_url = none;
  labels = ("alertname", "other") ∷ [];
  started_at = none;
}

abbrev receiver : Receiver
receiver = record {
  signing = signing;
  aead = aead;
  codec = codec;
  py = record { upper = λ s. s; lower = λ s. s };
  now = 5000;
  alert_service = alert_service;
  parse_alertmanager = λ raw. some (am_alert "a" ∷ []);
  parse_newrelic = λ raw. some issue;
}

-- The secret of both integrations is ab.
abbrev with_secret : String → Integration
with_secret kind = record row {
  kind = kind;
  webhook_signing_secret_encrypted = some (encrypt aead nonce (codec.encode "ab"));
}

abbrev integrations : Store
integrations = record { rows = with_secret "prometheus" ∷ with_secret "newrelic" ∷ []; next_id = 9 }

alertmanager_webhook-Guarded_example :
    Guarded receiver 1 db integrations
      (1 ∷ [])
      (some "sha256=ab")
      (alertmanager_webhook receiver 1 integrations (1 ∷ []) (some "sha256=ab") db)
alertmanager_webhook-Guarded_example =
    alertmanager_webhook-Guarded receiver 1 db (λ secret body. refl) tt integrations (1 ∷ [])
      (some "sha256=ab")

stored : resolve_webhook_secret receiver 1 "newrelic" integrations ≡ return (some "ab")
unfolding resolve_webhook_secret list_all insert_newest newest_first get_webhook_secret encrypt
    decrypt
stored = refl

newrelic_webhook-Accepted_example :
    Accepted receiver 1 db issue (newrelic_webhook receiver 1 integrations (1 ∷ []) (some "ab") db)
newrelic_webhook-Accepted_example =
    newrelic_webhook-Accepted receiver 1 db tt integrations (1 ∷ []) "ab" issue stored refl refl
      refl
