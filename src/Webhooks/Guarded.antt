-- ===== src/Webhooks/Guarded.antt =====
-- api/alerts.py: what becomes of a request, by what it brings.
use nightswatch.Prelude.{
  ℕ, String, ◌≡◌, ◌⊎◌, inl, inr, refl, ap, Bool, true, false, Option, none, some, List, [], ◌∷◌,
  str_eq, eq_iff, if◌then◌else◌,
}
use nightswatch.Action.{Result, return, raise}
use nightswatch.Database.{Db}
use nightswatch.Repository.{get_for_tenant}
use nightswatch.Alert.{AlertmanagerAlert, IngestResult, all_named}
use nightswatch.Alert.Entries.{Tally}
use nightswatch.Alert.Attached.{FreshAlerts}
use nightswatch.Alert.Ingest.{Taken, ingest-Taken}
use nightswatch.Crypto.{Bytes, sign}
use nightswatch.Crypto.Signed.{Hexadecimal, header-sign, verify_signature_iff}
use nightswatch.Integrations.{Store}
use nightswatch.Webhooks.{
  Receiver, Answer, accepted, refused, resolve_webhook_secret, is_signed, admit, answer_ingested,
  receive_alertmanager, alertmanager_webhook, newrelic_webhook,
}
use nightswatch.Webhooks.NewRelic.{
  NewRelicWebhookPayload, is_open, to_alertmanager, alertname-labels_of,
}

module _ (r : Receiver) (tenant_id : ℕ) (db : Db) where
  -- Nothing is accepted, and the tables stay as they are.
  abbrev pub Rejected : Result Answer × Db → Type 0
  Rejected q = (q.1 ≡ db) × ((alert_ids : List ℕ) → ¬ (q.0 ≡ return (accepted alert_ids)))

  -- The header is the signature of the body under the secret of the tenant.
  abbrev pub Signed : Store → (raw : Bytes) (x_signature : Option String) → Type 0
  Signed store raw x_signature =
      (secret : String) × (resolve_webhook_secret r tenant_id "prometheus" store
        ≡ return (some secret))
      × (x_signature ≡ some (sign r.signing secret raw))

  -- An alert without a name makes it a 400. Otherwise every alert is taken, and the answer has their ids.
  abbrev pub Ingested : (source : String) → List AlertmanagerAlert → Result Answer × Db → Type 0
  Ingested source payload q =
      ((all_named payload ≡ false) × (q ≡ (return (refused 400 "validation.failed"), db)))
      ⊎ ((all_named payload ≡ true)
          × ((result : IngestResult) × (q.0 ≡ return (accepted result.alert_ids))
              × Tally r.alert_service tenant_id source (get_for_tenant tenant_id db) db payload
                  (result, q.1)))

  -- What becomes of a request, by its signature and its body.
  abbrev pub Guarded :
      Store → (raw : Bytes) (x_signature : Option String) → Result Answer × Db → Type 0
  Guarded store raw x_signature q =
      ((¬ (Signed store raw x_signature)) × Rejected q)
      ⊎ (Signed store raw x_signature
          × (((r.parse_alertmanager raw ≡ none)
                × (q ≡ (return (refused 400 "validation.failed"), db)))
              ⊎ ((payload : List AlertmanagerAlert) × (r.parse_alertmanager raw ≡ some payload)
                  × Ingested "alertmanager" payload q)))

  answered :
      (source : String) (payload : List AlertmanagerAlert) (q : Result IngestResult × Db)
      → Taken r.alert_service tenant_id source db payload q
      → Ingested source payload (answer_ingested r tenant_id q)
  answered source payload q (inl (unnamed, e)) = inl (unnamed, ap (answer_ingested r tenant_id) e)
  answered source payload (raise e, after) (inr (named, (result, ok, t))) = absurd (cc)
  answered source payload (return found, after) (inr (named, (result, ok, t))) =
      inr (named, (result, cc, t))

  received :
      FreshAlerts db
      → (raw : Bytes) (parsed : Option (List AlertmanagerAlert)) → r.parse_alertmanager raw ≡ parsed
      → ((r.parse_alertmanager raw ≡ none)
          × (receive_alertmanager r tenant_id parsed db
              ≡ (return (refused 400 "validation.failed"), db)))
        ⊎ ((payload : List AlertmanagerAlert) × (r.parse_alertmanager raw ≡ some payload)
            × Ingested "alertmanager" payload (receive_alertmanager r tenant_id parsed db))
  received fresh raw none e = inl (e, refl)
  received fresh raw (some payload) e = inr (
    payload,
    e,
    answered "alertmanager" payload _
        (ingest-Taken r.alert_service tenant_id "alertmanager" payload db fresh),
  )

  signed_with :
      (found : Result (Option String)) (raw : Bytes) (x_signature : Option String)
      → is_signed r tenant_id found raw x_signature ≡ return true
      → (secret : String) × (found ≡ return (some secret))
        × (x_signature ≡ some (sign r.signing secret raw))
  signed_with (raise e) raw x_signature h = absurd (cc)
  signed_with (return none) raw x_signature h = absurd (cc)
  signed_with (return (some secret)) raw x_signature h =
      (secret, refl, header-sign r.signing secret raw x_signature h)

  is_signed_of :
      Hexadecimal r.signing
      → (store : Store) (raw : Bytes) (x_signature : Option String) → Signed store raw x_signature
      → is_signed r tenant_id
          (resolve_webhook_secret r tenant_id "prometheus" store)
          raw
          x_signature
        ≡ return true
  is_signed_of hex store raw x_signature (secret, stored, signature) =
      rw stored ((verify_signature_iff r.signing hex secret raw x_signature).1 signature)

  admit-Guarded :
      Hexadecimal r.signing
      → FreshAlerts db
      → (store : Store) (raw : Bytes) (x_signature : Option String) (checked : Result Bool)
      → is_signed r tenant_id
          (resolve_webhook_secret r tenant_id "prometheus" store)
          raw
          x_signature
        ≡ checked
      → Guarded store raw x_signature (
          admit r tenant_id checked
            (receive_alertmanager r tenant_id (r.parse_alertmanager raw))
            db)
  admit-Guarded hex fresh store raw x_signature (raise e) h = inl (
    λ signed. let clash = is_signed_of hex store raw x_signature signed in absurd (cc),
    (refl, λ alert_ids k. absurd (cc)),
  )
  admit-Guarded hex fresh store raw x_signature (return false) h = inl (
    λ signed. let clash = is_signed_of hex store raw x_signature signed in absurd (cc),
    (refl, λ alert_ids k. absurd (cc)),
  )
  admit-Guarded hex fresh store raw x_signature (return true) h = inr (
    signed_with (resolve_webhook_secret r tenant_id "prometheus" store) raw x_signature h,
    received fresh raw (r.parse_alertmanager raw) refl,
  )

  -- Where a digest is written in hexadecimal digits, and no stored alert has an identifier that is still
  -- to be handed out: unless the header is the signature of the body under the secret of the tenant's
  -- Prometheus, the Alertmanager webhook accepts nothing and leaves the tables as they are. If it is, a
  -- body that cannot be read, or with an alert that has no name, is answered with 400 and nothing is
  -- written; any other body is accepted, every alert in it is taken as `ingest-Taken` of Alert/Ingest
  -- says, and the answer has the ids of the alerts.
  pub alertmanager_webhook-Guarded :
      Hexadecimal r.signing
      → FreshAlerts db
      → (store : Store) (raw : Bytes) (x_signature : Option String)
      → Guarded store raw x_signature (alertmanager_webhook r tenant_id store raw x_signature db)
  unfolding alertmanager_webhook
  alertmanager_webhook-Guarded hex fresh store raw x_signature =
      admit-Guarded hex fresh store raw x_signature
        (is_signed r tenant_id (resolve_webhook_secret r tenant_id "prometheus" store) raw
          x_signature)
        refl

  -- The alert of the issue was taken, and its id is the answer.
  abbrev pub Accepted : NewRelicWebhookPayload → Result Answer × Db → Type 0
  Accepted payload q =
      (result : IngestResult) × (q.0 ≡ return (accepted result.alert_ids))
      × Tally r.alert_service tenant_id "newrelic" (get_for_tenant tenant_id db) db
          (to_alertmanager r.py r.now payload ∷ []) (result, q.1)

  named :
      (payload : NewRelicWebhookPayload)
      → str_eq payload.condition_name "" ≡ false
      → all_named (to_alertmanager r.py r.now payload ∷ []) ≡ true
  unfolding to_alertmanager
  named payload h = rw (alertname-labels_of r.py payload, h)

  accepted_of :
      (payload : NewRelicWebhookPayload) (q : Result Answer × Db)
      → all_named (to_alertmanager r.py r.now payload ∷ []) ≡ true
      → Ingested "newrelic" (to_alertmanager r.py r.now payload ∷ []) q
      → Accepted payload q
  accepted_of payload q is_named_ (inl (unnamed, e)) = absurd (cc)
  accepted_of payload q is_named_ (inr (named_, taken)) = taken

  opened :
      (payload : NewRelicWebhookPayload) (b : Bool) (q other : Result Answer × Db)
      → b ≡ true
      → Accepted payload q
      → Accepted payload (if b then q else other)
  opened payload true q other h accepted_ = accepted_
  opened payload false q other h accepted_ = absurd (cc)

  same_token : (token : String) → str_eq token token ≡ true
  same_token token = (eq_iff token token).1 refl

  -- Where no stored alert has an identifier that is still to be handed out: a New Relic request with the
  -- tenant's token whose body reads as an open issue with a condition is accepted, whatever labels the
  -- template brings. The one alert that the issue is turned into is stored, linked and queued as
  -- `ingest-Taken` of Alert/Ingest says, and its id is the answer.
  pub newrelic_webhook-Accepted :
      FreshAlerts db
      → (store : Store) (raw : Bytes) (token : String) (payload : NewRelicWebhookPayload)
      → resolve_webhook_secret r tenant_id "newrelic" store ≡ return (some token)
      → r.parse_newrelic raw ≡ some payload
      → is_open r.py payload ≡ true
      → str_eq payload.condition_name "" ≡ false
      → Accepted payload (newrelic_webhook r tenant_id store raw (some token) db)
  unfolding newrelic_webhook
  newrelic_webhook-Accepted fresh store raw token payload secret read open_ condition =
      rw (secret, same_token token, read)
        (opened payload (is_open r.py payload) _ _ open_ (
          accepted_of payload _ (named payload condition) (
            answered "newrelic" (to_alertmanager r.py r.now payload ∷ []) _ (
              ingest-Taken r.alert_service tenant_id "newrelic"
                (to_alertmanager r.py r.now payload ∷ []) db fresh))))
