-- ===== src/Webhooks.antt =====
-- api/alerts.py: the webhooks of Alertmanager and of New Relic, from the raw body to the answer. What
-- no handler maps to an answer stays an exception.
pub mod NewRelic
pub mod Guarded
use nightswatch.Prelude.{
  ℕ, String, Bool, true, false, Option, none, some, List, [], ◌∷◌, str_eq, if◌then◌else◌,
}
use nightswatch.Action.{
  Exception, budget_exhausted, llm_transient_error, llm_response_invalid, alert_validation_error,
  other, Result, return, raise, Action,
}
use nightswatch.Database.{Db}
use nightswatch.Repository.{filter, first}
use nightswatch.Alert.{AlertmanagerAlert, AlertService, IngestResult, ingest}
use nightswatch.Crypto.{Aead, Bytes, Signing, verify_signature}
use nightswatch.Integrations.{Codec, Integration, Store, list_all, get_webhook_secret}
use NewRelic.{NewRelicWebhookPayload, PyCase, is_open, to_alertmanager}

-- What the endpoints are given. The two parsers are pydantic's `model_validate_json`.
pub record Receiver : Type 0 where
  pub signing : Signing
  pub aead : Aead
  pub codec : Codec
  pub py : PyCase
  pub now : ℕ
  pub alert_service : AlertService
  pub parse_alertmanager : Bytes → Option (List AlertmanagerAlert)
  pub parse_newrelic : Bytes → Option NewRelicWebhookPayload

-- `AlertReceiveResponse`, or an HTTPException.
pub data Answer : Type 0 where
  accepted : (alert_ids : List ℕ) → Answer
  refused : (status_code : ℕ) (code : String) → Answer

abbrev pub invalid_signature : Answer
invalid_signature = refused 401 "auth.invalid_signature"

abbrev or_none : Result (Option String) → Result (Option String)
or_none (return secret) = return secret
or_none (raise (other name)) =
    if str_eq name "IntegrationCredentialDecryptionFailed" then return none else raise (other name)
or_none (raise e) = raise e

module _ (r : Receiver) (tenant_id : ℕ) where
  abbrev secret_of : Option Integration → Result (Option String)
  secret_of none = return none
  secret_of (some row) = or_none (get_webhook_secret r.codec r.aead row)

  unfoldable pub resolve_webhook_secret : (kind : String) → Store → Result (Option String)
  resolve_webhook_secret kind store =
      secret_of
        (first (filter (λ (i : Integration). str_eq i.kind kind) (list_all tenant_id store)))

  -- `secret is not None and verify_signature(secret, raw, x_signature)`
  abbrev pub is_signed : Result (Option String) → Bytes → Option String → Result Bool
  is_signed (raise e) raw x_signature = raise e
  is_signed (return none) raw x_signature = return false
  is_signed (return (some secret)) raw x_signature =
      verify_signature r.signing secret raw x_signature

  -- The UTF-8 of two texts is the same where the texts are.
  abbrev pub has_token : Result (Option String) → Option String → Result Bool
  has_token (raise e) x_token = raise e
  has_token (return none) x_token = return false
  has_token (return (some secret)) none = return false
  has_token (return (some secret)) (some token) = return (str_eq token secret)

  abbrev pub admit : Result Bool → Action Db Answer → Action Db Answer
  admit (raise e) next db = (raise e, db)
  admit (return false) next db = (return invalid_signature, db)
  admit (return true) next db = next db

  abbrev pub answer_ingested : Result IngestResult × Db → Result Answer × Db
  answer_ingested (return result, db) = (return (accepted result.alert_ids), db)
  answer_ingested (raise alert_validation_error, db) =
      (return (refused 400 "validation.failed"), db)
  answer_ingested (raise e, db) = (raise e, db)

  abbrev pub receive_alertmanager : Option (List AlertmanagerAlert) → Action Db Answer
  receive_alertmanager none db = (return (refused 400 "validation.failed"), db)
  receive_alertmanager (some payload) db =
      answer_ingested (ingest r.alert_service tenant_id "alertmanager" payload db)

  unfoldable pub alertmanager_webhook :
      Store → (raw : Bytes) (x_signature : Option String) → Action Db Answer
  unfolding resolve_webhook_secret
  alertmanager_webhook store raw x_signature =
      admit (is_signed (resolve_webhook_secret "prometheus" store) raw x_signature)
        (receive_alertmanager (r.parse_alertmanager raw))

  abbrev pub receive_newrelic : Option NewRelicWebhookPayload → Action Db Answer
  receive_newrelic none db = (return (refused 400 "validation.failed"), db)
  receive_newrelic (some payload) db =
      if is_open r.py payload
      then answer_ingested
          (ingest r.alert_service tenant_id "newrelic" (to_alertmanager r.py r.now payload ∷ []) db)
      else (return (accepted []), db)

  unfoldable pub newrelic_webhook :
      Store → (raw : Bytes) (x_token : Option String) → Action Db Answer
  unfolding resolve_webhook_secret
  newrelic_webhook store raw x_token =
      admit (has_token (resolve_webhook_secret "newrelic" store) x_token)
        (receive_newrelic (r.parse_newrelic raw))
