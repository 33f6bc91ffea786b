-- ===== src/Integrations.antt =====
-- core/integration/repository.py and core/integration/service.py: the connected systems of a tenant,
-- with their settings encrypted. An exception of the program is known by its class name.
pub mod Shown
pub mod Secrets
use nightswatch.Prelude.{
  ℕ, suc, String, Bool, true, false, not, ◌&&◌, ◌||◌, Option, none, some, List, [], ◌∷◌, ◌++◌,
  contains, ltb, ◌==◌, str_eq, if◌then◌else◌,
}
use nightswatch.Json
use nightswatch.Json.{Json, text, object, Fields, end, field}
use nightswatch.Action.{other, Result, return, raise, Action}
use nightswatch.Repository.{filter, first}
use nightswatch.Crypto.{Aead, Bytes, encrypt, decrypt}

pub record Integration : Type 0 where
  pub id : ℕ
  pub tenant_id : ℕ
  pub kind : String
  pub name : String
  pub config_encrypted : Bytes
  pub config_public : Fields
  pub status : String
  pub last_health_check_at : Option ℕ
  pub webhook_signing_secret_encrypted : Option Bytes
  pub created_at : ℕ

-- The table, in the order of insertion.
pub record Store : Type 0 where
  pub rows : List Integration
  pub next_id : ℕ

-- The constraint `ck_integration_kind`.
abbrev pub kinds : List String
kinds = "prometheus" ∷ "slack" ∷ "newrelic" ∷ []

-- The newest first, and among those of one moment the one with the larger id.
abbrev is_before : Integration → Integration → Bool
is_before i j = ltb j.created_at i.created_at || (i.created_at == j.created_at && ltb j.id i.id)

unfoldable pub insert_newest : Integration → List Integration → List Integration
insert_newest i [] = i ∷ []
insert_newest i (j ∷ js) =
    let rest = insert_newest i js in if is_before i j then i ∷ j ∷ js else j ∷ rest

unfoldable pub newest_first : List Integration → List Integration
unfolding insert_newest
newest_first [] = []
newest_first (i ∷ is) = insert_newest i (newest_first is)

unfoldable pub update_row : ℕ → (Integration → Integration) → List Integration → List Integration
update_row id f [] = []
update_row id f (i ∷ is) = (if i.id == id then f i else i) ∷ update_row id f is

module _ (tenant_id : ℕ) where
  abbrev owns : ℕ → Integration → Bool
  owns id i = i.tenant_id == tenant_id && i.id == id

  unfoldable pub get_by_id : ℕ → Store → Option Integration
  get_by_id id store = first (filter (owns id) store.rows)

  unfoldable pub list_all : Store → List Integration
  unfolding newest_first
  list_all store = newest_first (filter (λ (i : Integration). i.tenant_id == tenant_id) store.rows)

  -- `uq_integration_tenant_kind_name`
  abbrev pub is_taken : (kind name : String) → List Integration → Bool
  is_taken kind name [] = false
  is_taken kind name (i ∷ is) =
      (i.tenant_id == tenant_id && (str_eq i.kind kind && str_eq i.name name))
      || is_taken kind name is

  -- Either constraint is an IntegrityError, and after the rollback nothing is inserted.
  unfoldable pub create_row :
      (now : ℕ) (kind name : String) (config_encrypted : Bytes) (config_public : Fields)
      → Action Store Integration
  create_row now kind name config_encrypted config_public store =
      let row : Integration = record {
        id = store.next_id;
        tenant_id = tenant_id;
        kind = kind;
        name = name;
        config_encrypted = config_encrypted;
        config_public = config_public;
        status = "pending";
        last_health_check_at = none;
        webhook_signing_secret_encrypted = none;
        created_at = now;
      } in
      if is_taken kind name store.rows || not (contains kind kinds)
      then (raise (other "IntegrationAlreadyExists"), store)
      else (return row, record store { rows = store.rows ++ row ∷ []; next_id = suc store.next_id })

  unfoldable pub delete_row : ℕ → Store → Bool × Store
  unfolding get_by_id
  delete_row id store = elim (get_by_id id store) [
    | none ↦ (false, store)
    | some row ↦ (
      true,
      record store { rows = filter (λ (i : Integration). not (i.id == row.id)) store.rows },
    )
  ]

  abbrev store_secret : Bytes → Store → Option Integration → Option Integration × Store
  store_secret encrypted store none = (none, store)
  store_secret encrypted store (some row) = (
    some (record row { webhook_signing_secret_encrypted = some encrypted }),
    record store {
      rows =
          update_row row.id (λ i. record i { webhook_signing_secret_encrypted = some encrypted })
            store.rows;
    },
  )

  -- The updated row, or `none` where the tenant has no such row.
  unfoldable pub set_webhook_secret : ℕ → Bytes → Store → Option Integration × Store
  unfolding get_by_id update_row
  set_webhook_secret id encrypted store = store_secret encrypted store (get_by_id id store)

-- What is used of `json`, of UTF-8 and of `urlparse`: `decode` is `none` where it raises, `hostname`
-- is `urlparse(url).hostname or ""`.
pub record Codec : Type 0 where
  pub dumps : Fields → Bytes
  pub loads : Bytes → Result Fields
  pub encode : String → Bytes
  pub decode : Bytes → Option String
  pub hostname : String → String
  pub str : Json → String

-- One key of `{k: config[k] for k in keys if k in config}`.
abbrev pub add_if_there : String → Option Json → Fields → Fields
add_if_there k none rest = rest
add_if_there k (some v) rest = field k v rest

unfoldable pub select : List String → Fields → Fields
select [] config = end
select (k ∷ ks) config = add_if_there k (Json.get k config) (select ks config)

abbrev type_of : Option Json → String
type_of (some (text t)) = t
type_of _ = "none"

abbrev auth_type : Option Json → String
auth_type (some (object auth)) = type_of (Json.get "type" auth)
auth_type _ = "none"

module _ (codec : Codec) where
  abbrev url_of : Option Json → String
  url_of none = ""
  url_of (some url) = codec.str url

  abbrev pub prometheus_view : Fields → Fields
  prometheus_view config =
      field "url_host" (text (codec.hostname (url_of (Json.get "url" config))))
        (field "auth_type" (text (auth_type (Json.get "auth" config))) end)

  -- The view for what `kind` is found to be.
  abbrev pub view_if : (prometheus newrelic slack : Bool) → Fields → Fields
  view_if prometheus newrelic slack config =
      if prometheus
      then prometheus_view config
      else if newrelic
      then select ("account_id" ∷ "region" ∷ []) config
      else if slack
      then select ("team_id" ∷ "team_name" ∷ "channel_id" ∷ "channel_name" ∷ []) config
      else end

  unfoldable pub public_view : (kind : String) → Fields → Fields
  unfolding select
  public_view kind =
      view_if (str_eq kind "prometheus") (str_eq kind "newrelic") (str_eq kind "slack")

  module _ (aead : Aead) (tenant_id : ℕ) where
    -- `nonce` is the one that the encryption draws.
    unfoldable pub create :
        (now : ℕ) (nonce : Bytes) (kind name : String) → Fields → Action Store Integration
    unfolding public_view create_row
    create now nonce kind name config =
        create_row tenant_id now kind name (encrypt aead nonce (codec.dumps config))
          (public_view kind config)

    unfoldable pub delete : ℕ → Action Store Unit
    unfolding delete_row
    delete id store =
        let (removed, store') = delete_row tenant_id id store in
        if removed then (return tt, store') else (raise (other "IntegrationNotFound"), store')

    -- `secret` is what `generate_webhook_secret` of utils/webhook_signature.py draws.
    abbrev secret_result : String → Option Integration × Store → Result String × Store
    secret_result secret (none, store) = (raise (other "IntegrationNotFound"), store)
    secret_result secret (some row, store) = (return secret, store)

    unfoldable pub generate_webhook_secret :
        (nonce : Bytes) (secret : String) → ℕ → Action Store String
    unfolding set_webhook_secret
    generate_webhook_secret nonce secret id store =
        secret_result secret
          (set_webhook_secret tenant_id id (encrypt aead nonce (codec.encode secret)) store)

  abbrev of_decoded : Option String → Result (Option String)
  of_decoded none = raise (other "UnicodeDecodeError")
  of_decoded (some s) = return (some s)

  abbrev decoded : Result Bytes → Result (Option String)
  decoded (return plaintext) = of_decoded (codec.decode plaintext)
  decoded (raise e) = raise (other "IntegrationCredentialDecryptionFailed")

  abbrev decrypted_secret : Aead → Option Bytes → Result (Option String)
  decrypted_secret aead none = return none
  decrypted_secret aead (some blob) = decoded (decrypt aead blob)

  unfoldable pub get_webhook_secret : Aead → Integration → Result (Option String)
  get_webhook_secret aead integration =
      decrypted_secret aead integration.webhook_signing_secret_encrypted

  abbrev loaded : Result Bytes → Result Fields
  loaded (return plaintext) = codec.loads plaintext
  loaded (raise e) = raise (other "IntegrationCredentialDecryptionFailed")

  unfoldable pub decrypt_config : Aead → Integration → Result Fields
  decrypt_config aead integration = loaded (decrypt aead integration.config_encrypted)
