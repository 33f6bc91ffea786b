-- ===== src/Integrations/Secrets.antt =====
-- What was stored encrypted is read back.
use nightswatch.Prelude.{
  ℕ, ◌≡◌, refl, sym, ap, ◌∙◌, String, Bool, true, false, not, ◌&&◌, ◌||◌, contains, some, List, [],
  ◌∷◌, length, ◌==◌, ==_iff, and_true, if◌then◌else◌, Bool-cases, inl, inr, arith,
}
use nightswatch.Json.{Fields}
use nightswatch.Action.{Result, return, raise, other}
use nightswatch.Repository.{filter, first}
use nightswatch.Crypto.{Aead, Bytes, encrypt, decrypt}
use nightswatch.Crypto.Blobs.{Authentic, decrypt-encrypt}
use nightswatch.Integrations.{
  Integration, Store, Codec, kinds, is_taken, owns, update_row, get_by_id, create,
  generate_webhook_secret, secret_result, store_secret, get_webhook_secret, decrypt_config, loaded,
}

abbrev with_secret : Bytes → Integration → Integration
with_secret blob i = record i { webhook_signing_secret_encrypted = some blob }

module _ (tenant_id id : ℕ) where
  pub found-id :
      (rows : List Integration) (row : Integration)
      → first (filter (owns tenant_id id) rows) ≡ some row
      → row.id ≡ id
  found-id [] row h = absurd (cc)
  found-id (i ∷ is) row h = elim (Bool-cases (owns tenant_id id i)) [
    | inl e ↦
        (let head : i ≡ row = ground (arith) in
          ap (λ (r : Integration). r.id) (sym head)
          ∙ (==_iff i.id id).0 (and_true (i.tenant_id == tenant_id) (i.id == id) e).1)
    | inr e ↦ found-id is row (ground arith)
  ]

  owns-with_secret :
      (b : Bool) (blob : Bytes) (i : Integration)
      → owns tenant_id id (if b then with_secret blob i else i) ≡ owns tenant_id id i
  owns-with_secret true blob i = refl
  owns-with_secret false blob i = refl

  -- One row of an update, for whether it is the tenant's and whether it has the id.
  first-updated :
      (mine same : Bool) (blob : Bytes) (i row : Integration) (rest rest' : List Integration)
      → first (if mine && same then i ∷ rest else rest) ≡ some row
      → (first rest ≡ some row → first rest' ≡ some (with_secret blob row))
      → first (if mine && same then (if same then with_secret blob i else i) ∷ rest' else rest')
        ≡ some (with_secret blob row)
  first-updated true true blob i row rest rest' h ih =
      let head : i ≡ row = cc in ap (λ (r : Integration). some (with_secret blob r)) head
  first-updated true false blob i row rest rest' h ih = ih h
  first-updated false same blob i row rest rest' h ih = ih h

  found-update_row :
      (blob : Bytes) (rows : List Integration) (row : Integration)
      → first (filter (owns tenant_id id) rows) ≡ some row
      → first (filter (owns tenant_id id) (update_row id (with_secret blob) rows))
        ≡ some (with_secret blob row)
  unfolding update_row
  found-update_row blob [] row h = absurd (cc)
  found-update_row blob (i ∷ is) row h = rw (owns-with_secret (i.id == id) blob i) (
      first-updated (i.tenant_id == tenant_id) (i.id == id) blob i row
        (filter (owns tenant_id id) is)
        (filter (owns tenant_id id) (update_row id (with_secret blob) is)) h
        (found-update_row blob is row))

returned :
    (b : Bool) (r row : Integration) (s s' : Store)
    → (if◌then◌else◌ {A = Result Integration × Store} b
        (raise (other "IntegrationAlreadyExists"), s)
        (return r, s')).0
      ≡ return row
    → r ≡ row
returned true r row s s' h = absurd (cc)
returned false r row s s' h = cc

module _ (codec : Codec) (aead : Aead) (authentic : Authentic aead) (tenant_id : ℕ) where
  secret-read :
      (nonce : Bytes) (secret : String) (row : Integration)
      → length nonce ≡ 12
      → codec.decode (codec.encode secret) ≡ some secret
      → get_webhook_secret codec aead (with_secret (encrypt aead nonce (codec.encode secret)) row)
        ≡ return (some secret)
  unfolding get_webhook_secret
  secret-read nonce secret row e readable =
      rw (decrypt-encrypt aead authentic nonce (codec.encode secret) e) (rw readable)

  generated :
      (nonce : Bytes) (secret : String) (id : ℕ) (store : Store) (row : Integration)
      → get_by_id tenant_id id store ≡ some row
      → generate_webhook_secret codec aead tenant_id nonce secret id store ≡ (
        return secret,
        record store {
          rows =
              update_row row.id (with_secret (encrypt aead nonce (codec.encode secret))) store.rows;
        },
      )
  unfolding generate_webhook_secret
  generated nonce secret id store row found =
      ap
        (λ q.
          secret_result codec aead tenant_id secret
            (store_secret tenant_id (encrypt aead nonce (codec.encode secret)) store q))
        found

  -- A secret that UTF-8 reads back, generated for an integration of the tenant, the first one or a
  -- new one, is returned, and from then on it is what is read of that integration.
  pub generate_webhook_secret-get :
      (nonce : Bytes) (secret : String) (id : ℕ) (store : Store) (row : Integration)
      → length nonce ≡ 12
      → codec.decode (codec.encode secret) ≡ some secret
      → get_by_id tenant_id id store ≡ some row
      → ((generate_webhook_secret codec aead tenant_id nonce secret id store).0 ≡ return secret)
        × ((row' : Integration) × (get_by_id tenant_id id
                (generate_webhook_secret codec aead tenant_id nonce secret id store).1
              ≡ some row')
            × (get_webhook_secret codec aead row' ≡ return (some secret)))
  unfolding get_by_id
  generate_webhook_secret-get nonce secret id store row e readable found =
      let blob = encrypt aead nonce (codec.encode secret) in
      let stored = generated nonce secret id store row found in
      (
        ap (λ q. q.0) stored,
        (
          with_secret blob row,
          ap (λ (q : Result String × Store). first (filter (owns tenant_id id) q.1.rows)) stored
              ∙ ap
                  (λ n.
                    first (filter (owns tenant_id id) (update_row n (with_secret blob) store.rows)))
                  (found-id tenant_id id store.rows row found)
              ∙ found-update_row tenant_id id blob store.rows row found,
          secret-read nonce secret row e readable,
        ),
      )

  -- What an integration is created with, a configuration that JSON reads back, is encrypted in the row that comes back, and is decrypted
  -- from it.
  pub decrypt_config-create :
      (now : ℕ) (nonce : Bytes) (kind name : String) (config : Fields) (store : Store)
      (row : Integration)
      → length nonce ≡ 12
      → codec.loads (codec.dumps config) ≡ return config
      → (create codec aead tenant_id now nonce kind name config store).0 ≡ return row
      → decrypt_config codec aead row ≡ return config
  unfolding decrypt_config create
  decrypt_config-create now nonce kind name config store row e readable h =
      let same =
        returned (is_taken tenant_id kind name store.rows || not (contains kind kinds)) _ row store
          _ h in
      ap (λ (r : Integration). loaded codec (decrypt aead r.config_encrypted)) (sym same)
      ∙ ap (loaded codec) (decrypt-encrypt aead authentic nonce (codec.dumps config) e)
      ∙ readable
