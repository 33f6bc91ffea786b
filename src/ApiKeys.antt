-- ===== src/ApiKeys.antt =====
-- core/tenant/api_key_service.py, core/tenant/repository.py and utils/ids.py: the keys of tenants.
pub mod Verify
pub mod Revoke
use nightswatch.Prelude.{
  ℕ, suc, String, Bool, true, false, not, ◌&&◌, Option, none, some, List, [], ◌∷◌, ◌++◌, leb, ◌==◌,
  str_eq, if◌then◌else◌,
}
use Prim.Native.String as Native
use Prim.Native.Char.{Char}
use nightswatch.Repository.{filter, first}

pub record ApiKey : Type 0 where
  pub id : ℕ
  pub tenant_id : ℕ
  pub name : String
  pub key_hash : String
  pub prefix : String
  pub created_at : ℕ
  pub expires_at : Option ℕ
  pub revoked_at : Option ℕ
  pub last_used_at : Option ℕ

pub record Tenant : Type 0 where
  pub id : ℕ
  pub name : String
  pub slug : String
  pub status : String

pub record TenantContext : Type 0 where
  pub tenant_id : ℕ
  pub name : String
  pub slug : String
  pub api_key_id : ℕ

-- What is shown of a key once.
pub record IssuedApiKey : Type 0 where
  pub id : ℕ
  pub key : String
  pub prefix : String
  pub created_at : ℕ

-- The two tables, in the order of insertion.
pub record Store : Type 0 where
  pub api_keys : List ApiKey
  pub tenants : List Tenant
  pub next_id : ℕ

unfoldable pub find_by_hash : String → List ApiKey → Option ApiKey
find_by_hash key_hash keys = first (filter (λ (k : ApiKey). str_eq k.key_hash key_hash) keys)

-- `session.get(ApiKey, id)`
unfoldable pub get_key : ℕ → List ApiKey → Option ApiKey
get_key id keys = first (filter (λ (k : ApiKey). k.id == id) keys)

unfoldable pub get_tenant : ℕ → List Tenant → Option Tenant
get_tenant id tenants = first (filter (λ (t : Tenant). t.id == id) tenants)

-- The row with this id is mutated in place.
unfoldable pub update_key : ℕ → (ApiKey → ApiKey) → List ApiKey → List ApiKey
update_key id f [] = []
update_key id f (k ∷ keys) = (if k.id == id then f k else k) ∷ update_key id f keys

abbrev pub set_used : (now : ℕ) → ApiKey → ApiKey
set_used now k = record k { last_used_at = some now }

abbrev pub set_revoked : (now : ℕ) → ApiKey → ApiKey
set_revoked now k = record k { revoked_at = some now }

-- A row that is not there is not updated, so the lookup before the update changes nothing.
unfoldable pub mark_used : (now id : ℕ) → Store → Store
unfolding update_key
mark_used now id store = record store { api_keys = update_key id (set_used now) store.api_keys }

-- `row.revoked_at is None`, and not expired at `now`.
abbrev pub is_none : Option ℕ → Bool
is_none none = true
is_none (some t) = false

abbrev pub is_later : (now : ℕ) → Option ℕ → Bool
is_later now none = true
is_later now (some expires_at) = not (leb expires_at now)

abbrev pub is_usable : (now : ℕ) → ApiKey → Bool
is_usable now row = is_none row.revoked_at && is_later now row.expires_at

abbrev pub is_active : Tenant → Bool
is_active tenant = str_eq tenant.status "active"

abbrev pub context_of : Tenant → ApiKey → TenantContext
context_of tenant row = record {
  tenant_id = tenant.id;
  name = tenant.name;
  slug = tenant.slug;
  api_key_id = row.id;
}

unfoldable pub accept : (now : ℕ) → ApiKey → Option Tenant → Store → Option TenantContext × Store
unfolding mark_used
accept now row none store = (none, store)
accept now row (some tenant) store =
    if is_active tenant
    then (some (context_of tenant row), mark_used now row.id store)
    else (none, store)

unfoldable pub verify_row : (now : ℕ) → Option ApiKey → Store → Option TenantContext × Store
unfolding accept
verify_row now none store = (none, store)
verify_row now (some row) store =
    if is_usable now row
    then accept now row (get_tenant row.tenant_id store.tenants) store
    else (none, store)

-- `hash_api_key` is a parameter.
module _ (hash_api_key : String → String) where
  unfoldable pub verify : (now : ℕ) → (raw_key : String) → Store → Option TenantContext × Store
  unfolding verify_row
  verify now raw_key store =
      verify_row now (find_by_hash (hash_api_key raw_key) store.api_keys) store

  -- `full` is `ai-sre-<env>-` before the random part that `secrets` gives.
  unfoldable pub issue : (now tenant_id : ℕ) (name full : String) → Store → IssuedApiKey × Store
  issue now tenant_id name full store =
      let row : ApiKey = record {
        id = store.next_id;
        tenant_id = tenant_id;
        name = name;
        key_hash = hash_api_key full;
        prefix = Native.slice full 0 8;
        created_at = now;
        expires_at = none;
        revoked_at = none;
        last_used_at = none;
      } in
      (
        record { id = row.id; key = full; prefix = row.prefix; created_at = row.created_at },
        record store { api_keys = store.api_keys ++ row ∷ []; next_id = suc store.next_id },
      )

-- A key of another tenant, or one that is revoked already, is left as it is.
unfoldable pub revoke_row : (now tenant_id : ℕ) → Option ApiKey → Store → Store
unfolding update_key
revoke_row now tenant_id none store = store
revoke_row now tenant_id (some row) store =
    if row.tenant_id == tenant_id && is_none row.revoked_at
    then record store { api_keys = update_key row.id (set_revoked now) store.api_keys }
    else store

unfoldable pub revoke : (now tenant_id key_id : ℕ) → Store → Store
unfolding revoke_row
revoke now tenant_id key_id store = revoke_row now tenant_id (get_key key_id store.api_keys) store
