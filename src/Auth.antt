-- ===== src/Auth.antt =====
-- api/deps.py: who a request comes from, by its Authorization header.
pub mod Granted
use package.text.Mathlib.Text.{starts_with}
use nightswatch.Prelude.{
  ℕ, String, Bool, true, false, Option, none, some, List, [], ◌∷◌, str_eq, if◌then◌else◌,
}
use nightswatch.ApiKeys.{TenantContext, Store, verify}
use nightswatch.Crypto.{drop_text}
use nightswatch.Queries.{parts}

-- What a dependency gives, or the HTTPException that it raises.
pub data Access (A : Type 0) : Type 0 where
  granted : A → Access A
  denied : (status_code : ℕ) (code message : String) → Access A

-- `str.lower` and `str.strip`.
pub record PyHeader : Type 0 where
  pub lower : String → String
  pub strip : String → String

abbrev pub unauthorized : {A : Type 0} → String → Access A
unauthorized message = denied 401 "auth.invalid_token" message

-- `f"Bearer {admin_token}"`
abbrev pub expected : (admin_token : String) → String
expected admin_token = parts ("Bearer " ∷ admin_token ∷ [])

module _ (py : PyHeader) (hash_api_key : String → String) (now : ℕ) where
  abbrev pub token_of : (authorization : String) → String
  token_of authorization = py.strip (drop_text 7 authorization)

  abbrev of_verified : Option TenantContext × Store → Access TenantContext × Store
  of_verified (none, store) = (unauthorized "Invalid or revoked API key.", store)
  of_verified (some ctx, store) = (granted ctx, store)

  unfoldable pub current_tenant : (authorization : String) → Store → Access TenantContext × Store
  current_tenant authorization store =
      if starts_with (py.lower authorization) "bearer "
      then if str_eq (token_of authorization) ""
        then (unauthorized "Empty bearer token.", store)
        else of_verified (verify hash_api_key now (token_of authorization) store)
      else (unauthorized "Missing bearer token.", store)

  abbrev as_tenant : Access TenantContext × Store → Access (Option TenantContext) × Store
  as_tenant (granted ctx, store) = (granted (some ctx), store)
  as_tenant (denied status_code code message, store) = (denied status_code code message, store)

  -- `none` for the admin.
  unfoldable pub current_tenant_or_admin :
      (admin_token authorization : String) → Store → Access (Option TenantContext) × Store
  unfolding current_tenant
  current_tenant_or_admin admin_token authorization store =
      if str_eq authorization (expected admin_token)
      then (granted none, store)
      else as_tenant (current_tenant authorization store)

unfoldable pub admin_only : (admin_token authorization : String) → Access (Unit {0})
admin_only admin_token authorization =
    if str_eq authorization (expected admin_token)
    then granted tt
    else denied 403 "auth.invalid_token" "Admin token required."
