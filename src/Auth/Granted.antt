-- ===== src/Auth/Granted.antt =====
-- Who is let in.
use package.text.Mathlib.Text.{starts_with}
use nightswatch.Prelude.{
  ℕ, String, ◌≡◌, ◌⊎◌, inl, inr, refl, ap, Bool-cases, Option, none, some, str_eq, eq_iff,
}
use nightswatch.ApiKeys.{ApiKey, Tenant, TenantContext, Store, find_by_hash, context_of, mark_used}
use nightswatch.ApiKeys.Verify.{Accepted, AcceptedBy, verify_cases}
use nightswatch.Auth.{
  Access, granted, denied, PyHeader, expected, token_of, of_verified, current_tenant, as_tenant,
  current_tenant_or_admin,
}

module _ (py : PyHeader) (hash_api_key : String → String) (now : ℕ) (store : Store) where
  -- Denied with 401, and no key is marked as used.
  abbrev pub Denied : {A : Type 0} → Access A × Store → Type 0
  Denied q = (message : String) × (q ≡ (denied 401 "auth.invalid_token" message, store))

  -- The token is a key that is accepted, and `give` says what of it is granted.
  abbrev pub KeyOf :
      {A : Type 0} → (TenantContext → A) → (authorization : String) → Access A × Store → Type 0
  KeyOf give authorization q =
      (row : ApiKey) × (tenant : Tenant) × (find_by_hash
          (hash_api_key (token_of py hash_api_key now authorization)) store.api_keys
        ≡ some row)
      × Accepted now store row tenant
      × (q ≡ (granted (give (context_of tenant row)), mark_used now row.id store))

  verified :
      (authorization : String) (out : Option TenantContext × Store)
      → (out ≡ (none, store))
        ⊎ AcceptedBy now store
            (find_by_hash
              (hash_api_key (token_of py hash_api_key now authorization))
              store.api_keys)
            out
      → Denied (of_verified py hash_api_key now out)
        ⊎ KeyOf (λ ctx. ctx) authorization (of_verified py hash_api_key now out)
  verified authorization out (inl e) = inl (_, ap (of_verified py hash_api_key now) e)
  verified authorization out (inr (row, tenant, found, accepted, e)) =
      inr (row, tenant, found, accepted, ap (of_verified py hash_api_key now) e)

  tenant_cases :
      (authorization : String)
      → Denied (current_tenant py hash_api_key now authorization store)
        ⊎ KeyOf (λ ctx. ctx) authorization (current_tenant py hash_api_key now authorization store)
  unfolding current_tenant
  tenant_cases authorization = elim (Bool-cases (starts_with (py.lower authorization) "bearer ")) [
    | inr e ↦ inl ("Missing bearer token.", rw e refl)
    | inl e ↦ elim (Bool-cases (str_eq (token_of py hash_api_key now authorization) "")) [
      | inl empty ↦ inl ("Empty bearer token.", rw (e, empty) refl)
      | inr written ↦
          rw (e, written)
            (verified authorization _
              (verify_cases hash_api_key now (token_of py hash_api_key now authorization) store))
    ]
  ]

  either :
      (authorization : String) (q : Access TenantContext × Store)
      → Denied q ⊎ KeyOf (λ ctx. ctx) authorization q
      → Denied (as_tenant py hash_api_key now q)
        ⊎ KeyOf some authorization (as_tenant py hash_api_key now q)
  either authorization q (inl (message, e)) = inl (message, ap (as_tenant py hash_api_key now) e)
  either authorization q (inr (row, tenant, found, accepted, e)) =
      inr (row, tenant, found, accepted, ap (as_tenant py hash_api_key now) e)

  -- A request that may come from the admin is taken for the admin's only with the admin's header, and
  -- then no key is touched; it is taken for a tenant's only with a key that is stored, was not revoked,
  -- has not expired and belongs to the active tenant that is granted, and that key alone is marked as
  -- used. Any other request is denied with 401, and the keys stay as they are.
  pub current_tenant_or_admin_cases :
      (admin_token authorization : String)
      → ((authorization ≡ expected admin_token)
          × (current_tenant_or_admin py hash_api_key now admin_token authorization store
              ≡ (granted none, store)))
        ⊎ (Denied (current_tenant_or_admin py hash_api_key now admin_token authorization store)
            ⊎ KeyOf some authorization
                (current_tenant_or_admin py hash_api_key now admin_token authorization store))
  unfolding current_tenant_or_admin
  current_tenant_or_admin_cases admin_token authorization =
      elim (Bool-cases (str_eq authorization (expected admin_token))) [
        | inl e ↦ inl ((eq_iff authorization (expected admin_token)).0 e, rw e refl)
        | inr e ↦ inr (rw e (either authorization _ (tenant_cases authorization)))
      ]
