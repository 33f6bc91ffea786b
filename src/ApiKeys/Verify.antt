-- ===== src/ApiKeys/Verify.antt =====
-- Which keys are accepted.
use nightswatch.Prelude.{
  ℕ, ◌<◌, String, ◌≡◌, refl, ap, true, ◌&&◌, Bool-cases, ◌⊎◌, inl, inr, Option, none, some, List,
  [], ◌∷◌, ◌++◌, str_eq, eq_iff, arith,
}
use nightswatch.ApiKeys.{
  ApiKey, Tenant, TenantContext, Store, IssuedApiKey, find_by_hash, get_tenant, is_none, is_later,
  is_usable, context_of, mark_used, accept, verify_row, verify, issue,
}

-- The key was not revoked and has not expired; its tenant is active.
pub record Accepted (now : ℕ) (store : Store) (row : ApiKey) (tenant : Tenant) : Type 0 where
  pub unrevoked : row.revoked_at ≡ none
  pub unexpired : (row.expires_at ≡ none) ⊎ ((t : ℕ) × (row.expires_at ≡ some t) × (now < t))
  pub owner : get_tenant row.tenant_id store.tenants ≡ some tenant
  pub active : tenant.status ≡ "active"

usable_parts :
    (now : ℕ) (revoked_at expires_at : Option ℕ)
    → is_none revoked_at && is_later now expires_at ≡ true
    → (revoked_at ≡ none) × ((expires_at ≡ none) ⊎ ((t : ℕ) × (expires_at ≡ some t) × (now < t)))
usable_parts now none none h = (refl, inl refl)
usable_parts now none (some t) h = (refl, inr (t, refl, ground (arith, h)))
usable_parts now (some r) expires_at h = cc

usable_of :
    (now : ℕ) (revoked_at expires_at : Option ℕ)
    → revoked_at ≡ none
    → (expires_at ≡ none) ⊎ ((t : ℕ) × (expires_at ≡ some t) × (now < t))
    → is_none revoked_at && is_later now expires_at ≡ true
usable_of now revoked_at expires_at e (inl never) = rw (e, never) refl
usable_of now revoked_at expires_at e (inr (t, at, later)) = rw (e, at) (ground (arith, later))

-- The row and the tenant that `verify` accepts a key by, and what it gives then.
abbrev pub AcceptedBy : (now : ℕ) → Store → Option ApiKey → Option TenantContext × Store → Type 0
AcceptedBy now store found out =
    (row : ApiKey) × (tenant : Tenant) × (found ≡ some row)
    × Accepted now store row tenant
    × (out ≡ (some (context_of tenant row), mark_used now row.id store))

accept_cases :
    (now : ℕ) (row : ApiKey) (owner : Option Tenant) (store : Store)
    → (accept now row owner store ≡ (none, store))
      ⊎ ((tenant : Tenant) × (owner ≡ some tenant)
          × (tenant.status ≡ "active")
          × (accept now row owner store
              ≡ (some (context_of tenant row), mark_used now row.id store)))
unfolding accept
accept_cases now row none store = inl refl
accept_cases now row (some tenant) store = elim (Bool-cases (str_eq tenant.status "active")) [
  | inl active ↦ inr (tenant, refl, (eq_iff tenant.status "active").0 active, rw active refl)
  | inr other ↦ inl (rw other refl)
]

verify_row_cases :
    (now : ℕ) (found : Option ApiKey) (store : Store)
    → (verify_row now found store ≡ (none, store))
      ⊎ AcceptedBy now store found (verify_row now found store)
unfolding verify_row
verify_row_cases now none store = inl refl
verify_row_cases now (some row) store = elim (Bool-cases (is_usable now row)) [
  | inr unusable ↦ inl (rw unusable refl)
  | inl usable ↦ elim (accept_cases now row (get_tenant row.tenant_id store.tenants) store) [
    | inl refused ↦ inl (rw usable refused)
    | inr (tenant, owner, active, e) ↦
        let (unrevoked, unexpired) = usable_parts now row.revoked_at row.expires_at usable in
        inr (
          row,
          tenant,
          refl,
          record { unrevoked = unrevoked; unexpired = unexpired; owner = owner; active = active },
          rw usable e,
        )
  ]
]

verify_row_of :
    (now : ℕ) (row : ApiKey) (tenant : Tenant) (store : Store)
    → Accepted now store row tenant
    → verify_row now (some row) store ≡ (some (context_of tenant row), mark_used now row.id store)
unfolding verify_row accept
verify_row_of now row tenant store a =
    rw (usable_of now row.revoked_at row.expires_at a.unrevoked a.unexpired)
      (rw a.owner (rw ((eq_iff tenant.status "active").1 a.active) refl))

find_by_hash-append :
    (key_hash : String) (keys : List ApiKey) (row : ApiKey)
    → find_by_hash key_hash keys ≡ none
    → row.key_hash ≡ key_hash
    → find_by_hash key_hash (keys ++ row ∷ []) ≡ some row
unfolding find_by_hash
find_by_hash-append key_hash [] row missing same = ground (arith, eq_iff row.key_hash key_hash)
find_by_hash-append key_hash (k ∷ keys) row missing same =
    elim (Bool-cases (str_eq k.key_hash key_hash)) [
      | inl found ↦ absurd (ground (arith, found, missing))
      | inr other ↦ rw other (find_by_hash-append key_hash keys row (rw other at missing) same)
    ]

module _ (hash_api_key : String → String) (now : ℕ) where
  -- A key that is accepted is one whose hash a row has that was not revoked and has not expired, of a
  -- tenant that is there and active: the context is that tenant's, and the row is marked as used. Any
  -- other key gives no context, and the tables stay as they are.
  pub verify_cases :
      (raw_key : String) (store : Store)
      → (verify hash_api_key now raw_key store ≡ (none, store))
        ⊎ AcceptedBy now store
            (find_by_hash (hash_api_key raw_key) store.api_keys)
            (verify hash_api_key now raw_key store)
  unfolding verify
  verify_cases raw_key store =
      verify_row_cases now (find_by_hash (hash_api_key raw_key) store.api_keys) store

  -- A key is accepted where a row has its hash that was not revoked and has not expired, and whose
  -- tenant is there and active.
  pub verify_accepts :
      (raw_key : String) (store : Store) (row : ApiKey) (tenant : Tenant)
      → find_by_hash (hash_api_key raw_key) store.api_keys ≡ some row
      → Accepted now store row tenant
      → verify hash_api_key now raw_key store
        ≡ (some (context_of tenant row), mark_used now row.id store)
  unfolding verify
  verify_accepts raw_key store row tenant found accepted =
      rw found (verify_row_of now row tenant store accepted)

  -- The context of a key that was issued to a tenant.
  abbrev pub issued_context : Tenant → IssuedApiKey → TenantContext
  issued_context tenant issued = record {
    tenant_id = tenant.id;
    name = tenant.name;
    slug = tenant.slug;
    api_key_id = issued.id;
  }

  -- A key that was issued to an active tenant is accepted as that tenant's, under the id that was
  -- shown, if no row had its hash before.
  pub verify-issue :
      (issued_at : ℕ) (name full : String) (store : Store) (tenant : Tenant)
      → get_tenant tenant.id store.tenants ≡ some tenant
      → tenant.status ≡ "active"
      → find_by_hash (hash_api_key full) store.api_keys ≡ none
      → (verify hash_api_key now full (issue hash_api_key issued_at tenant.id name full store).1).0
        ≡ some (issued_context tenant (issue hash_api_key issued_at tenant.id name full store).0)
  unfolding issue
  verify-issue issued_at name full store tenant owner active missing =
      let after = (issue hash_api_key issued_at tenant.id name full store).1 in
      ap (λ (out : Option TenantContext × Store). out.0)
        (verify_accepts full after _ tenant
          (find_by_hash-append (hash_api_key full) store.api_keys _ missing refl)
          (record { unrevoked = refl; unexpired = inl refl; owner = owner; active = active }))
