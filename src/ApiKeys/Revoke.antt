-- ===== src/ApiKeys/Revoke.antt =====
-- Revoking a key.
use nightswatch.Prelude.{
  ℕ, String, ◌≡◌, ◌≢◌, refl, sym, ap, ◌∙◌, true, false, ◌&&◌, Bool-cases, ◌⊎◌, inl, inr,
  Option-cases, Option, none, some, List, [], ◌∷◌, ◌==◌, ==_iff, if◌then◌else◌, arith,
}
use nightswatch.ApiKeys.{
  ApiKey, Store, find_by_hash, get_key, update_key, set_revoked, is_none, verify_row, verify,
  revoke_row, revoke,
}

abbrev changed : (id : ℕ) → (ApiKey → ApiKey) → Option ApiKey → Option ApiKey
changed id f none = none
changed id f (some k) = some (if k.id == id then f k else k)

find_by_hash-update_key :
    (key_hash : String) (id now : ℕ) (keys : List ApiKey)
    → find_by_hash key_hash (update_key id (set_revoked now) keys)
      ≡ changed id (set_revoked now) (find_by_hash key_hash keys)
unfolding find_by_hash update_key
find_by_hash-update_key key_hash id now [] = refl
find_by_hash-update_key key_hash id now (k ∷ keys) =
    ground (arith, find_by_hash-update_key key_hash id now keys)

verify_row-revoked :
    (later : ℕ) (row : ApiKey) (store : Store)
    → is_none row.revoked_at ≡ false
    → verify_row later (some row) store ≡ (none, store)
unfolding verify_row
verify_row-revoked later row store revoked = rw revoked refl

get_key-id : (id : ℕ) (keys : List ApiKey) (k : ApiKey) → get_key id keys ≡ some k → k.id ≡ id
unfolding get_key
get_key-id id [] k e = cc
get_key-id id (j ∷ keys) k e = ground (arith, get_key-id id keys k)

module _ (hash_api_key : String → String) (tenant_id : ℕ) (raw_key : String) where
  -- The lookup after a key was revoked that was not before.
  revoked_now :
      (revoked_at later : ℕ) (store : Store) (row : ApiKey)
      → find_by_hash (hash_api_key raw_key) store.api_keys ≡ some row
      → find_by_hash
          (hash_api_key raw_key)
          (update_key row.id (set_revoked revoked_at) store.api_keys)
        ≡ some (set_revoked revoked_at row)
  revoked_now revoked_at later store row found =
      find_by_hash-update_key (hash_api_key raw_key) row.id revoked_at store.api_keys
      ∙ ap (changed row.id (set_revoked revoked_at)) found
      ∙ ap some (ground arith)

  -- A key that its tenant revokes is not accepted any more, whenever it comes, also if it was revoked
  -- before, where the row of its hash is also the row of that row's id.
  pub verify-revoke :
      (revoked_at later : ℕ) (store : Store) (row : ApiKey)
      → find_by_hash (hash_api_key raw_key) store.api_keys ≡ some row
      → get_key row.id store.api_keys ≡ some row
      → row.tenant_id ≡ tenant_id
      → verify hash_api_key later raw_key (revoke revoked_at tenant_id row.id store)
        ≡ (none, revoke revoked_at tenant_id row.id store)
  unfolding verify revoke
  verify-revoke revoked_at later store row found by_id owner =
      let mine : (row.tenant_id == tenant_id) ≡ true = (==_iff row.tenant_id tenant_id).1 owner in
      elim (Bool-cases (is_none row.revoked_at)) [
        | inl usable ↦ rw by_id (
            rw (mine, usable)
              (rw (revoked_now revoked_at later store row found)
                (verify_row-revoked later (set_revoked revoked_at row) _ refl)))
        | inr revoked ↦
            rw by_id (rw (mine, revoked) (rw found (verify_row-revoked later row store revoked)))
      ]

  revoke_row-ne :
      (revoked_at : ℕ) (store : Store) (k row : ApiKey)
      → find_by_hash (hash_api_key raw_key) store.api_keys ≡ some row
      → ((row.id == k.id) ≡ false) ⊎ ((k.tenant_id == tenant_id) ≡ false)
      → find_by_hash
          (hash_api_key raw_key)
          (revoke_row revoked_at tenant_id (some k) store).api_keys
        ≡ some row
  unfolding revoke_row
  revoke_row-ne revoked_at store k row found (inr other) = rw other found
  revoke_row-ne revoked_at store k row found (inl apart) =
      let changed_row =
        find_by_hash-update_key (hash_api_key raw_key) k.id revoked_at store.api_keys
        ∙ ap (changed k.id (set_revoked revoked_at)) found in
      elim (Bool-cases (k.tenant_id == tenant_id && is_none k.revoked_at)) [
        | inl revoked ↦ rw revoked (changed_row ∙ rw apart refl)
        | inr left_alone ↦ rw left_alone found
      ]

  -- The key with an id is another one than that of another tenant, or is that tenant's.
  ids_apart :
      (key_id : ℕ) (store : Store) (k row : ApiKey)
      → get_key key_id store.api_keys ≡ some k
      → get_key row.id store.api_keys ≡ some row
      → row.tenant_id ≢ tenant_id
      → ((row.id == k.id) ≡ false) ⊎ ((k.tenant_id == tenant_id) ≡ false)
  ids_apart key_id store k row at_id by_id other = elim (Bool-cases (row.id == k.id)) [
    | inr apart ↦ inl apart
    | inl same ↦
        let ids : row.id ≡ key_id =
          (==_iff row.id k.id).0 same ∙ get_key-id key_id store.api_keys k at_id in
        let again : get_key key_id store.api_keys ≡ some row =
          ap (λ id. get_key id store.api_keys) (sym ids) ∙ by_id in
        let one : k ≡ row = cc in inr (ground (arith, other, ap (λ (x : ApiKey). x.tenant_id) one))
  ]

  -- Whatever key a tenant asks to be revoked, the row of a key of another tenant stays as it is, where
  -- that row is also the row of its id.
  pub revoke_other :
      (revoked_at key_id : ℕ) (store : Store) (row : ApiKey)
      → find_by_hash (hash_api_key raw_key) store.api_keys ≡ some row
      → get_key row.id store.api_keys ≡ some row
      → row.tenant_id ≢ tenant_id
      → find_by_hash (hash_api_key raw_key) (revoke revoked_at tenant_id key_id store).api_keys
        ≡ some row
  unfolding revoke
  revoke_other revoked_at key_id store row found by_id other =
      elim (Option-cases (get_key key_id store.api_keys)) [
        | inl missing ↦ rw missing found
        | inr (k, at_id) ↦ rw at_id (
            revoke_row-ne revoked_at store k row found
              (ids_apart key_id store k row at_id by_id other))
      ]
