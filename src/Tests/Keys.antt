-- ===== src/Tests/Keys.antt =====
-- API keys.
use nightswatch.Prelude.{String, ◌≡◌, refl, ◌⊎◌, inr, none, some, [], ◌∷◌, arith}
use nightswatch.ApiKeys.{
  ApiKey, Tenant, Store, find_by_hash, get_key, get_tenant, verify, issue, revoke,
}
use nightswatch.ApiKeys.Verify.{Accepted, AcceptedBy, issued_context, verify_cases, verify-issue}
use nightswatch.ApiKeys.Revoke.{verify-revoke}

abbrev pub hash : String → String
hash s = s

abbrev tenant : Tenant
tenant = record { id = 1; name = "Acme"; slug = "acme"; status = "active" }

abbrev row : ApiKey
row = record {
  id = 7;
  tenant_id = 1;
  name = "ci";
  key_hash = "ai-sre-live-a";
  prefix = "ai-sre-l";
  created_at = 100;
  expires_at = some 900;
  revoked_at = none;
  last_used_at = none;
}

abbrev pub store : Store
store = record { api_keys = row ∷ []; tenants = tenant ∷ []; next_id = 8 }

found : find_by_hash "ai-sre-live-a" store.api_keys ≡ some row
unfolding find_by_hash
found = refl

by_id : get_key 7 store.api_keys ≡ some row
unfolding get_key
by_id = refl

owner : get_tenant 1 store.tenants ≡ some tenant
unfolding get_tenant
owner = refl

unknown : find_by_hash "ai-sre-live-b" store.api_keys ≡ none
unfolding find_by_hash
unknown = refl

verify_cases_example :
    (verify hash 500 "ai-sre-live-a" store ≡ (none, store))
    ⊎ AcceptedBy 500 store
        (find_by_hash "ai-sre-live-a" store.api_keys)
        (verify hash 500 "ai-sre-live-a" store)
verify_cases_example = verify_cases hash 500 "ai-sre-live-a" store

row-Accepted : Accepted 500 store row tenant
row-Accepted = record {
  unrevoked = refl;
  unexpired = inr (900, refl, omega arith);
  owner = owner;
  active = refl;
}

verify-issue_example :
    (verify hash 500 "ai-sre-live-b" (issue hash 400 1 "web" "ai-sre-live-b" store).1).0
    ≡ some (issued_context hash 500 tenant (issue hash 400 1 "web" "ai-sre-live-b" store).0)
verify-issue_example =
    verify-issue hash 500 400 "web" "ai-sre-live-b" store tenant owner refl unknown

verify-revoke_example :
    verify hash 700 "ai-sre-live-a" (revoke 600 1 7 store) ≡ (none, revoke 600 1 7 store)
verify-revoke_example = verify-revoke hash 1 "ai-sre-live-a" 600 700 store row found by_id refl
