-- ===== src/Repository/Scope.antt =====
-- Reading an investigation back after its row was updated.
use nightswatch.Prelude.{ℕ, ◌≡◌, refl, Bool, ◌&&◌, Option, none, some, List, [], ◌∷◌, ◌==◌, arith}
use nightswatch.Database.{Investigation, Db}
use nightswatch.Repository.{filter, first, get, update_investigation}

-- An update that leaves the keys of a row alone.
pub record KeepsKeys (f : Investigation → Investigation) : Type 0 where
  pub id : (i : Investigation) → (f i).id ≡ i.id
  pub tenant_id : (i : Investigation) → (f i).tenant_id ≡ i.tenant_id

abbrev pub through : (Investigation → Investigation) → Option Investigation → Option Investigation
through f none = none
through f (some i) = some (f i)

module _ (tenant_id id : ℕ) where
  abbrev is_row : Investigation → Bool
  is_row i = i.tenant_id == tenant_id && i.id == id

  first_updated :
      (f : Investigation → Investigation) (is : List Investigation)
      → KeepsKeys f
      → first (filter is_row (update_investigation id f is)) ≡ through f (first (filter is_row is))
  unfolding update_investigation
  first_updated f [] k = refl
  first_updated f (i ∷ is) k = ground (arith, k.id i, k.tenant_id i, first_updated f is k)

  -- What is read under an identifier after the row with it was updated is the updated row, and
  -- nothing if there was none, for any update that leaves the keys of a row alone.
  pub get-update :
      (f : Investigation → Investigation) (before after : Db)
      → KeepsKeys f
      → after.investigations ≡ update_investigation id f before.investigations
      → get tenant_id id after ≡ through f (get tenant_id id before)
  unfolding get
  get-update f before after k e = rw e (first_updated f before.investigations k)

  get_of :
      (is : List Investigation) (i : Investigation) → first (filter is_row is) ≡ some i → i.id ≡ id
  get_of [] i e = cc
  get_of (j ∷ is) i e = ground (arith, get_of is i)

  -- What is read under an id has that id.
  pub get-id : (db : Db) {i : Investigation} → get tenant_id id db ≡ some i → i.id ≡ id
  unfolding get
  get-id db {i} e = get_of db.investigations i e
