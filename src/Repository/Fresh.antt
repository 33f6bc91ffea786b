-- ===== src/Repository/Fresh.antt =====
-- The identifiers that a database hands out: a new investigation is found under its own.
use nightswatch.Prelude.{
  ℕ, suc, ◌≤◌, ◌<◌, String, ◌≡◌, refl, Bool, ◌&&◌, Option, some, List, [], ◌∷◌, ◌++◌, ◌==◌, arith,
}
use nightswatch.Database.{Investigation, Db}
use nightswatch.Repository.{filter, first, get, create_pending}

-- No investigation has an identifier that is still to be handed out.
abbrev pub AllBelow : ℕ → List Investigation → Type 0
AllBelow n [] = Unit
AllBelow n (i ∷ is) = (i.id < n) × AllBelow n is

abbrev pub Fresh : Db → Type 0
Fresh db = AllBelow db.next_id db.investigations

pub AllBelow-weaken : (n m : ℕ) (is : List Investigation) → n ≤ m → AllBelow n is → AllBelow m is
AllBelow-weaken n m [] h all = tt
AllBelow-weaken n m (i ∷ is) h (below, all) = (omega arith, AllBelow-weaken n m is h all)

AllBelow-append :
    (n m : ℕ) (is : List Investigation) (i : Investigation)
    → n ≤ m
    → i.id < m
    → AllBelow n is
    → AllBelow m (is ++ i ∷ [])
AllBelow-append n m [] i h lt all = (lt, tt)
AllBelow-append n m (j ∷ is) i h lt (below, all) = (omega arith, AllBelow-append n m is i h lt all)

first-last :
    (tenant_id n : ℕ) (is : List Investigation) (i : Investigation)
    → AllBelow n is
    → i.id ≡ n
    → i.tenant_id ≡ tenant_id
    → first (filter (λ (j : Investigation). j.tenant_id == tenant_id && j.id == n) (is ++ i ∷ []))
      ≡ some i
first-last tenant_id n [] i all e t = ground arith
first-last tenant_id n (j ∷ is) i (below, all) e t =
    ground (arith, first-last tenant_id n is i all e t)

module _ (tenant_id now service_id : ℕ) (alert_id : Option ℕ) (fingerprint : String) where
  module _ (is_backtest dry_run : Bool) (replayed_from : Option ℕ) (db : Db) where
    abbrev created : Investigation × Db
    created =
        create_pending tenant_id now service_id alert_id fingerprint is_backtest dry_run
          replayed_from db

    -- Where no investigation has an identifier that is still to be handed out, a new one is read back,
    -- as it was written, under the identifier that it got.
    pub create_pending-get : Fresh db → get tenant_id created.0.id created.1 ≡ some created.0
    unfolding get create_pending
    create_pending-get fresh = first-last tenant_id db.next_id db.investigations _ fresh refl refl

    pub create_pending-Fresh : Fresh db → Fresh created.1
    unfolding create_pending
    create_pending-Fresh fresh =
        AllBelow-append db.next_id (suc db.next_id) db.investigations _ (omega arith) (omega arith)
          fresh
