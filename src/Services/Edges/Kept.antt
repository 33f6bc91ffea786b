-- ===== src/Services/Edges/Kept.antt =====
-- What a round of discovery does to the edges that were there.
use nightswatch.Prelude.{
  ℕ, ◌≡◌, ◌⊎◌, inl, inr, refl, Bool, true, false, Option, none, some, List, [], ◌∷◌, ◌++◌, length,
  ◌==◌, if◌then◌else◌,
}
use nightswatch.Action.{Result}
use nightswatch.Services.{ServiceDependency, DiscoveredDependency, Tables}
use nightswatch.Services.Edges.{
  update_dependency, find_edge, observe, new_edge, upsert_edge, upsert_edges, flush,
  list_for_service, upsert_discovered, are_unique,
}

-- The same edge, with the same answer of the user; it is as it was or was seen at `now`.
pub record Same (now : ℕ) (before after : ServiceDependency) : Type 0 where
  pub id : after.id ≡ before.id
  pub tenant_id : after.tenant_id ≡ before.tenant_id
  pub service_id : after.service_id ≡ before.service_id
  pub direction : after.direction ≡ before.direction
  pub name : after.name ≡ before.name
  pub confirmed_by_user : after.confirmed_by_user ≡ before.confirmed_by_user
  pub seen : (after ≡ before) ⊎ (after.last_seen_at ≡ some now)

module _ (now : ℕ) where
  -- Edges of this round, that no user has confirmed.
  abbrev pub AllNew : List ServiceDependency → Type 0
  AllNew [] = Unit
  AllNew (d ∷ deps) = (d.confirmed_by_user ≡ false) × (d.last_seen_at ≡ some now) × AllNew deps

  -- Every edge is still there, in its place, and what follows is new.
  abbrev pub Kept : (before after : List ServiceDependency) → Type 0
  Kept [] after = AllNew after
  Kept (b ∷ before) [] = ⊥
  Kept (b ∷ before) (a ∷ after) = Same now b a × Kept before after

  Kept-refl : (deps : List ServiceDependency) → Kept deps deps
  Kept-refl [] = tt
  Kept-refl (d ∷ deps) = (
    record {
      id = refl;
      tenant_id = refl;
      service_id = refl;
      direction = refl;
      name = refl;
      confirmed_by_user = refl;
      seen = inl refl;
    },
    Kept-refl deps,
  )

  Same-observe :
      (b : Bool) (dep : DiscoveredDependency) (before after : ServiceDependency)
      → Same now before after
      → Same now before (if b then observe now dep after else after)
  Same-observe true dep before after same = record {
    id = same.id;
    tenant_id = same.tenant_id;
    service_id = same.service_id;
    direction = same.direction;
    name = same.name;
    confirmed_by_user = same.confirmed_by_user;
    seen = inr refl;
  }
  Same-observe false dep before after same = same

  AllNew-if :
      (b : Bool) (dep : DiscoveredDependency) (d : ServiceDependency)
      (rest : List ServiceDependency)
      → d.confirmed_by_user ≡ false
      → d.last_seen_at ≡ some now
      → AllNew rest
      → AllNew ((if b then observe now dep d else d) ∷ rest)
  AllNew-if true dep d rest unconfirmed seen new = (unconfirmed, refl, new)
  AllNew-if false dep d rest unconfirmed seen new = (unconfirmed, seen, new)

  Kept-update_dependency :
      (id : ℕ) (dep : DiscoveredDependency) (before after : List ServiceDependency)
      → Kept before after
      → Kept before (update_dependency id (observe now dep) after)
  unfolding update_dependency
  Kept-update_dependency id dep [] [] kept = tt
  Kept-update_dependency id dep [] (a ∷ after) (unconfirmed, seen, new) =
      AllNew-if (a.id == id) dep a _ unconfirmed seen (Kept-update_dependency id dep [] after new)
  Kept-update_dependency id dep (b ∷ before) [] kept = kept
  Kept-update_dependency id dep (b ∷ before) (a ∷ after) (same, kept) =
      (Same-observe (a.id == id) dep b a same, Kept-update_dependency id dep before after kept)

  Kept-append :
      (d : ServiceDependency) (before after : List ServiceDependency)
      → d.confirmed_by_user ≡ false
      → d.last_seen_at ≡ some now
      → Kept before after
      → Kept before (after ++ d ∷ [])
  Kept-append d [] [] unconfirmed seen kept = (unconfirmed, seen, tt)
  Kept-append d [] (a ∷ after) unconfirmed seen (first, second, new) =
      (first, second, Kept-append d [] after unconfirmed seen new)
  Kept-append d (b ∷ before) [] unconfirmed seen kept = elim kept [ ]
  Kept-append d (b ∷ before) (a ∷ after) unconfirmed seen (same, kept) =
      (same, Kept-append d before after unconfirmed seen kept)

  -- The edges are kept, and the other tables are as they were.
  pub record Refreshed (before after : Tables) : Type 0 where
    pub services : after.services ≡ before.services
    pub metrics : after.metrics ≡ before.metrics
    pub dependencies : Kept before.dependencies after.dependencies

  pub Refreshed-refl : (t : Tables) → Refreshed t t
  Refreshed-refl t = record {
    services = refl;
    metrics = refl;
    dependencies = Kept-refl t.dependencies;
  }

  module _ (tenant_id service_id : ℕ) where
    Refreshed-upsert_edge :
        (dep : DiscoveredDependency) (found : Option ServiceDependency) (start t : Tables)
        → Refreshed start t
        → Refreshed start (upsert_edge tenant_id now service_id dep found t)
    unfolding upsert_edge
    Refreshed-upsert_edge dep none start t r = record {
      services = r.services;
      metrics = r.metrics;
      dependencies =
          Kept-append (new_edge tenant_id now service_id t.next_id dep) start.dependencies
            t.dependencies refl refl r.dependencies;
    }
    Refreshed-upsert_edge dep (some row) start t r = record {
      services = r.services;
      metrics = r.metrics;
      dependencies =
          Kept-update_dependency row.id dep start.dependencies t.dependencies r.dependencies;
    }

    Refreshed-upsert_edges :
        (existing : List ServiceDependency) (deps : List DiscoveredDependency) (start t : Tables)
        → Refreshed start t
        → Refreshed start (upsert_edges tenant_id now service_id existing deps t)
    unfolding upsert_edges
    Refreshed-upsert_edges existing [] start t r = r
    Refreshed-upsert_edges existing (dep ∷ deps) start t r =
        Refreshed-upsert_edges existing deps start _
          (Refreshed-upsert_edge dep (find_edge dep.direction dep.name existing) start t r)

    Refreshed-flush :
        (count : ℕ) (start after : Tables)
        → Refreshed start after
        → Refreshed start (flush tenant_id count start after).1
    Refreshed-flush count start after r =
        flushed (are_unique after.dependencies) _ _ r (Refreshed-refl start)
      where
        flushed :
            (b : Bool) (x y : Result ℕ × Tables)
            → Refreshed start x.1
            → Refreshed start y.1
            → Refreshed start (if b then x else y).1
        flushed true x y rx ry = rx
        flushed false x y rx ry = ry

    pub upsert_discovered-Refreshed :
        (deps : List DiscoveredDependency) (t : Tables)
        → Refreshed t (upsert_discovered tenant_id now service_id deps t).1
    unfolding upsert_discovered
    upsert_discovered-Refreshed deps t =
        let after =
          upsert_edges tenant_id now service_id (list_for_service tenant_id service_id t) deps t in
        Refreshed-flush (length deps) t after (Refreshed-upsert_edges _ deps t t (Refreshed-refl t))
