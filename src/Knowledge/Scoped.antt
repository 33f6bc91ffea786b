-- ===== src/Knowledge/Scoped.antt =====
-- Which chunks a search of the knowledge base finds.
use nightswatch.Prelude.{
  ℕ, zero, suc, ◌≤◌, String, ◌≡◌, ◌⊎◌, inl, inr, refl, Bool, true, false, Bool-cases, ◌&&◌,
  and_true, Option, none, some, List, [], ◌∷◌, length, take, length-take, leb, leb→le, ◌==◌, ==_iff,
  if◌then◌else◌, arith,
}
use nightswatch.Knowledge.{
  Metric, KnowledgeDoc, KnowledgeChunk, Tables, Hit, is_none, allows, doc_of, hit_with, hit_of,
  insert_hit, add_hit, closest_first, search_chunks,
}

module _ (metric : Metric) where
  abbrev pub AllHits : (Hit metric → Type 0) → List (Hit metric) → Type 0
  AllHits P [] = Unit
  AllHits P (h ∷ hits) = P h × AllHits P hits

  abbrev OfHit : (Hit metric → Type 0) → Option (Hit metric) → Type 0
  OfHit P none = Unit
  OfHit P (some h) = P h

  abbrev pub In : KnowledgeChunk metric → List (KnowledgeChunk metric) → Type 0
  In c [] = ⊥
  In c (d ∷ chunks) = (c ≡ d) ⊎ In c chunks

  abbrev pub From : ℕ → List (Hit metric) → Type 0
  From distance [] = Unit
  From distance (h ∷ hits) = (distance ≤ h.distance) × From distance hits

  -- No hit stands before a closer one.
  abbrev pub Closest : List (Hit metric) → Type 0
  Closest [] = Unit
  Closest (h ∷ hits) = From h.distance hits × Closest hits

  AllHits-take :
      (P : Hit metric → Type 0) (k : ℕ) (hits : List (Hit metric))
      → AllHits P hits
      → AllHits P (take k hits)
  AllHits-take P zero hits all = tt
  AllHits-take P (suc k) [] all = tt
  AllHits-take P (suc k) (h ∷ hits) (p, all) = (p, AllHits-take P k hits all)

  AllHits-map :
      (P Q : Hit metric → Type 0)
      → ((h : Hit metric) → P h → Q h)
      → (hits : List (Hit metric)) → AllHits P hits
      → AllHits Q hits
  AllHits-map P Q f [] all = tt
  AllHits-map P Q f (h ∷ hits) (p, all) = (f h p, AllHits-map P Q f hits all)

  From-take :
      (distance k : ℕ) (hits : List (Hit metric)) → From distance hits → From distance (take k hits)
  From-take distance zero hits from = tt
  From-take distance (suc k) [] from = tt
  From-take distance (suc k) (h ∷ hits) (le, from) = (le, From-take distance k hits from)

  Closest-take : (k : ℕ) (hits : List (Hit metric)) → Closest hits → Closest (take k hits)
  Closest-take zero hits closest = tt
  Closest-take (suc k) [] closest = tt
  Closest-take (suc k) (h ∷ hits) (from, closest) =
      (From-take h.distance k hits from, Closest-take k hits closest)

  From-le : (d e : ℕ) (hits : List (Hit metric)) → d ≤ e → From e hits → From d hits
  From-le d e [] le from = tt
  From-le d e (h ∷ hits) le (le', from) = (omega (arith, le, le'), From-le d e hits le from)

  module _ (tenant_id : ℕ) (embedding : metric.Vector) (kinds : Option (List String)) where
    AllHits-insert :
        (P : Hit metric → Type 0) (h : Hit metric) (hits : List (Hit metric))
        → P h
        → AllHits P hits
        → AllHits P (insert_hit metric tenant_id embedding kinds h hits)
    unfolding insert_hit
    AllHits-insert P h [] p all = (p, tt)
    AllHits-insert P h (g ∷ hits) p (q, all) = elim (Bool-cases (leb h.distance g.distance)) [
      | inl e ↦ rw e (p, (q, all))
      | inr e ↦ rw e (q, AllHits-insert P h hits p all)
    ]

    From-insert :
        (d : ℕ) (h : Hit metric) (hits : List (Hit metric))
        → d ≤ h.distance
        → From d hits
        → From d (insert_hit metric tenant_id embedding kinds h hits)
    unfolding insert_hit
    From-insert d h [] le from = (le, tt)
    From-insert d h (g ∷ hits) le (le', from) = elim (Bool-cases (leb h.distance g.distance)) [
      | inl e ↦ rw e (le, (le', from))
      | inr e ↦ rw e (le', From-insert d h hits le from)
    ]

    Closest-insert :
        (h : Hit metric) (hits : List (Hit metric))
        → Closest hits
        → Closest (insert_hit metric tenant_id embedding kinds h hits)
    unfolding insert_hit
    Closest-insert h [] closest = (tt, tt)
    Closest-insert h (g ∷ hits) (from, closest) = elim (Bool-cases (leb h.distance g.distance)) [
      | inl e ↦
          let le = leb→le h.distance g.distance e in
          rw e ((le, From-le h.distance g.distance hits le from), (from, closest))
      | inr e ↦
          rw e
            (From-insert g.distance h hits (ground (arith, e)) from, Closest-insert h hits closest)
    ]

    module _ (docs : List KnowledgeDoc) where
      -- A chunk of the tenant, of a document of an allowed kind that is not deleted, with that
      -- document's title and the distance of the chunk's own embedding.
      pub record Visible (h : Hit metric) : Type 0 where
        pub tenant : h.chunk.tenant_id ≡ tenant_id
        pub doc : KnowledgeDoc
        pub found : doc_of metric h.chunk.doc_id docs ≡ some doc
        pub kept : doc.deleted_at ≡ none
        pub allowed : allows kinds doc.kind ≡ true
        pub title : h.title ≡ doc.title
        pub vector : metric.Vector
        pub embedded : h.chunk.embedding ≡ some vector
        pub distance : h.distance ≡ metric.cosine_distance vector embedding

      OfHit-if :
          (P : Hit metric → Type 0) (b : Bool) (h : Hit metric)
          → (b ≡ true → P h)
          → OfHit P (if b then some h else none)
      OfHit-if P true h f = f refl
      OfHit-if P false h f = tt

      none_of : {A : Type 0} (o : Option A) → is_none o ≡ true → o ≡ none
      none_of none e = refl
      none_of (some x) e = cc

      abbrev Seen : KnowledgeChunk metric → Hit metric → Type 0
      Seen c h = (h.chunk ≡ c) × Visible h

      hit_with-Seen :
          (c : KnowledgeChunk metric) (o : Option KnowledgeDoc) (v : Option metric.Vector)
          → c.tenant_id ≡ tenant_id
          → doc_of metric c.doc_id docs ≡ o
          → c.embedding ≡ v
          → OfHit (Seen c) (hit_with metric tenant_id embedding kinds c o v)
      hit_with-Seen c none v own found embedded = tt
      hit_with-Seen c (some doc) none own found embedded = tt
      hit_with-Seen c (some doc) (some vector) own found embedded =
          OfHit-if (Seen c) (is_none doc.deleted_at && allows kinds doc.kind) _ (λ e.
            let (kept, allowed) = and_true (is_none doc.deleted_at) (allows kinds doc.kind) e in
            (
              refl,
              record {
                tenant = own;
                doc = doc;
                found = found;
                kept = none_of doc.deleted_at kept;
                allowed = allowed;
                title = refl;
                vector = vector;
                embedded = embedded;
                distance = refl;
              },
            ))

      hit_of-Seen :
          (c : KnowledgeChunk metric)
          → OfHit (Seen c) (hit_of metric tenant_id embedding kinds docs c)
      unfolding hit_of
      hit_of-Seen c = elim (Bool-cases (c.tenant_id == tenant_id)) [
        | inl e ↦ rw e (
            hit_with-Seen c (doc_of metric c.doc_id docs) c.embedding
              ((==_iff c.tenant_id tenant_id).0 e) refl refl)
        | inr e ↦ rw e tt
      ]

      -- A hit among these chunks.
      abbrev pub Among : List (KnowledgeChunk metric) → Hit metric → Type 0
      Among chunks h = In h.chunk chunks × Visible h

      add_hit-Among :
          (c : KnowledgeChunk metric) (chunks : List (KnowledgeChunk metric))
          (o : Option (Hit metric)) (hits : List (Hit metric))
          → OfHit (Seen c) o
          → AllHits (Among chunks) hits × Closest hits
          → AllHits (Among (c ∷ chunks)) (add_hit metric tenant_id embedding kinds o hits)
            × Closest (add_hit metric tenant_id embedding kinds o hits)
      add_hit-Among c chunks none hits seen (all, closest) = (
        AllHits-map (Among chunks) (Among (c ∷ chunks)) (λ h (i, v). (inr i, v)) hits all,
        closest,
      )
      add_hit-Among c chunks (some h) hits (same, visible) (all, closest) = (
        AllHits-insert (Among (c ∷ chunks)) h hits (inl same, visible)
            (AllHits-map (Among chunks) (Among (c ∷ chunks)) (λ h (i, v). (inr i, v)) hits all),
        Closest-insert h hits closest,
      )

      closest_first-Among :
          (chunks : List (KnowledgeChunk metric))
          → AllHits (Among chunks) (closest_first metric tenant_id embedding kinds docs chunks)
            × Closest (closest_first metric tenant_id embedding kinds docs chunks)
      unfolding closest_first
      closest_first-Among [] = (tt, tt)
      closest_first-Among (c ∷ chunks) =
          add_hit-Among c chunks (hit_of metric tenant_id embedding kinds docs c) _ (hit_of-Seen c)
            (closest_first-Among chunks)

    -- A search gives at most `k` hits, the closest first, and each is a stored chunk of the tenant
    -- that searches, of a document that is not deleted and of one of the kinds that were asked for,
    -- with the title of that document and the distance of the chunk's embedding from the query's.
    pub search_chunks-Visible :
        (k : ℕ) (tables : Tables metric)
        → (length (search_chunks metric tenant_id embedding kinds k tables) ≤ k)
          × Closest (search_chunks metric tenant_id embedding kinds k tables)
          × AllHits
              (Among tables.docs tables.chunks)
              (search_chunks metric tenant_id embedding kinds k tables)
    unfolding search_chunks
    search_chunks-Visible k tables =
        let (all, closest) = closest_first-Among tables.docs tables.chunks in
        let hits = closest_first metric tenant_id embedding kinds tables.docs tables.chunks in
        (
          length-take k hits,
          Closest-take k hits closest,
          AllHits-take (Among tables.docs tables.chunks) k hits all,
        )
