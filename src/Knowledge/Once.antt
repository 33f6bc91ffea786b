-- ===== src/Knowledge/Once.antt =====
-- A runbook is ingested once.
use nightswatch.Prelude.{
  ℕ, String, ◌≡◌, inl, inr, refl, ap, ◌∙◌, Bool, true, and_intro, Bool-cases, Option, none, some,
  List, [], ◌∷◌, ◌++◌, eq_iff, ==_iff,
}
use mathlib.Core.Path.{subst}
use nightswatch.Action.{Result, return, raise, pure, proceed, ◌>>=◌}
use nightswatch.Chunker.Sections.{Chunk, chunk}
use nightswatch.Repository.{filter, first}
use nightswatch.Knowledge.{
  Metric, KnowledgeDoc, KnowledgeChunk, Tables, create_doc, find_doc_by_source_key,
}
use nightswatch.Knowledge.Ingestion.{
  KnowledgeDocInput, KnowledgeService, FetchedRunbook, add_chunks, with_vectors, index_chunks,
  ingest, runbook_of, ingest_fetched, ingest_unless, ingest_runbook_from_url,
}

first-filter-append :
    {A : Type 0} (p : A → Bool) (xs : List A) (x : A)
    → p x ≡ true
    → (y : A) × (first (filter p (xs ++ x ∷ [])) ≡ some y)
first-filter-append p [] x e = (x, rw e refl)
first-filter-append p (y ∷ xs) x e = elim (Bool-cases (p y)) [
  | inl e' ↦ (y, rw e' refl)
  | inr e' ↦ rw e' (first-filter-append p xs x e)
]

state-proceed :
    {S A B : Type 0} (x : B) (q : Result A × S) → (proceed q.0 (λ _. pure x) q.1).1 ≡ q.1
unfolding pure
state-proceed x (return a, s) = refl
state-proceed x (raise e, s) = refl

module _ (metric : Metric) (service : KnowledgeService metric) (tenant_id : ℕ) where
  docs-add_chunks :
      (rows : Result (List (KnowledgeChunk metric))) (tables : Tables metric)
      → (add_chunks metric service tenant_id rows tables).1.docs ≡ tables.docs
  unfolding add_chunks
  docs-add_chunks (return rows) tables = refl
  docs-add_chunks (raise e) tables = refl

  docs-with_vectors :
      (id : ℕ) (chunks : List Chunk) (vectors : Result (List metric.Vector))
      (tables : Tables metric)
      → (with_vectors metric service tenant_id id chunks vectors tables).1.docs ≡ tables.docs
  docs-with_vectors id chunks (return vectors) tables = docs-add_chunks _ tables
  docs-with_vectors id chunks (raise e) tables = refl

  docs-index_chunks :
      (id : ℕ) (chunks : List Chunk) (tables : Tables metric)
      → (index_chunks metric service tenant_id id chunks tables).1.docs ≡ tables.docs
  docs-index_chunks id [] tables = refl
  docs-index_chunks id (c ∷ cs) tables = docs-with_vectors id (c ∷ cs) _ tables

  docs-ingest :
      (now : ℕ) (doc : KnowledgeDocInput) (tables : Tables metric)
      → (ingest metric service tenant_id now doc tables).1.docs
        ≡ (create_doc metric tenant_id now doc.kind doc.title doc.source_object_key doc.metadata
            tables).1.docs
  unfolding ingest create_doc ◌>>=◌
  docs-ingest now doc tables =
      let after : Tables metric =
        (create_doc metric tenant_id now doc.kind doc.title doc.source_object_key doc.metadata
          tables).1 in
      let chunks = chunk service.py service.chunker doc.text doc.is_markdown in
      let row : KnowledgeDoc = record {
        id = tables.next_id;
        tenant_id = tenant_id;
        kind = doc.kind;
        title = doc.title;
        source_object_key = doc.source_object_key;
        extra_metadata = doc.metadata;
        created_at = now;
        deleted_at = none;
      } in
      ap (λ (t : Tables metric). t.docs)
        (state-proceed row (index_chunks metric service tenant_id tables.next_id chunks after))
      ∙ docs-index_chunks tables.next_id chunks after

  -- An active document of the tenant has the address as its key.
  abbrev Known : String → Tables metric → Type 0
  Known url tables =
      (doc : KnowledgeDoc) × (find_doc_by_source_key metric tenant_id url tables ≡ some doc)

  Known-create_doc :
      (now : ℕ) (url : String) (doc : KnowledgeDocInput) (tables after : Tables metric)
      → doc.source_object_key ≡ some url
      → after.docs
        ≡ (create_doc metric tenant_id now doc.kind doc.title doc.source_object_key doc.metadata
            tables).1.docs
      → Known url after
  unfolding create_doc find_doc_by_source_key
  Known-create_doc now url doc tables after key docs = rw docs (
      first-filter-append _ tables.docs _ (
        and_intro _ _ (and_intro _ _ ((==_iff tenant_id tenant_id).1 refl) refl)
          (rw key ((eq_iff url url).1 refl))))

  abbrev Settled : String → Result String × Tables metric → Type 0
  Settled url (raise e, tables) = Unit
  Settled url (return r, tables) = Known url tables

  Settled-Known : (url : String) (q : Result String × Tables metric) → Known url q.1 → Settled url q
  Settled-Known url (return r, tables) known = known
  Settled-Known url (raise e, tables) known = tt

  ingest_fetched-Settled :
      (now : ℕ) (url : String) (fetched : Result FetchedRunbook) (tables : Tables metric)
      → Settled url (ingest_fetched metric service tenant_id now url fetched tables)
  unfolding ◌>>=◌
  ingest_fetched-Settled now url (raise e) tables = tt
  ingest_fetched-Settled now url (return fetched) tables = Settled-Known url _ (
      Known-create_doc now url (runbook_of metric service tenant_id url fetched) tables _ refl (
        ap (λ (t : Tables metric). t.docs)
          (state-proceed "ingested" (
            ingest metric service tenant_id now (runbook_of metric service tenant_id url fetched)
              tables))
        ∙ docs-ingest now (runbook_of metric service tenant_id url fetched) tables))

  ingest_unless-Settled :
      (now : ℕ) (url : String) (o : Option KnowledgeDoc) (tables : Tables metric)
      → find_doc_by_source_key metric tenant_id url tables ≡ o
      → Settled url (ingest_unless metric service tenant_id now url o tables)
  ingest_unless-Settled now url (some doc) tables e = (doc, e)
  ingest_unless-Settled now url none tables e = ingest_fetched-Settled now url _ tables

  ingest_runbook_from_url-Settled :
      (now : ℕ) (url : String) (tables : Tables metric)
      → Settled url (ingest_runbook_from_url metric service tenant_id now url tables)
  unfolding ingest_runbook_from_url
  ingest_runbook_from_url-Settled now url tables = ingest_unless-Settled now url _ tables refl

  -- After the ingestion of a runbook has given an answer, ingesting the same address again, at any
  -- time, says that it was ingested already, and writes nothing.
  pub ingest_runbook_from_url-again :
      (now later : ℕ) (url answer : String) (before after : Tables metric)
      → ingest_runbook_from_url metric service tenant_id now url before ≡ (return answer, after)
      → ingest_runbook_from_url metric service tenant_id later url after
        ≡ (return "already_ingested", after)
  unfolding ingest_runbook_from_url
  ingest_runbook_from_url-again now later url answer before after e =
      let known = subst (Settled url) e (ingest_runbook_from_url-Settled now url before) in
      ap (λ o. ingest_unless metric service tenant_id later url o after) known.1
