-- ===== src/Knowledge/Ingestion.antt =====
-- core/knowledge/service.py: what is ingested, and what a search shows.
use Prim.Native.Char.{code}
use nightswatch.Prelude.{
  ℕ, ◌+◌, ◌-◌, String, Bool, true, Option, none, some, List, [], ◌∷◌, ◌++◌, map, str_eq, leb, ◌==◌,
  strip_right, if◌then◌else◌,
}
use nightswatch.Json.{Fields, field, end, text, bool}
use nightswatch.Action.{other, Result, return, raise, Action, ◌>>=◌, ◌>>◌, pure}
use nightswatch.Chunker.{Chunker}
use nightswatch.Chunker.Sections.{PyLines, Chunk, chunk}
use nightswatch.Queries.{parts}
use nightswatch.Knowledge.{
  Metric, ℤ, pos, negsuc, KnowledgeDoc, KnowledgeChunk, Tables, Hit, create_doc,
  find_doc_by_source_key, search_chunks,
}

pub record KnowledgeDocInput : Type 0 where
  pub title : String
  pub kind : String
  pub text : String
  pub is_markdown : Bool
  pub metadata : Fields
  pub source_object_key : Option String

pub record KnowledgeSearchResult : Type 0 where
  pub doc_id : ℕ
  pub chunk_id : ℕ
  pub title : String
  pub text : String
  pub headings : List String
  pub score : ℤ

pub record FetchedRunbook : Type 0 where
  pub text : String
  pub is_markdown : Bool

abbrev after_slash : (is_slash : Bool) → String → Option String → Option String
after_slash is_slash rest (some s) = some s
after_slash is_slash rest none = if is_slash then some rest else none

-- What stands after the last slash.
unfoldable pub last_segment : String → Option String
last_segment String.[] = none
last_segment (String.◌∷◌ c s) = after_slash (code c == b'/') s (last_segment s)

abbrev or_whole : String → Option String → String
or_whole whole none = whole
or_whole whole (some s) = s

abbrev or_text : String → String → String
or_text s fallback = if str_eq s "" then fallback else s

-- `url.rstrip("/").rsplit("/", 1)[-1] or url`
unfoldable pub runbook_title : String → String
unfolding last_segment strip_right
runbook_title url =
    let stripped = strip_right "/" url in or_text (or_whole stripped (last_segment stripped)) url

module _ (metric : Metric) where
  -- What the service is given: Python's text operations, the chunker, the embedding provider, and
  -- `fetch_runbook` with its limits.
  pub record KnowledgeService : Type 0 where
    pub py : PyLines
    pub chunker : Chunker
    pub embed_documents : List String → Result (List metric.Vector)
    pub embed_query : String → Result metric.Vector
    pub fetch_runbook : String → Result FetchedRunbook

  module _ (service : KnowledgeService) (tenant_id : ℕ) where
    abbrev chunk_row : (id doc_id : ℕ) → Chunk → metric.Vector → KnowledgeChunk metric
    chunk_row id doc_id c vector = record {
      id = id;
      tenant_id = tenant_id;
      doc_id = doc_id;
      ord = c.ord;
      text = c.text;
      headings = c.headings;
      embedding = some vector;
      tokens = c.tokens;
    }

    abbrev add_row :
        KnowledgeChunk metric
        → Result (List (KnowledgeChunk metric))
        → Result (List (KnowledgeChunk metric))
    add_row row (return rows) = return (row ∷ rows)
    add_row row (raise e) = raise e

    -- `zip(chunks, vectors, strict=True)`; `id` is the first id that is free.
    unfoldable pub chunk_rows :
        (id doc_id : ℕ) → List Chunk → List metric.Vector → Result (List (KnowledgeChunk metric))
    chunk_rows id doc_id [] [] = return []
    chunk_rows id doc_id [] (v ∷ vs) = raise (other "ValueError")
    chunk_rows id doc_id (c ∷ cs) [] = raise (other "ValueError")
    chunk_rows id doc_id (c ∷ cs) (v ∷ vs) =
        add_row (chunk_row id doc_id c v) (chunk_rows (id + 1) doc_id cs vs)

    abbrev count {ℓ} : {A : Type ℓ} → List A → ℕ
    count [] = 0
    count (x ∷ xs) = 1 + count xs

    unfoldable pub add_chunks : Result (List (KnowledgeChunk metric)) → Action (Tables metric) Unit
    add_chunks (raise e) tables = (raise e, tables)
    add_chunks (return rows) tables = (
      return tt,
      record tables { chunks = tables.chunks ++ rows; next_id = tables.next_id + count rows },
    )

    abbrev pub with_vectors :
        (doc_id : ℕ) → List Chunk → Result (List metric.Vector) → Action (Tables metric) Unit
    with_vectors doc_id chunks (raise e) tables = (raise e, tables)
    with_vectors doc_id chunks (return vectors) tables =
        add_chunks (chunk_rows tables.next_id doc_id chunks vectors) tables

    abbrev pub index_chunks : (doc_id : ℕ) → List Chunk → Action (Tables metric) Unit
    index_chunks doc_id [] tables = (return tt, tables)
    index_chunks doc_id (c ∷ cs) tables =
        with_vectors doc_id (c ∷ cs)
          (service.embed_documents (map (λ (c : Chunk). c.text) (c ∷ cs))) tables

    unfoldable pub ingest : (now : ℕ) → KnowledgeDocInput → Action (Tables metric) KnowledgeDoc
    unfolding add_chunks chunk_rows ◌>>=◌
    ingest now doc =
        create_doc metric tenant_id now doc.kind doc.title doc.source_object_key doc.metadata
        >>= λ row.
            index_chunks row.id (chunk service.py service.chunker doc.text doc.is_markdown)
            >> pure row

    abbrev pub runbook_of : String → FetchedRunbook → KnowledgeDocInput
    runbook_of url fetched = record {
      title = runbook_title url;
      kind = "runbook";
      text = fetched.text;
      is_markdown = fetched.is_markdown;
      metadata = field "source_url" (text url) (field "auto_ingested" (bool true) end);
      source_object_key = some url;
    }

    abbrev pub ingest_fetched :
        (now : ℕ) (url : String) → Result FetchedRunbook → Action (Tables metric) String
    unfolding ◌>>=◌
    ingest_fetched now url (raise e) tables = (raise e, tables)
    ingest_fetched now url (return fetched) tables =
        (ingest now (runbook_of url fetched) >>= λ row. pure "ingested") tables

    abbrev pub ingest_unless :
        (now : ℕ) (url : String) → Option KnowledgeDoc → Action (Tables metric) String
    ingest_unless now url (some existing) tables = (return "already_ingested", tables)
    ingest_unless now url none tables = ingest_fetched now url (service.fetch_runbook url) tables

    unfoldable pub ingest_runbook_from_url :
        (now : ℕ) (url : String) → Action (Tables metric) String
    unfolding ingest
    ingest_runbook_from_url now url tables =
        ingest_unless now url (find_doc_by_source_key metric tenant_id url tables) tables

    -- `shown` is `str(investigation_id)`.
    unfoldable pub ingest_past_investigation :
        (now : ℕ) (shown headline body : String) → Action (Tables metric) KnowledgeDoc
    ingest_past_investigation now shown headline body = ingest now (record {
      title = or_text headline (parts ("Investigation " ∷ shown ∷ []));
      kind = "past_investigation";
      text = body;
      is_markdown = true;
      metadata = field "investigation_id" (text shown) end;
      source_object_key = none;
    })

    -- `1.0 - distance`
    abbrev score_of : ℕ → ℤ
    score_of distance =
        if leb distance metric.one
        then pos (metric.one - distance)
        else negsuc (distance - metric.one - 1)

    abbrev result_of : Hit metric → KnowledgeSearchResult
    result_of hit = record {
      doc_id = hit.chunk.doc_id;
      chunk_id = hit.chunk.id;
      title = hit.title;
      text = hit.chunk.text;
      headings = hit.chunk.headings;
      score = score_of hit.distance;
    }

    abbrev search_with :
        (k : ℕ)
        → Option (List String)
        → Result metric.Vector
        → Tables metric
        → Result (List KnowledgeSearchResult)
    search_with k kinds (raise e) tables = raise e
    search_with k kinds (return embedding) tables =
        return (map result_of (search_chunks metric tenant_id embedding kinds k tables))

    unfoldable pub search :
        (query : String) (k : ℕ) (kinds : Option (List String))
        → Tables metric
        → Result (List KnowledgeSearchResult)
    search query k kinds tables =
        let stripped = service.py.strip query in
        if str_eq stripped ""
        then return []
        else search_with k kinds (service.embed_query stripped) tables
