-- ===== src/Knowledge.antt =====
-- core/knowledge/repository.py, core/knowledge/service.py and models/knowledge.py: the documents of a
-- tenant, their chunks, and the search among them.
pub mod Ingestion
pub mod Scoped
pub mod Once
use Prim.Native.Char.{code}
use nightswatch.Prelude.{
  ℕ, ◌+◌, ◌-◌, String, Bool, true, false, ◌&&◌, Option, none, some, List, [], ◌∷◌, ◌++◌, map,
  length, take, contains, is_empty, str_eq, leb, ◌==◌, strip_right, if◌then◌else◌,
}
use nightswatch.Json
use nightswatch.Json.{Json, Fields}
use nightswatch.Action.{Exception, other, Result, return, raise, Action, proceed}
use nightswatch.Repository.{filter, first}
use nightswatch.Chunker.{Chunker}
use nightswatch.Chunker.Sections.{PyLines, Chunk, chunk}
use nightswatch.Queries.{parts}

pub record KnowledgeDoc : Type 0 where
  pub id : ℕ
  pub tenant_id : ℕ
  pub kind : String
  pub title : String
  pub source_object_key : Option String
  pub extra_metadata : Fields
  pub created_at : ℕ
  pub deleted_at : Option ℕ

-- What a store of documents needs of an embedding: its type, and the cosine distance, counted in
-- units of which `one` make 1.0.
pub record Metric : Type 1 where
  pub Vector : Type 0
  pub cosine_distance : Vector → Vector → ℕ
  pub one : ℕ

-- `1.0 - distance`, which is negative for a distance above 1.0.
pub data ℤ : Type 0 where
  pos negsuc : ℕ → ℤ

abbrev pub is_none {ℓ} : {A : Type ℓ} → Option A → Bool
is_none none = true
is_none (some x) = false

abbrev pub is_key : String → Option String → Bool
is_key key none = false
is_key key (some k) = str_eq k key

-- `if kinds:`: a `kinds` that is `None` or empty is no restriction.
abbrev pub allows : (kinds : Option (List String)) → String → Bool
allows none kind = true
allows (some kinds) kind = if is_empty kinds then true else contains kind kinds

module _ (metric : Metric) where
  pub record KnowledgeChunk : Type 0 where
    pub id : ℕ
    pub tenant_id : ℕ
    pub doc_id : ℕ
    pub ord : ℕ
    pub text : String
    pub headings : List String
    pub embedding : Option metric.Vector
    pub tokens : ℕ

  -- The two tables, in the order of insertion, and the next id.
  pub record Tables : Type 0 where
    pub docs : List KnowledgeDoc
    pub chunks : List KnowledgeChunk
    pub next_id : ℕ

  -- A chunk, the title of its document, and its distance.
  pub record Hit : Type 0 where
    pub chunk : KnowledgeChunk
    pub title : String
    pub distance : ℕ

  -- The join: a document is found by its primary key.
  unfoldable pub doc_of : ℕ → List KnowledgeDoc → Option KnowledgeDoc
  doc_of id docs = first (filter (λ (d : KnowledgeDoc). d.id == id) docs)

  module _ (tenant_id : ℕ) where
    unfoldable pub create_doc :
        (now : ℕ) (kind title : String) (source_object_key : Option String) (metadata : Fields)
        → Action Tables KnowledgeDoc
    create_doc now kind title source_object_key metadata tables =
        let doc : KnowledgeDoc = record {
          id = tables.next_id;
          tenant_id = tenant_id;
          kind = kind;
          title = title;
          source_object_key = source_object_key;
          extra_metadata = metadata;
          created_at = now;
          deleted_at = none;
        } in
        (return doc, record tables { docs = tables.docs ++ doc ∷ []; next_id = tables.next_id + 1 })

    abbrev pub is_active : KnowledgeDoc → Bool
    is_active d = (d.tenant_id == tenant_id) && is_none d.deleted_at

    unfoldable pub find_doc_by_source_key : String → Tables → Option KnowledgeDoc
    find_doc_by_source_key key tables =
        first
          (filter (λ (d : KnowledgeDoc). is_active d && is_key key d.source_object_key) tables.docs)

    unfoldable pub get_doc : ℕ → Tables → Option KnowledgeDoc
    get_doc id tables =
        first (filter (λ (d : KnowledgeDoc). is_active d && (d.id == id)) tables.docs)

    -- Newest first; among documents of one moment the database may choose.
    unfoldable pub insert_doc : KnowledgeDoc → List KnowledgeDoc → List KnowledgeDoc
    insert_doc d [] = d ∷ []
    insert_doc d (e ∷ docs) =
        let rest = insert_doc d docs in
        if leb e.created_at d.created_at then d ∷ e ∷ docs else e ∷ rest

    unfoldable pub newest_first : List KnowledgeDoc → List KnowledgeDoc
    unfolding insert_doc
    newest_first [] = []
    newest_first (d ∷ docs) = insert_doc d (newest_first docs)

    unfoldable pub list_docs : Tables → List KnowledgeDoc
    unfolding newest_first
    list_docs tables = newest_first (filter is_active tables.docs)

    unfoldable pub update_doc :
        ℕ → (KnowledgeDoc → KnowledgeDoc) → List KnowledgeDoc → List KnowledgeDoc
    update_doc id f [] = []
    update_doc id f (d ∷ docs) = (if d.id == id then f d else d) ∷ update_doc id f docs

    abbrev delete_found : (now : ℕ) → Option KnowledgeDoc → Tables → Bool × Tables
    delete_found now none tables = (false, tables)
    delete_found now (some doc) tables = (
      true,
      record tables {
        docs =
            update_doc doc.id (λ (d : KnowledgeDoc). record d { deleted_at = some now })
              tables.docs;
      },
    )

    unfoldable pub soft_delete_doc : (now id : ℕ) → Tables → Bool × Tables
    unfolding get_doc update_doc
    soft_delete_doc now id tables = delete_found now (get_doc id tables) tables

    unfoldable pub count_chunks : ℕ → Tables → ℕ
    count_chunks id tables = length (
        filter (λ (c : KnowledgeChunk). (c.tenant_id == tenant_id) && (c.doc_id == id))
          tables.chunks)

    module _ (embedding : metric.Vector) (kinds : Option (List String)) where
      abbrev pub hit_with : KnowledgeChunk → Option KnowledgeDoc → Option metric.Vector → Option Hit
      hit_with c none vector = none
      hit_with c (some doc) none = none
      hit_with c (some doc) (some vector) =
          if is_none doc.deleted_at && allows kinds doc.kind
          then some (record {
            chunk = c;
            title = doc.title;
            distance = metric.cosine_distance vector embedding;
          })
          else none

      unfoldable pub hit_of : List KnowledgeDoc → KnowledgeChunk → Option Hit
      unfolding doc_of
      hit_of docs c =
          if c.tenant_id == tenant_id then hit_with c (doc_of c.doc_id docs) c.embedding else none

      -- `order_by(distance)`; among equal distances the database may choose.
      unfoldable pub insert_hit : Hit → List Hit → List Hit
      insert_hit h [] = h ∷ []
      insert_hit h (g ∷ hits) =
          let rest = insert_hit h hits in
          if leb h.distance g.distance then h ∷ g ∷ hits else g ∷ rest

      abbrev pub add_hit : Option Hit → List Hit → List Hit
      add_hit none hits = hits
      add_hit (some h) hits = insert_hit h hits

      unfoldable pub closest_first : List KnowledgeDoc → List KnowledgeChunk → List Hit
      unfolding hit_of insert_hit
      closest_first docs [] = []
      closest_first docs (c ∷ chunks) = add_hit (hit_of docs c) (closest_first docs chunks)

      unfoldable pub search_chunks : (k : ℕ) → Tables → List Hit
      unfolding closest_first
      search_chunks k tables = take k (closest_first tables.docs tables.chunks)
