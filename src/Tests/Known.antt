-- ===== src/Tests/Known.antt =====
-- A runbook that is ingested twice, and a search.
use nightswatch.Prelude.{
  ℕ, ◌+◌, ◌-◌, ◌≡◌, ◌≤◌, refl, none, some, List, [], ◌∷◌, String, false, map, length,
}
use nightswatch.Json.{end}
use nightswatch.Action.{return}
use nightswatch.Knowledge.{
  Metric, Tables, Hit, create_doc, find_doc_by_source_key, search_chunks, closest_first, hit_of,
  insert_hit, doc_of,
}
use nightswatch.Knowledge.Ingestion.{
  KnowledgeService, ingest_runbook_from_url, ingest, runbook_title, last_segment,
}
use nightswatch.Knowledge.Scoped.{Closest, AllHits, Among, search_chunks-Visible}
use nightswatch.Knowledge.Once.{ingest_runbook_from_url-again}
use nightswatch.Chunker.Sections.{chunk}
use nightswatch.Tests.Chunks as Chunks

-- A vector is a number.
abbrev metric : Metric
metric = record { Vector = ℕ; cosine_distance = λ a b. (a - b) + (b - a); one = 10 }

abbrev vectors : List String → List ℕ
vectors [] = []
vectors (t ∷ texts) = 3 ∷ vectors texts

abbrev service : KnowledgeService metric
service = record {
  py = Chunks.py;
  chunker = Chunks.chunker;
  embed_documents = λ texts. return (vectors texts);
  embed_query = λ query. return 5;
  fetch_runbook = λ url. return (record { text = "steps"; is_markdown = false });
}

abbrev nothing : Tables metric
nothing = record { docs = []; chunks = []; next_id = 1 }

abbrev after : Tables metric
after = (ingest_runbook_from_url metric service 1 100 "http://h/a.md" nothing).1

titled : runbook_title "http://h/a.md/" ≡ "a.md"
unfolding runbook_title last_segment
titled = refl

ingested :
    ingest_runbook_from_url metric service 1 100 "http://h/a.md" nothing
    ≡ (return "ingested", after)
unfolding ingest_runbook_from_url ingest find_doc_by_source_key create_doc chunk
ingested = refl

ingest_runbook_from_url-again_example :
    ingest_runbook_from_url metric service 1 200 "http://h/a.md" after
    ≡ (return "already_ingested", after)
ingest_runbook_from_url-again_example =
    ingest_runbook_from_url-again metric service 1 100 200 "http://h/a.md" "ingested" nothing after
      ingested

-- The chunk of another tenant is closer.
abbrev stored : Tables metric
stored = record {
  docs =
      record {
        id = 1;
        tenant_id = 1;
        kind = "runbook";
        title = "a.md";
        source_object_key = none;
        extra_metadata = end;
        created_at = 100;
        deleted_at = none;
      }
      ∷ [];
  chunks =
      record {
        id = 2;
        tenant_id = 1;
        doc_id = 1;
        ord = 0;
        text = "far";
        headings = [];
        embedding = some 9;
        tokens = 1;
      }
      ∷ record {
        id = 3;
        tenant_id = 2;
        doc_id = 1;
        ord = 0;
        text = "foreign";
        headings = [];
        embedding = some 5;
        tokens = 1;
      }
      ∷ record {
        id = 4;
        tenant_id = 1;
        doc_id = 1;
        ord = 1;
        text = "near";
        headings = [];
        embedding = some 4;
        tokens = 1;
      }
      ∷ [];
  next_id = 5;
}

found :
    map (λ (h : Hit metric). h.chunk.text) (search_chunks metric 1 5 none 5 stored)
    ≡ "near" ∷ "far" ∷ []
unfolding search_chunks closest_first hit_of insert_hit doc_of
found = refl

search_chunks-Visible_example :
    (length (search_chunks metric 1 5 none 5 stored) ≤ 5)
    × Closest metric (search_chunks metric 1 5 none 5 stored)
    × AllHits metric
        (Among metric 1 5 none stored.docs stored.chunks)
        (search_chunks metric 1 5 none 5 stored)
search_chunks-Visible_example = search_chunks-Visible metric 1 5 none 5 stored
