-- ===== src/Tests/Publication.antt =====
-- One chunk published through two indexes that accept it.
use zhiyan_personal_academic.Prelude.{[], ◌∷◌, ℕ, ◌+◌, none, some, false, length}
use zhiyan_personal_academic.Ingestion.Publication.{Preparation, Clock, pass}
use zhiyan_personal_academic.Ingestion.Effects.{System}
use zhiyan_personal_academic.Storage.Records.{ChunkRecord, private}
use zhiyan_personal_academic.Ingestion.Writers.{IndexBackend, IndexWriter}
use zhiyan_personal_academic.Tests.Data.{settled, prepared_version, running_job}

abbrev chunk : ChunkRecord
chunk = record {
  chunk_id = "chunk";
  document_id = "doc";
  version_id = "v1";
  text = "text";
  section_path = "1";
  page_start = 1;
  page_end = 1;
  parent_chunk_id = none;
  previous_chunk_id = none;
  next_chunk_id = none;
  tenant_id = "owner";
  visibility = private;
  library_scope_ids = [];
  parse_version = "p1";
  embedding_version = "e1";
  is_active = false;
}

abbrev preparation : Preparation
preparation = record {
  version = prepared_version;
  job = running_job;
  parse_status = pass;
  chunks = chunk ∷ [];
}

-- A writer over a world that counts the calls; it accepts every call.
abbrev pub accepting : IndexBackend → IndexWriter ℕ
accepting b = record {
  backend = b;
  ensure_staged = λ o d v chunks calls. (
    some (record {
      backend = b;
      owner_id = o;
      document_version_id = v;
      chunk_count = length chunks;
      source_chunks_sha256 = "sha";
    }),
    calls + 1,
  );
  activate_version = λ o v calls. (some tt, calls + 1);
  deactivate_version = λ o v calls. (some tt, calls + 1);
}

abbrev clock : Clock
clock = record {
  staged_elasticsearch = 26;
  staged_milvus = 27;
  failure = (28, 28);
  vector_index = 30;
  final = (31, 32);
}

abbrev before_publication : System ℕ
before_publication = record {
  world = 0;
  connection = settled (prepared_version ∷ []) (running_job ∷ []) [];
}
