-- ===== src/Tests/Snapshots.antt =====
-- A snapshot of two chunks, persisted for a version that is being processed and loaded when it is
-- READY.
use zhiyan_personal_academic.Prelude.{
  refl, [], ◌∷◌, ◌≡◌, true, false, none, some, String, List, All, any, map, find_where,
  select_where, sort_by, insert_by, has_duplicates,
}
use zhiyan_personal_academic.Storage.Records.{PdfObject, ChunkRecord, public}
use zhiyan_personal_academic.Storage.Lifecycle.{is_active}
use zhiyan_personal_academic.Storage.Database.{Connection, ok, IsSettled, Database}
use zhiyan_personal_academic.Storage.Identifiers.{
  is_contract_id, matches_identifier, is_identifier_code, is_alphanumeric,
}
use zhiyan_personal_academic.Storage.Snapshots.{pdf_key, chunk_key}
use zhiyan_personal_academic.Storage.Snapshots.Chunks.{
  chunk_is_valid, same_chunk, same_chunks, same_texts,
}
use zhiyan_personal_academic.Storage.Snapshots.Persist.{
  chunk_ids, is_of_pdf, insert_pdf, insert_chunk, insert_chunks, taken_or_orphan, has_version,
  same_pdf, chunk_from_row, chunks_from_rows, stored_rows, persist_body, persist_runtime_snapshot,
  is_online_version, is_online_row, row_before, same_versions, load_body, load_online_chunks,
}
use zhiyan_personal_academic.Storage.Snapshots.Stored.{
  IsStored, AreOfPdf, receipt, persist_runtime_snapshot-IsStored,
}
use zhiyan_personal_academic.Storage.Snapshots.Loaded.{
  online, load_online_chunks-persist_runtime_snapshot,
}
use zhiyan_personal_academic.Storage.Snapshots.Visible.{
  IsOnlineChunk, CoversRequested, load_online_chunks-IsOnlineChunk,
}
use zhiyan_personal_academic.Tests.Data.{
  processing_version, ready_version, any_order, database, settled,
}

abbrev paper_pdf : PdfObject
paper_pdf = record {
  owner_id = "owner";
  document_id = "doc";
  document_version_id = "v1";
  object_key = "owner/v1.pdf";
  content_sha256 = "aa";
  size_bytes = 10;
  stored_at = 20;
}

abbrev first_chunk : ChunkRecord
first_chunk = record {
  chunk_id = "c1";
  document_id = "doc";
  version_id = "v1";
  text = "one";
  section_path = "s";
  page_start = 1;
  page_end = 1;
  parent_chunk_id = none;
  previous_chunk_id = none;
  next_chunk_id = some "c2";
  tenant_id = "owner";
  visibility = public;
  library_scope_ids = "lib" ∷ [];
  parse_version = "p1";
  embedding_version = "e1";
  is_active = false;
}

abbrev second_chunk : ChunkRecord
second_chunk = record first_chunk {
  chunk_id = "c2";
  text = "two";
  page_end = 2;
  previous_chunk_id = some "c1";
  next_chunk_id = none;
}

abbrev two_chunks : List ChunkRecord
two_chunks = first_chunk ∷ second_chunk ∷ []

abbrev digest : List ChunkRecord → String
digest chunks = "cc"

abbrev stored_database : Database
stored_database = record (database (processing_version ∷ []) [] []) {
  pdf_objects = paper_pdf ∷ [];
  chunks =
      record { chunk_ordinal = 0; chunk = first_chunk }
      ∷ record { chunk_ordinal = 1; chunk = second_chunk }
      ∷ [];
}

abbrev stored_connection : Connection
stored_connection = record { committed = stored_database; working = stored_database }

-- The same tables, with the version READY.
abbrev online_database : Database
online_database = record stored_database { versions = ready_version ∷ [] }

abbrev online_connection : Connection
online_connection = record { committed = online_database; working = online_database }

persisted :
    persist_runtime_snapshot digest paper_pdf two_chunks (settled (processing_version ∷ []) [] [])
    ≡ (ok (receipt digest paper_pdf two_chunks), stored_connection)
unfolding persist_runtime_snapshot persist_body insert_pdf insert_chunks insert_chunk
    taken_or_orphan has_version is_of_pdf same_pdf pdf_key chunk_key chunk_from_row chunks_from_rows
    stored_rows same_chunks same_chunk same_texts chunk_is_valid find_where select_where sort_by
    insert_by has_duplicates
persisted = refl

persist_runtime_snapshot-IsStored_example :
    (receipt digest paper_pdf two_chunks ≡ receipt digest paper_pdf two_chunks)
    × IsStored paper_pdf two_chunks stored_database
    × AreOfPdf paper_pdf two_chunks
    × IsSettled stored_connection
persist_runtime_snapshot-IsStored_example =
    persist_runtime_snapshot-IsStored digest paper_pdf two_chunks
      (settled (processing_version ∷ []) [] []) stored_connection
      (receipt digest paper_pdf two_chunks) persisted

version_is_online : any (is_online_version "v1" "owner" "doc") online_database.versions ≡ true
unfolding is_online_version is_active
version_is_online = refl

owner_is_id : is_contract_id "owner" ≡ true
unfolding is_contract_id matches_identifier is_identifier_code is_alphanumeric
owner_is_id = refl

version_is_id : is_contract_id "v1" ≡ true
unfolding is_contract_id matches_identifier is_identifier_code is_alphanumeric
version_is_id = refl

load_online_chunks-persist_runtime_snapshot_example :
    load_online_chunks any_order "owner" ("v1" ∷ []) online_connection
    ≡ (ok (map online two_chunks), online_connection)
load_online_chunks-persist_runtime_snapshot_example =
    load_online_chunks-persist_runtime_snapshot paper_pdf two_chunks digest any_order
      (settled (processing_version ∷ []) [] []) stored_connection online_connection
      (receipt digest paper_pdf two_chunks) persisted refl version_is_online owner_is_id
      version_is_id

chunks_loaded :
    load_online_chunks any_order "owner" ("v1" ∷ []) online_connection
    ≡ (ok (map online two_chunks), online_connection)
unfolding load_online_chunks load_body is_online_row is_online_version is_active row_before
    same_versions chunks_from_rows chunk_from_row chunk_is_valid online select_where sort_by
    insert_by has_duplicates is_contract_id matches_identifier is_identifier_code is_alphanumeric
chunks_loaded = refl

load_online_chunks-IsOnlineChunk_example :
    All (IsOnlineChunk "owner" ("v1" ∷ []) online_database.versions) (map online two_chunks)
    × CoversRequested ("v1" ∷ []) (map online two_chunks)
    × (has_duplicates (chunk_ids (map online two_chunks)) ≡ false)
load_online_chunks-IsOnlineChunk_example =
    load_online_chunks-IsOnlineChunk any_order "owner" ("v1" ∷ []) online_connection
      online_connection (map online two_chunks) refl chunks_loaded
