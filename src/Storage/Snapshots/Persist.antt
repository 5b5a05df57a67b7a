-- ===== src/Storage/Snapshots/Persist.antt =====
-- backend/storage/postgres.py: `persist_runtime_snapshot` and `load_online_chunks`. The digest of
-- the chunks, and the database's order of texts, are parameters.
use zhiyan_personal_academic.Prelude.{
  [], ◌∷◌, ◌++◌, ◌&&◌, ◌||◌, not, true, false, Bool, ℕ, ◌+◌, String, List, Option, none, some, ◌=ᵗ◌,
  ◌==◌, ltb, any, all, map, length, find_where, select_where, sort_by, contains, has_duplicates,
  if◌then◌else◌, is_none,
}
use zhiyan_personal_academic.Storage.Lifecycle.{DocumentVersion, is_ready, is_active}
use zhiyan_personal_academic.Storage.Records.{PdfObject, ChunkRecord}
use zhiyan_personal_academic.Storage.Identifiers.{is_contract_id}
use zhiyan_personal_academic.Storage.Database.{
  Database, ChunkRow, Repo, ok, err, value_error, validation_error, fact_source, identity_conflict,
  database_error, ◌>>=◌, ◌>>◌, return, raise, require, in_transaction, read,
}
use zhiyan_personal_academic.Storage.Snapshots.{pdf_key, chunk_key}
use zhiyan_personal_academic.Storage.Snapshots.Chunks.{chunk_is_valid, same_chunks}

pub record RuntimeSnapshot : Type 0 where
  pub owner_id : String
  pub document_id : String
  pub document_version_id : String
  pub pdf_object_key : String
  pub pdf_sha256 : String
  pub chunk_count : ℕ
  pub chunk_snapshot_sha256 : String

-- `chunk_id`s, to be compared with the set of them.
abbrev pub chunk_ids : List ChunkRecord → List String
chunk_ids chunks = map (λ c. c.chunk_id) chunks

-- A chunk of the inactive version of the PDF.
unfoldable pub is_of_pdf : PdfObject → ChunkRecord → Bool
is_of_pdf p c =
    c.tenant_id =ᵗ p.owner_id
    && c.document_id =ᵗ p.document_id
    && c.version_id =ᵗ p.document_version_id
    && not c.is_active

-- The foreign key to rag_document_versions.
unfoldable pub has_version : String → String → String → List DocumentVersion → Bool
has_version v o d versions =
    any (λ w. w.document_version_id =ᵗ v && w.owner_id =ᵗ o && w.document_id =ᵗ d) versions

-- persist_pdf_object_v1: ON CONFLICT (document_version_id) DO NOTHING; object keys are unique.
unfoldable pub insert_pdf : PdfObject → Repo (Unit {0})
insert_pdf p c =
    if any (λ q. q.document_version_id =ᵗ p.document_version_id) c.working.pdf_objects
    then (ok tt, c)
    else if any (λ q. q.object_key =ᵗ p.object_key) c.working.pdf_objects
        || not (has_version p.document_version_id p.owner_id p.document_id c.working.versions)
    then (err database_error, c)
    else (
      ok tt,
      record c { working = record (c.working) { pdf_objects = c.working.pdf_objects ++ p ∷ [] } },
    )

-- `model_dump(exclude={"stored_at"})`, compared.
unfoldable pub same_pdf : PdfObject → PdfObject → Bool
same_pdf p q =
    p.owner_id =ᵗ q.owner_id
    && p.document_id =ᵗ q.document_id
    && p.document_version_id =ᵗ q.document_version_id
    && p.object_key =ᵗ q.object_key
    && p.content_sha256 =ᵗ q.content_sha256
    && p.size_bytes == q.size_bytes

abbrev pub is_stored_pdf : PdfObject → Option PdfObject → Bool
is_stored_pdf p none = false
is_stored_pdf p (some q) = same_pdf q p

-- The unique key of the ordinals of a version, or the foreign key to it, is violated.
unfoldable pub taken_or_orphan : ℕ → ChunkRecord → Database → Bool
taken_or_orphan ordinal chunk d =
    any (λ row. row.chunk.version_id =ᵗ chunk.version_id && row.chunk_ordinal == ordinal) d.chunks
    || not (has_version chunk.version_id chunk.tenant_id chunk.document_id d.versions)

-- persist_chunk_snapshot_v1: ON CONFLICT (chunk_id) DO NOTHING; a version has one chunk of an
-- ordinal.
unfoldable pub insert_chunk : ℕ → ChunkRecord → Repo (Unit {0})
insert_chunk ordinal chunk c =
    if any (λ row. row.chunk.chunk_id =ᵗ chunk.chunk_id) c.working.chunks
    then (ok tt, c)
    else if taken_or_orphan ordinal chunk c.working
    then (err database_error, c)
    else (
      ok tt,
      record c {
        working = record (c.working) {
          chunks = c.working.chunks ++ record { chunk_ordinal = ordinal; chunk = chunk } ∷ [];
        };
      },
    )

-- `for ordinal, chunk in enumerate(chunk_list)`.
unfoldable pub insert_chunks : ℕ → List ChunkRecord → Repo (Unit {0})
insert_chunks ordinal [] = return tt
insert_chunks ordinal (chunk ∷ chunks) = do
  insert_chunk ordinal chunk
  insert_chunks (ordinal + 1) chunks

-- `_chunk_from_row`: the row has no `is_active`.
unfoldable pub chunk_from_row : Bool → ChunkRow → ChunkRecord
chunk_from_row is_active row = record (row.chunk) { is_active = is_active }

-- The chunks of the rows, if all of them pass the validator.
unfoldable pub chunks_from_rows : Bool → List ChunkRow → Repo (List ChunkRecord)
chunks_from_rows is_active rows =
    let chunks = map (chunk_from_row is_active) rows in
    require (all chunk_is_valid chunks) validation_error >>= λ _. return chunks

abbrev pub ordinal_before : ChunkRow → ChunkRow → Bool
ordinal_before a b = ltb a.chunk_ordinal b.chunk_ordinal

-- get_chunk_snapshot_v1.
unfoldable pub stored_rows : String → String → Database → List ChunkRow
stored_rows owner_id document_version_id d =
    sort_by ordinal_before (select_where (chunk_key owner_id document_version_id) d.chunks)

unfoldable pub persist_body :
    (List ChunkRecord → String) → PdfObject → List ChunkRecord → Repo RuntimeSnapshot
persist_body fingerprint pdf_object chunks = do
  insert_pdf pdf_object
  stored_pdf ←
      read
        λ d. find_where (pdf_key pdf_object.owner_id pdf_object.document_version_id) d.pdf_objects
  require (is_stored_pdf pdf_object stored_pdf) identity_conflict
  insert_chunks 0 chunks
  rows ← read (stored_rows pdf_object.owner_id pdf_object.document_version_id)
  stored_chunks ← chunks_from_rows false rows
  require (same_chunks stored_chunks chunks) identity_conflict
  return record {
    owner_id = pdf_object.owner_id;
    document_id = pdf_object.document_id;
    document_version_id = pdf_object.document_version_id;
    pdf_object_key = pdf_object.object_key;
    pdf_sha256 = pdf_object.content_sha256;
    chunk_count = length chunks;
    chunk_snapshot_sha256 = fingerprint chunks;
  }

unfoldable pub persist_runtime_snapshot :
    (List ChunkRecord → String) → PdfObject → List ChunkRecord → Repo RuntimeSnapshot
persist_runtime_snapshot fingerprint pdf_object chunks =
    if length chunks == 0
    then raise value_error
    else if has_duplicates (chunk_ids chunks)
    then raise value_error
    else if not (all (is_of_pdf pdf_object) chunks)
    then raise value_error
    else in_transaction true (persist_body fingerprint pdf_object chunks)

-- The version that load_online_chunk_snapshot_v1 joins a chunk with.
unfoldable pub is_online_version : String → String → String → DocumentVersion → Bool
is_online_version document_version_id owner_id document_id v =
    v.document_version_id =ᵗ document_version_id
    && v.owner_id =ᵗ owner_id
    && v.document_id =ᵗ document_id
    && is_ready v.lifecycle_status
    && is_active v
    && is_none v.delete_time
    && is_none v.chunk_expire_time

unfoldable pub is_online_row : String → List String → List DocumentVersion → ChunkRow → Bool
is_online_row owner_id requested versions row =
    row.chunk.tenant_id =ᵗ owner_id
    && contains requested row.chunk.version_id
    && any (is_online_version row.chunk.version_id row.chunk.tenant_id row.chunk.document_id)
        versions

-- ORDER BY document_version_id, chunk_ordinal.
unfoldable pub row_before : (String → String → Bool) → ChunkRow → ChunkRow → Bool
row_before id_before a b =
    if a.chunk.version_id =ᵗ b.chunk.version_id
    then ordinal_before a b
    else id_before a.chunk.version_id b.chunk.version_id

-- `returned_versions == set(requested)`.
unfoldable pub same_versions : List ChunkRecord → List String → Bool
same_versions chunks requested =
    let returned = map (λ c. c.version_id) chunks in
    all (contains requested) returned && all (contains returned) requested

unfoldable pub load_body : (String → String → Bool) → String → List String → Repo (List ChunkRecord)
load_body id_before owner_id requested = do
  rows ← read λ d.
      sort_by (row_before id_before)
        (select_where (is_online_row owner_id requested d.versions) d.chunks)
  chunks ← chunks_from_rows true rows
  require (same_versions chunks requested) identity_conflict
  require (not (has_duplicates (chunk_ids chunks))) fact_source
  return chunks

unfoldable pub load_online_chunks :
    (String → String → Bool) → String → List String → Repo (List ChunkRecord)
load_online_chunks id_before owner_id requested =
    if length requested == 0
    then return []
    else if ltb 1000 (length requested)
    then raise value_error
    else if has_duplicates requested
        || not (is_contract_id owner_id)
        || not (all is_contract_id requested)
    then raise value_error
    else in_transaction true (load_body id_before owner_id requested)
