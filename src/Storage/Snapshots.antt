-- ===== src/Storage/Snapshots.antt =====
-- backend/storage/postgres.py: stored PDF registrations and chunk snapshots.
pub mod Chunks
pub mod Persist
pub mod Stored
pub mod Rows
pub mod Loaded
pub mod Visible
pub mod Laws
use zhiyan_personal_academic.Prelude.{
  ℕ, String, Bool, true, false, not, ◌&&◌, ◌||◌, Option, none, some, List, [], ◌∷◌, ◌++◌,
  if◌then◌else◌, is_some, ◌=ᵗ◌, ◌==◌, any, all, find_where, select_where,
}
use zhiyan_personal_academic.Storage.Lifecycle.{DocumentVersion, is_inactive, is_active}
use zhiyan_personal_academic.Storage.Records.{PdfObject, ChunkRecord}
use zhiyan_personal_academic.Storage.Database.{
  Connection, ChunkRow, Repo, ok, err, identity_conflict, ◌>>=◌, ◌>>◌, return, raise, require,
  in_transaction, read,
}
use zhiyan_personal_academic.Storage.Versions.{version_key}

unfoldable pub pdf_key : String → String → PdfObject → Bool
pdf_key owner_id document_version_id p =
    p.owner_id =ᵗ owner_id && p.document_version_id =ᵗ document_version_id

-- The join of a PDF row with its INACTIVE version.
unfoldable pub pdf_is_inactive : List DocumentVersion → PdfObject → Bool
pdf_is_inactive versions p =
    any
      (λ v.
        v.document_version_id =ᵗ p.document_version_id
        && v.owner_id =ᵗ p.owner_id
        && v.document_id =ᵗ p.document_id
        && is_inactive v.lifecycle_status
        && not (is_active v))
      versions

unfoldable pub get_inactive_pdf_object : String → String → Repo (Option PdfObject)
get_inactive_pdf_object owner_id document_version_id = in_transaction true (
    read λ d.
      find_where (λ p. pdf_key owner_id document_version_id p && pdf_is_inactive d.versions p)
        d.pdf_objects)

unfoldable pub get_pdf_object : String → String → Repo (Option PdfObject)
get_pdf_object owner_id document_version_id =
    in_transaction true (read λ d. find_where (pdf_key owner_id document_version_id) d.pdf_objects)

-- What purge_inactive_chunks_v1 deletes.
unfoldable pub chunk_key : String → String → ChunkRow → Bool
chunk_key owner_id document_version_id row =
    row.chunk.tenant_id =ᵗ owner_id && row.chunk.version_id =ᵗ document_version_id

unfoldable pub delete_snapshot : String → String → Repo (Unit {0})
delete_snapshot owner_id document_version_id c = (
  ok tt,
  record c {
    working = record (c.working) {
      chunks =
          select_where (λ row. not (chunk_key owner_id document_version_id row)) c.working.chunks;
      pdf_objects =
          select_where (λ p. not (pdf_key owner_id document_version_id p)) c.working.pdf_objects;
    };
  },
)

unfoldable pub purge_body : String → String → Repo (Unit {0})
purge_body owner_id document_version_id = do
  inactive ← read λ d.
      any
        (λ v.
          version_key owner_id document_version_id v
          && is_inactive v.lifecycle_status
          && not (is_active v))
        d.versions
  require inactive identity_conflict
  delete_snapshot owner_id document_version_id

unfoldable pub purge_inactive_runtime_snapshot : String → String → Repo (Unit {0})
purge_inactive_runtime_snapshot owner_id document_version_id =
    in_transaction true (purge_body owner_id document_version_id)
