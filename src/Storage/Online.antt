-- ===== src/Storage/Online.antt =====
-- backend/storage/postgres.py: what the online side may see of the document versions.
pub mod Laws
use zhiyan_personal_academic.Prelude.{
  contains, has_duplicates, sort_by, ℕ, String, Bool, true, false, not, ◌&&◌, ◌||◌, Option, none,
  some, List, [], ◌∷◌, if◌then◌else◌, is_none, ltb, ◌=ᵗ◌, any, all, length, map, find_where,
  select_where, ◌==◌,
}
use zhiyan_personal_academic.Storage.Lifecycle.{
  DocumentVersion, is_ready, index_is_ready, is_active, version_is_valid,
}
use zhiyan_personal_academic.Storage.Database.{
  Repo, value_error, fact_source, validation_error, ◌>>=◌, ◌>>◌, return, raise, require,
  in_transaction, read,
}
use zhiyan_personal_academic.Storage.Identifiers.{is_contract_id}
use zhiyan_personal_academic.Storage.Versions.{version_key, version_from_row}

-- get_online_document_version_v1 and the reading of its row.
unfoldable pub from_optional_row : Option DocumentVersion → Repo (Option DocumentVersion)
from_optional_row none = return none
from_optional_row (some row) = do version ← version_from_row row; return (some version)

unfoldable pub get_online_version : String → String → Repo (Option DocumentVersion)
get_online_version owner_id document_version_id = do
  row ← in_transaction true (
      read
        λ d. find_where (λ v. version_key owner_id document_version_id v && is_active v) d.versions)
  from_optional_row row

-- The WHERE of resolve_online_document_versions_v1; an empty scope asks for every document.
unfoldable pub is_online : String → List String → DocumentVersion → Bool
is_online owner_id requested v =
    v.owner_id =ᵗ owner_id
    && is_ready v.lifecycle_status
    && is_active v
    && is_none v.delete_time
    && is_none v.chunk_expire_time
    && index_is_ready v.index_states.elasticsearch_chunks
    && index_is_ready v.index_states.milvus_vectors
    && (length requested == 0 || contains requested v.document_id)

-- ORDER BY document_id, document_version_id; `id_before` is the database's order of texts.
unfoldable pub version_before : (String → String → Bool) → DocumentVersion → DocumentVersion → Bool
version_before id_before v w =
    if v.document_id =ᵗ w.document_id
    then id_before v.document_version_id w.document_version_id
    else id_before v.document_id w.document_id

unfoldable pub resolve_body :
    (String → String → Bool) → String → List String → Repo (List DocumentVersion)
resolve_body id_before owner_id requested = do
  rows ← read λ d.
      sort_by (version_before id_before) (select_where (is_online owner_id requested) d.versions)
  require (all version_is_valid rows) validation_error
  require (not (has_duplicates (map (λ v. v.document_id) rows))) fact_source
  return rows

unfoldable pub resolve_online_versions :
    (String → String → Bool) → String → List String → Repo (List DocumentVersion)
resolve_online_versions id_before owner_id requested =
    if ltb 1000 (length requested)
    then raise value_error
    else if has_duplicates requested
    then raise value_error
    else if not (is_contract_id owner_id) || not (all is_contract_id requested)
    then raise value_error
    else in_transaction true (resolve_body id_before owner_id requested)
