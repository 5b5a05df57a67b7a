-- ===== src/Ingestion/Writers.antt =====
-- backend/ingestion/index_lifecycle.py: the index writers as outside services, the state of the two
-- indexes, and the errors of publication.
use zhiyan_personal_academic.Prelude.{
  ℕ, String, Bool, true, false, ◌&&◌, Option, none, some, List, [], ◌∷◌, ◌++◌, ◌==◌, ◌=ᵗ◌,
}
use zhiyan_personal_academic.Storage.Lifecycle.{IndexState, IndexStates, DocumentVersion}
use zhiyan_personal_academic.Storage.Records.{ChunkRecord}
use zhiyan_personal_academic.Storage.Database.{Error}
use zhiyan_personal_academic.Ingestion.Effects.{System, Service, on_service}

pub data IndexBackend : Type 0 where
  elasticsearch milvus : IndexBackend

abbrev pub same_index : IndexBackend → IndexBackend → Bool
same_index elasticsearch elasticsearch = true
same_index milvus milvus = true
same_index _ _ = false

pub record IndexWriteReceipt : Type 0 where
  pub backend : IndexBackend
  pub owner_id : String
  pub document_version_id : String
  pub chunk_count : ℕ
  pub source_chunks_sha256 : String

-- `VersionIndexWriter`: what each call does to the world, and whether it raises.
pub record IndexWriter (W : Type 0) : Type 0 where
  pub backend : IndexBackend
  pub ensure_staged : String → String → String → List ChunkRecord → Service W IndexWriteReceipt
  pub activate_version : String → String → Service W (Unit {0})
  pub deactivate_version : String → String → Service W (Unit {0})

-- `_updated_states`.
unfoldable pub updated_states : IndexStates → IndexBackend → IndexState → IndexStates
updated_states current elasticsearch state = record current { elasticsearch_chunks = state }
updated_states current milvus state = record current { milvus_vectors = state }

-- `_validated_writers`; `false` is its ValueError.
unfoldable pub writers_are_valid : {W : Type 0} → IndexWriter W → IndexWriter W → Bool
writers_are_valid es mv = same_index es.backend elasticsearch && same_index mv.backend milvus

-- `_verify_receipt`; `false` is its ValueError.
unfoldable pub receipt_matches :
    IndexWriteReceipt → IndexBackend → DocumentVersion → ℕ → String → Bool
receipt_matches receipt backend version expected_count expected_sha256 =
    same_index receipt.backend backend
    && receipt.owner_id =ᵗ version.owner_id
    && receipt.document_version_id =ᵗ version.document_version_id
    && receipt.chunk_count == expected_count
    && receipt.source_chunks_sha256 =ᵗ expected_sha256

-- `backend.value`.
unfoldable pub backend_value : IndexBackend → String
backend_value elasticsearch = "elasticsearch_chunks"
backend_value milvus = "milvus_vectors"

-- `f"{writer.backend.value}:deactivate"`.
unfoldable pub deactivate_failure : IndexBackend → String
deactivate_failure elasticsearch = "elasticsearch_chunks:deactivate"
deactivate_failure milvus = "milvus_vectors:deactivate"

-- `f"{writer.backend.value.upper()}_STAGE_FAILED"`.
unfoldable pub stage_failed_code : IndexBackend → String
stage_failed_code elasticsearch = "ELASTICSEARCH_CHUNKS_STAGE_FAILED"
stage_failed_code milvus = "MILVUS_VECTORS_STAGE_FAILED"

-- `f"{writer.backend.value.upper()}_ACTIVATION_FAILED"`.
unfoldable pub activation_failed_code : IndexBackend → String
activation_failed_code elasticsearch = "ELASTICSEARCH_CHUNKS_ACTIVATION_FAILED"
activation_failed_code milvus = "MILVUS_VECTORS_ACTIVATION_FAILED"

-- What publication raises: a ValueError, an error of the repository, or an IndexLifecycleError with
-- its code and the compensations that failed.
pub data PublicationError : Type 0 where
  invalid_preparation : PublicationError
  repository_error : Error → PublicationError
  index_lifecycle : String → List String → PublicationError

pub data Attempt {ℓ} (A : Type ℓ) : Type ℓ where
  done : A → Attempt A
  failed : PublicationError → Attempt A

module _ {W : Type 0} where
  unfoldable pub noted : String → Option (Unit {0}) × System W → List String × System W
  noted failure (none, s) = (failure ∷ [], s)
  noted failure (some u, s) = ([], s)

  unfoldable pub joined : List String → List String × System W → List String × System W
  joined failures (more, s) = (failures ++ more, s)

  unfoldable pub deactivate_one :
      String → String → IndexWriter W → System W → List String × System W
  unfolding noted
  deactivate_one owner_id version_id writer s =
      noted (deactivate_failure writer.backend)
        (on_service (writer.deactivate_version owner_id version_id) s)

  unfoldable pub then_deactivate :
      String → String → List String × System W → IndexWriter W → List String × System W
  unfolding joined deactivate_one
  then_deactivate owner_id version_id (failures, s) writer =
      joined failures (deactivate_one owner_id version_id writer s)

  -- `_compensate_deactivation` over both writers: each is tried, whatever the other does.
  unfoldable pub compensate_deactivation :
      IndexWriter W → IndexWriter W → String → String → System W → List String × System W
  unfolding then_deactivate
  compensate_deactivation es mv owner_id version_id s =
      then_deactivate owner_id version_id (deactivate_one owner_id version_id es s) mv
