-- ===== src/Ingestion/Publication/FailsClosed.antt =====
-- Publication fails closed: whatever the indexes do, a version is online only if publication
-- returned, and then it is complete.
use zhiyan_personal_academic.Prelude.{ℕ, ◌≡◌, String, true, some, find_where}
use zhiyan_personal_academic.Storage.Lifecycle.{DocumentVersion, is_active, both_ready}
use zhiyan_personal_academic.Storage.Records.{IngestionJobStatus}
use zhiyan_personal_academic.Storage.Versions.{version_key}
use zhiyan_personal_academic.Ingestion.Effects.{System}
use zhiyan_personal_academic.Ingestion.Writers.{IndexBackend, IndexWriter, Attempt, done, failed}
use zhiyan_personal_academic.Ingestion.Publication.{PublicationResult}
use zhiyan_personal_academic.Ingestion.Publication.Staging.{IsReceipt, Hidden}

-- The version is online, complete and bound to its finished job.
pub record Published {W : Type 0} (b1 b2 : IndexBackend) (o v : String) (count : ℕ)
    (sha256 : String) (r : PublicationResult) (s : System W) : Type 0 where
  pub stored : find_where (version_key o v) s.connection.committed.versions ≡ some r.version
  pub online : is_active r.version ≡ true
  pub indexed : both_ready r.version.index_states ≡ true
  pub finished : r.job.status ≡ IngestionJobStatus.succeeded
  pub bound : r.job.document_version_id ≡ v
  pub elasticsearch_receipt : IsReceipt b1 o v count sha256 r.elasticsearch_receipt
  pub milvus_receipt : IsReceipt b2 o v count sha256 r.milvus_receipt

-- Published if publication returned, and hidden if it raised.
abbrev pub ClosedOrPublished :
    {W : Type 0}
    → IndexBackend
    → IndexBackend
    → String
    → String
    → ℕ
    → String
    → Attempt PublicationResult × System W
    → Type 0
ClosedOrPublished b1 b2 o v count sha256 (failed e, s) = Hidden o v s.connection
ClosedOrPublished b1 b2 o v count sha256 (done r, s) = Published b1 b2 o v count sha256 r s

module _ {W : Type 0} (es mv : IndexWriter W) (b1 b2 : IndexBackend) (count : ℕ)
    (sha256 : String) where
  -- The result of the second half of publication, for the version that staging left.
  abbrev Result2 : DocumentVersion → Attempt PublicationResult × System W → Type 0
  Result2 version r =
      ClosedOrPublished b1 b2 version.owner_id version.document_version_id count sha256 r
