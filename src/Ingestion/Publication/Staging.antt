-- ===== src/Ingestion/Publication/Staging.antt =====
-- A version that is not READY stays so through staging and through the recording of a failure.
use zhiyan_personal_academic.Prelude.{
  ℕ, ◌≡◌, refl, sym, ap, subst, ◌∙◌, String, true, false, Option, none, some, List, [], ◌∷◌, arith,
  find_where, Bool-cases, inl, inr, eq_iff, some-cancel, find_where_sound, &&-left, ◌=ᵗ◌, &&-right,
}
use zhiyan_personal_academic.Storage.Lifecycle.{
  LifecycleStatus, IndexState, DocumentVersion, Update, is_ready,
}
use zhiyan_personal_academic.Storage.Records.{IngestionJob}
use zhiyan_personal_academic.Storage.Database.{
  Database, Connection, Result, ok, err, IsSettled, IsAtomic,
}
use zhiyan_personal_academic.Storage.Versions.{version_key, transition_version}
use zhiyan_personal_academic.Storage.Versions.Transition.{
  transition_version-Swapped, transition_version-IsAtomic,
}
use zhiyan_personal_academic.Storage.Indexing.{record_indexing_failure}
use zhiyan_personal_academic.Storage.Indexing.Laws.{
  record_indexing_failure_ok, record_indexing_failure-IsAtomic,
}
use zhiyan_personal_academic.Ingestion.Effects.{System, on_repository}
use zhiyan_personal_academic.Ingestion.Writers.{
  IndexBackend, IndexWriteReceipt, Attempt, done, failed, updated_states, receipt_matches,
}
use zhiyan_personal_academic.Ingestion.Publication.{
  Clock, record_failure, raise_recorded, after_staging, staged_version, IndexStates,
  stage_failed_code, set_index_states, set_failure_code,
}

-- The version is not READY in the committed tables, and no transaction is open.
pub record Hidden (o v : String) (c : Connection) : Type 0 where
  pub settled : IsSettled c
  pub hidden :
      (w : DocumentVersion)
      → find_where (version_key o v) c.committed.versions ≡ some w
      → is_ready w.lifecycle_status ≡ false

-- Equal committed tables hide the same versions.
pub Hidden-error :
    (o v : String) (c c' : Connection)
    → c'.committed ≡ c.committed
    → IsSettled c'
    → Hidden o v c
    → Hidden o v c'
Hidden-error o v c c' same s h = record {
  settled = s;
  hidden = λ w found.
      h.hidden w
        (ap (λ (d : Database). find_where (version_key o v) d.versions) (sym same) ∙ found);
}

-- A call that is all or nothing keeps a version hidden if it does so where it returns.
pub Hidden-result :
    {A : Type 0} (o v : String) (c : Connection) (r : Result A × Connection)
    → IsAtomic r c
    → ((a : A) (c' : Connection) → r ≡ (ok a, c') → IsSettled c' → Hidden o v c')
    → Hidden o v c
    → Hidden o v r.1
Hidden-result o v c (ok a, c') s k h = k a c' refl s
Hidden-result o v c (err e, c') s k h = Hidden-error o v c c' s.0 s.1 h

-- A version found in a state other than READY is the only thing that its key finds.
pub Hidden-found :
    (o v : String) (c : Connection) (w : DocumentVersion)
    → IsSettled c
    → find_where (version_key o v) c.committed.versions ≡ some w
    → w.lifecycle_status ≡ LifecycleStatus.processing
    → Hidden o v c
Hidden-found o v c w s found e = record {
  settled = s;
  hidden = λ u other.
      let same : u ≡ w = some-cancel (sym other ∙ found) in
      let status : u.lifecycle_status ≡ LifecycleStatus.processing =
        ap (λ (x : DocumentVersion). x.lifecycle_status) same ∙ e in
      ap is_ready status;
}

transition-Hidden :
    (o v : String) (n : ℕ) (us : List Update) (now : ℕ) (c : Connection)
    → Hidden o v c
    → Hidden o v (transition_version o v n LifecycleStatus.processing us now c).1
transition-Hidden o v n us now c h =
    Hidden-result o v c (transition_version o v n LifecycleStatus.processing us now c)
      (transition_version-IsAtomic o v n LifecycleStatus.processing us now c h.settled)
      (λ w c' e s.
        let sw = transition_version-Swapped o v n LifecycleStatus.processing us now c c' w e in
        Hidden-found o v c' w s sw.stored sw.has_target)
      h

record_failure_call-Hidden :
    (o v : String) (n : ℕ) (states : IndexStates) (j code : String) (now : ℕ × ℕ) (c : Connection)
    → Hidden o v c
    → Hidden o v (record_indexing_failure o v n states j code now c).1
record_failure_call-Hidden o v n states j code now c h =
    Hidden-result o v c (record_indexing_failure o v n states j code now c)
      (record_indexing_failure-IsAtomic o v n states j code now c)
      (λ r c' e s.
        let w = (record_indexing_failure_ok o v n states j code now c c' r e).0 in
        let found =
          ap (λ (d : Database). find_where (version_key o v) d.versions) w.job_updated.written
          ∙ w.version_swapped.stored in
        Hidden-found o v c' r.0 s found w.version_swapped.has_target)
      h

module _ {W : Type 0} where
  raise_recorded-connection :
      (code : String) (compensation : List String)
      (r : Result (DocumentVersion × IngestionJob) × System W)
      → (raise_recorded code compensation r).1.connection ≡ r.1.connection
  unfolding raise_recorded
  raise_recorded-connection code compensation (ok x, s) = refl
  raise_recorded-connection code compensation (err e, s) = refl

  pub record_failure-Hidden :
      (clock : Clock) (version : DocumentVersion) (job : IngestionJob) (b : IndexBackend)
      (code : String) (compensation : List String) (s : System W)
      → Hidden version.owner_id version.document_version_id s.connection
      → Hidden version.owner_id version.document_version_id
          (record_failure clock version job b code compensation s).1.connection
  unfolding record_failure
  record_failure-Hidden clock version job b code compensation s h =
      let call =
        record_indexing_failure version.owner_id version.document_version_id
          version.lifecycle_revision (updated_states version.index_states b IndexState.failed)
          job.job_id code clock.failure in
      subst (Hidden version.owner_id version.document_version_id)
        (sym (raise_recorded-connection code compensation (on_repository call s)))
        (record_failure_call-Hidden version.owner_id version.document_version_id
          version.lifecycle_revision (updated_states version.index_states b IndexState.failed)
          job.job_id code clock.failure s.connection h)

pub version_key-ids :
    (o v : String) (w : DocumentVersion)
    → version_key o v w ≡ true
    → (w.owner_id ≡ o) × (w.document_version_id ≡ v)
unfolding version_key
version_key-ids o v w h = (
  (eq_iff w.owner_id o).0 (&&-left (w.owner_id =ᵗ o) (w.document_version_id =ᵗ v) h),
  (eq_iff w.document_version_id v).0 (&&-right (w.owner_id =ᵗ o) (w.document_version_id =ᵗ v) h),
)

-- A receipt that names the version and the chunks that were staged.
pub record IsReceipt (b : IndexBackend) (o v : String) (count : ℕ) (sha256 : String)
    (r : IndexWriteReceipt) : Type 0 where
  pub right_backend : r.backend ≡ b
  pub right_owner : r.owner_id ≡ o
  pub right_version : r.document_version_id ≡ v
  pub right_count : r.chunk_count ≡ count
  pub right_digest : r.source_chunks_sha256 ≡ sha256

pub receipt_matches-IsReceipt :
    (b : IndexBackend) (version : DocumentVersion) (count : ℕ) (sha256 : String)
    (r : IndexWriteReceipt)
    → receipt_matches r b version count sha256 ≡ true
    → IsReceipt b version.owner_id version.document_version_id count sha256 r
unfolding receipt_matches
receipt_matches-IsReceipt b version count sha256 r h = ground (
  arith,
  eq_iff r.owner_id version.owner_id,
  eq_iff r.document_version_id version.document_version_id,
  eq_iff r.source_chunks_sha256 sha256,
)

-- What one round of staging leaves.
abbrev pub StageResult :
    {W : Type 0}
    → IndexBackend
    → DocumentVersion
    → ℕ
    → String
    → Attempt (DocumentVersion × IndexWriteReceipt) × System W
    → Type 0
StageResult b version count sha256 (failed e, s) =
    Hidden version.owner_id version.document_version_id s.connection
StageResult b version count sha256 (done (next, r), s) =
    (next.owner_id ≡ version.owner_id)
    × (next.document_version_id ≡ version.document_version_id)
    × IsReceipt b version.owner_id version.document_version_id count sha256 r
    × Hidden version.owner_id version.document_version_id s.connection

module _ {W : Type 0} (b : IndexBackend) (version : DocumentVersion) (count : ℕ)
    (sha256 : String) where
  staged_version-StageResult :
      (us : List Update) (n now : ℕ) (receipt : IndexWriteReceipt) (s : System W)
      (r : Result DocumentVersion × Connection)
      → r
        ≡ transition_version version.owner_id version.document_version_id n
            LifecycleStatus.processing us now s.connection
      → IsReceipt b version.owner_id version.document_version_id count sha256 receipt
      → Hidden version.owner_id version.document_version_id r.1
      → StageResult b version count sha256
          (staged_version receipt (r.0, record s { connection = r.1 }))
  unfolding staged_version
  staged_version-StageResult us n now receipt s (ok next, c) e is h =
      let sw =
        transition_version-Swapped version.owner_id version.document_version_id n
          LifecycleStatus.processing us now s.connection c next (sym e) in
      let key =
        find_where_sound (version_key version.owner_id version.document_version_id)
          c.committed.versions next sw.stored in
      let (oe, ve) = version_key-ids version.owner_id version.document_version_id next key in
      (oe, ve, is, h)
  staged_version-StageResult us n now receipt s (err x, c) e is h = h

  pub after_staging-StageResult :
      (clock : Clock) (now : ℕ) (job : IngestionJob) (r : Option IndexWriteReceipt × System W)
      → Hidden version.owner_id version.document_version_id r.1.connection
      → StageResult b version count sha256 (after_staging clock now b version job count sha256 r)
  unfolding after_staging
  after_staging-StageResult clock now job (none, s) h =
      record_failure-Hidden clock version job b (stage_failed_code b) [] s h
  after_staging-StageResult clock now job (some receipt, s) h =
      elim (Bool-cases (receipt_matches receipt b version count sha256)) [
        | inr bad ↦ rw bad (record_failure-Hidden clock version job b (stage_failed_code b) [] s h)
        | inl good ↦
            let us =
              set_index_states (updated_states version.index_states b IndexState.ready)
              ∷ set_failure_code none
              ∷ [] in
            rw good (
              staged_version-StageResult us version.lifecycle_revision now receipt s
                (transition_version version.owner_id version.document_version_id
                  version.lifecycle_revision LifecycleStatus.processing us now s.connection)
                refl (receipt_matches-IsReceipt b version count sha256 receipt good)
                (transition-Hidden version.owner_id version.document_version_id
                  version.lifecycle_revision us now s.connection h))
      ]
