-- ===== src/Storage/Snapshots/Visible.antt =====
-- What `load_online_chunks` may return, and what a snapshot call that raises leaves.
use zhiyan_personal_academic.Prelude.{
  refl, [], ◌∷◌, ◌≡◌, sym, ◌∙◌, subst, true, false, not, Bool, String, List, map, any, all, All,
  length, arith, has_duplicates, ◌==◌, ltb, ◌||◌, select_where, select_where_sound, sort_by,
  All-sort_by, contains, eq_iff, &&-left, In, &&-right, ◌=ᵗ◌, Bool-cases, none, inl, inr,
}
use zhiyan_personal_academic.Storage.Records.{ChunkRecord}
use zhiyan_personal_academic.Storage.Lifecycle.{DocumentVersion, LifecycleStatus, is_active}
use zhiyan_personal_academic.Storage.Identifiers.{is_contract_id}
use zhiyan_personal_academic.Storage.Database.{
  Connection, ChunkRow, Repo, ok, value_error, identity_conflict, fact_source, ◌>>◌, return,
  require, >>=-ok, require-ok, if_raise-ok, in_transaction-ok, in_transaction,
}
use zhiyan_personal_academic.Storage.Snapshots.Persist.{
  chunk_ids, chunk_from_row, chunks_from_rows, row_before, is_online_row, is_online_version,
  same_versions, load_body, load_online_chunks,
}
use zhiyan_personal_academic.Storage.Snapshots.Stored.{chunks_from_rows-ok}

-- The version of a chunk, and what makes it visible: it is READY, neither deleted nor expired.
pub record IsShownVersion (c : ChunkRecord) (v : DocumentVersion) : Type 0 where
  pub same_version : v.document_version_id ≡ c.version_id
  pub same_owner : v.owner_id ≡ c.tenant_id
  pub same_document : v.document_id ≡ c.document_id
  pub is_ready_state : v.lifecycle_status ≡ LifecycleStatus.ready
  pub not_deleted : v.delete_time ≡ none
  pub not_expired : v.chunk_expire_time ≡ none

-- A chunk that the online side may see: of the owner, of a requested version that is visible.
pub record IsOnlineChunk (owner_id : String) (requested : List String)
    (versions : List DocumentVersion) (c : ChunkRecord) : Type 0 where
  pub active : c.is_active ≡ true
  pub owned : c.tenant_id ≡ owner_id
  pub of_requested : contains requested c.version_id ≡ true
  pub of_shown_version : (v : DocumentVersion) × In v versions × IsShownVersion c v

any-found :
    (p : DocumentVersion → Bool) (vs : List DocumentVersion)
    → any p vs ≡ true
    → (v : DocumentVersion) × In v vs × (p v ≡ true)
any-found p [] h = absurd (ground arith)
any-found p (v ∷ vs) h = elim (Bool-cases (p v)) [
  | inl hit ↦ (v, inl refl, hit)
  | inr miss ↦ let (w, i, found) = any-found p vs (ground arith) in (w, inr i, found)
]

shown_version :
    (c : ChunkRecord) (v : DocumentVersion)
    → is_online_version c.version_id c.tenant_id c.document_id v ≡ true
    → IsShownVersion c v
unfolding is_online_version is_active
shown_version c v h = record {
  same_version = (eq_iff v.document_version_id c.version_id).0 (ground arith);
  same_owner = (eq_iff v.owner_id c.tenant_id).0 (ground arith);
  same_document = (eq_iff v.document_id c.document_id).0 (ground arith);
  is_ready_state = ground arith;
  not_deleted = ground arith;
  not_expired = ground arith;
}

any-IsShownVersion :
    (c : ChunkRecord) (versions : List DocumentVersion)
    → any (is_online_version c.version_id c.tenant_id c.document_id) versions ≡ true
    → (v : DocumentVersion) × In v versions × IsShownVersion c v
any-IsShownVersion c versions h =
    let (v, i, hit) =
      any-found (is_online_version c.version_id c.tenant_id c.document_id) versions h in
    (v, i, shown_version c v hit)

-- Every requested version has a chunk.
abbrev pub CoversRequested : List String → List ChunkRecord → Type 0
CoversRequested requested chunks = All (λ v. any (λ c. c.version_id =ᵗ v) chunks ≡ true) requested

any-map_version :
    (v : String) (cs : List ChunkRecord)
    → contains (map (λ c. c.version_id) cs) v ≡ true
    → any (λ c. c.version_id =ᵗ v) cs ≡ true
any-map_version v [] h = h
any-map_version v (c ∷ cs) h = ground (arith, any-map_version v cs)

all-covered :
    (requested : List String) (cs : List ChunkRecord)
    → all (contains (map (λ c. c.version_id) cs)) requested ≡ true
    → CoversRequested requested cs
all-covered [] cs h = tt
all-covered (v ∷ vs) cs h =
    let names : List String = map (λ c. c.version_id) cs in
    (
      any-map_version v cs (&&-left (contains names v) (all (contains names) vs) h),
      all-covered vs cs (&&-right (contains names v) (all (contains names) vs) h),
    )

same_versions-covered :
    (cs : List ChunkRecord) (requested : List String)
    → same_versions cs requested ≡ true
    → CoversRequested requested cs
unfolding same_versions
same_versions-covered cs requested h =
    let names : List String = map (λ c. c.version_id) cs in
    all-covered requested cs
      (&&-right (all (contains requested) names) (all (contains names) requested) h)

module _ (id_before : String → String → Bool) (owner_id : String) (requested : List String) where
  abbrev conclude : List ChunkRecord → Repo (List ChunkRecord)
  conclude chunks =
      require (same_versions chunks requested) identity_conflict
      >> (require (not (has_duplicates (chunk_ids chunks))) fact_source >> return chunks)

  rows-IsOnlineChunk :
      (versions : List DocumentVersion) (rows : List ChunkRow)
      → All (λ row. is_online_row owner_id requested versions row ≡ true) rows
      → All (IsOnlineChunk owner_id requested versions) (map (chunk_from_row true) rows)
  unfolding is_online_row chunk_from_row
  rows-IsOnlineChunk versions [] a = tt
  rows-IsOnlineChunk versions (row ∷ rows) a =
      let its = a.0 in
      (
        record {
          active = refl;
          owned = (eq_iff row.chunk.tenant_id owner_id).0 (ground arith);
          of_requested = ground arith;
          of_shown_version = any-IsShownVersion (chunk_from_row true row) versions (ground arith);
        },
        rows-IsOnlineChunk versions rows a.1,
      )

  load_body-IsOnlineChunk :
      (c c' : Connection) (chunks : List ChunkRecord)
      → load_body id_before owner_id requested c ≡ (ok chunks, c')
      → All (IsOnlineChunk owner_id requested c.working.versions) chunks
        × (same_versions chunks requested ≡ true)
        × (has_duplicates (chunk_ids chunks) ≡ false)
  unfolding load_body
  load_body-IsOnlineChunk c c' chunks h =
      let picked : List ChunkRow =
        select_where (is_online_row owner_id requested c.working.versions) c.working.chunks in
      let rows : List ChunkRow = sort_by (row_before id_before) picked in
      let (back, c1, ran, h1) = >>=-ok {c = c} (chunks_from_rows true rows) conclude h in
      let (is_back, valid, here) = chunks_from_rows-ok true rows c c1 back ran in
      let (exact, h2) = require-ok (same_versions back requested) identity_conflict _ h1 in
      let (different, h3) =
        require-ok (not (has_duplicates (chunk_ids back))) fact_source (return back) h2 in
      let it : back ≡ chunks = cc in
      let online = rows-IsOnlineChunk c.working.versions rows (
        All-sort_by (row_before id_before)
          (λ row. is_online_row owner_id requested c.working.versions row ≡ true) picked
          (select_where_sound (is_online_row owner_id requested c.working.versions)
            c.working.chunks)) in
      let no_duplicates : has_duplicates (chunk_ids back) ≡ false = ground arith in
      (
        subst (All (IsOnlineChunk owner_id requested c.working.versions)) (sym is_back ∙ it) online,
        subst (λ cs. same_versions cs requested ≡ true) it exact,
        subst (λ cs. has_duplicates (chunk_ids cs) ≡ false) it no_duplicates,
      )

  -- A load that returns, for a scope that is not empty, gives chunks of the owner only, each marked
  -- as active and of a requested version; the tables that it read hold that version, of the same
  -- owner and document, as READY and neither deleted nor expired. It gives chunks of every requested
  -- version, and no identity twice.
  pub load_online_chunks-IsOnlineChunk :
      (c c' : Connection) (chunks : List ChunkRecord)
      → (length requested == 0) ≡ false
      → load_online_chunks id_before owner_id requested c ≡ (ok chunks, c')
      → All (IsOnlineChunk owner_id requested c.working.versions) chunks
        × CoversRequested requested chunks
        × (has_duplicates (chunk_ids chunks) ≡ false)
  unfolding load_online_chunks
  load_online_chunks-IsOnlineChunk c c' chunks n h =
      let body : Repo (List ChunkRecord) =
        in_transaction true (load_body id_before owner_id requested) in
      let (small, h1) =
        if_raise-ok {c = c} (ltb 1000 (length requested)) value_error _ (rw n at h) in
      let (valid, h2) =
        if_raise-ok {c = c}
          (has_duplicates requested
            || not (is_contract_id owner_id)
            || not (all is_contract_id requested))
          value_error body h1 in
      let (d, ran, e) =
        in_transaction-ok {c = c} true (load_body id_before owner_id requested) h2 in
      let (online, exact, different) = load_body-IsOnlineChunk c d chunks ran in
      (online, same_versions-covered chunks requested exact, different)
