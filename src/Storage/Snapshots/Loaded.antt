-- ===== src/Storage/Snapshots/Loaded.antt =====
-- A persisted snapshot is loaded again, as it was given.
use zhiyan_personal_academic.Prelude.{
  refl, [], ◌∷◌, ◌≡◌, ap, ◌∙◌, true, false, not, Bool, String, List, map, any, all, length, arith,
  has_duplicates, ◌==◌, select_where, sort_by, contains, =ᵗ_comm,
}
use zhiyan_personal_academic.Storage.Records.{PdfObject, ChunkRecord}
use zhiyan_personal_academic.Storage.Identifiers.{is_contract_id}
use zhiyan_personal_academic.Storage.Database.{
  ◌>>◌, ◌>>=◌, Connection, ChunkRow, Repo, ok, commit, require, validation_error, ◌>>=◌, return,
  identity_conflict, fact_source,
}
use zhiyan_personal_academic.Storage.Snapshots.{chunk_key}
use zhiyan_personal_academic.Storage.Snapshots.Chunks.{chunk_is_valid}
use zhiyan_personal_academic.Storage.Snapshots.Persist.{
  RuntimeSnapshot, chunk_ids, is_of_pdf, chunk_from_row, chunks_from_rows, stored_rows,
  ordinal_before, is_online_version, same_versions, load_body, load_online_chunks,
  persist_runtime_snapshot,
}
use zhiyan_personal_academic.Storage.Snapshots.Stored.{
  AreOfPdf, persist_runtime_snapshot-IsStored, HasChunks,
}
use zhiyan_personal_academic.Storage.Snapshots.Rows.{loaded_rows}

-- A chunk as the online side sees it.
unfoldable pub online : ChunkRecord → ChunkRecord
online c = record c { is_active = true }

rows-online :
    (rows : List ChunkRow)
    → map (chunk_from_row true) rows ≡ map online (map (chunk_from_row false) rows)
unfolding chunk_from_row online
rows-online [] = refl
rows-online (row ∷ rows) = ap (λ cs. chunk_from_row true row ∷ cs) (rows-online rows)

online-valid : (cs : List ChunkRecord) → all chunk_is_valid (map online cs) ≡ all chunk_is_valid cs
unfolding online chunk_is_valid
online-valid [] = refl
online-valid (c ∷ cs) = rw (online-valid cs) refl

online-ids : (cs : List ChunkRecord) → chunk_ids (map online cs) ≡ chunk_ids cs
unfolding online
online-ids [] = refl
online-ids (c ∷ cs) = ap (λ ids. c.chunk_id ∷ ids) (online-ids cs)

online-versions :
    (cs : List ChunkRecord) → map (λ c. c.version_id) (map online cs) ≡ map (λ c. c.version_id) cs
unfolding online
online-versions [] = refl
online-versions (c ∷ cs) = ap (λ ids. c.version_id ∷ ids) (online-versions cs)

all_in_version :
    (p : PdfObject) (cs : List ChunkRecord)
    → all (is_of_pdf p) cs ≡ true
    → all (contains (p.document_version_id ∷ [])) (map (λ c. c.version_id) cs) ≡ true
unfolding is_of_pdf
all_in_version p [] h = refl
all_in_version p (c ∷ cs) h =
    let rest = all_in_version p cs (ground arith) in
    ground (arith, =ᵗ_comm p.document_version_id c.version_id)

has_version_chunk :
    (p : PdfObject) (cs : List ChunkRecord)
    → (length cs == 0) ≡ false
    → all (is_of_pdf p) cs ≡ true
    → contains (map (λ c. c.version_id) cs) p.document_version_id ≡ true
unfolding is_of_pdf
has_version_chunk p [] n h = absurd (ground arith)
has_version_chunk p (c ∷ cs) n h = ground arith

module _ (p : PdfObject) (chunks : List ChunkRecord) where
  abbrev no_other : List ChunkRecord → Repo (List ChunkRecord)
  no_other cs = do
    require (same_versions cs (p.document_version_id ∷ [])) identity_conflict
    require (not (has_duplicates (chunk_ids cs))) fact_source
    return cs

  abbrev checked_chunks : List ChunkRecord → Repo (List ChunkRecord)
  checked_chunks cs =
      (require (all chunk_is_valid cs) validation_error >>= λ _. return cs) >>= no_other

  checks_pass :
      (c : Connection)
      → all chunk_is_valid chunks ≡ true
      → AreOfPdf p chunks
      → checked_chunks (map online chunks) c ≡ (ok (map online chunks), c)
  unfolding same_versions
  checks_pass c valid w =
      rw
        (
          online-valid chunks,
          valid,
          online-versions chunks,
          all_in_version p chunks w.all_of_pdf,
          has_version_chunk p chunks w.some_chunk w.all_of_pdf,
          online-ids chunks,
          w.different_ids,
        )
        refl

  load_body-snapshot :
      (id_before : String → String → Bool) (c : Connection)
      → HasChunks p chunks c.working
      → AreOfPdf p chunks
      → any (is_online_version p.document_version_id p.owner_id p.document_id) c.working.versions
        ≡ true
      → load_body id_before p.owner_id (p.document_version_id ∷ []) c ≡ (ok (map online chunks), c)
  unfolding load_body chunks_from_rows
  load_body-snapshot id_before c s w online_now =
      let rows = loaded_rows p chunks c.working id_before s w.all_of_pdf online_now in
      let stored : List ChunkRow = stored_rows p.owner_id p.document_version_id c.working in
      let given : map (chunk_from_row true) stored ≡ map online chunks =
        rows-online stored ∙ ap (map online) s.exact_chunks in
      ap (λ rs. checked_chunks (map (chunk_from_row true) rs) c) rows
      ∙ ap (λ cs. checked_chunks cs c) given
      ∙ checks_pass c s.valid_chunks w

  -- A snapshot that was persisted, and whose version is online in tables whose chunks are exactly
  -- those that the persisting call left, is loaded for the version as it was given: the same chunks,
  -- in the same order, now marked as active. The owner and the version must be valid identifiers.
  pub load_online_chunks-persist_runtime_snapshot :
      (fingerprint : List ChunkRecord → String) (id_before : String → String → Bool)
      → (c c' later : Connection) (r : RuntimeSnapshot)
      → persist_runtime_snapshot fingerprint p chunks c ≡ (ok r, c')
      → later.working.chunks ≡ c'.committed.chunks
      → any
          (is_online_version p.document_version_id p.owner_id p.document_id)
          later.working.versions
        ≡ true
      → is_contract_id p.owner_id ≡ true
      → is_contract_id p.document_version_id ≡ true
      → load_online_chunks id_before p.owner_id (p.document_version_id ∷ []) later
        ≡ (ok (map online chunks), commit later)
  unfolding load_online_chunks has_duplicates stored_rows
  load_online_chunks-persist_runtime_snapshot fingerprint id_before c c' later r h same_chunks
        online_now owner version =
      let (is_receipt, stored, ours, settled) =
        persist_runtime_snapshot-IsStored fingerprint p chunks c c' r h in
      let still : HasChunks p chunks later.working = record {
        exact_chunks =
            ap
              (λ rows. map (chunk_from_row false) (
                sort_by ordinal_before
                  (select_where (chunk_key p.owner_id p.document_version_id) rows)))
              same_chunks
            ∙ stored.has_chunks.exact_chunks;
        valid_chunks = stored.has_chunks.valid_chunks;
      } in
      rw (owner, version, load_body-snapshot id_before later still ours online_now) refl
