-- ===== src/Storage/Snapshots/Stored.antt =====
-- What `persist_runtime_snapshot` leaves in the tables.
use zhiyan_personal_academic.Prelude.{
  refl, [], ◌∷◌, ◌≡◌, sym, ap, ◌∙◌, subst, true, false, not, Bool, ℕ, ◌+◌, String, List, Option,
  none, some, map, all, length, arith, find_where, has_duplicates, ◌==◌, Bool-cases, any, ◌=ᵗ◌, inl,
  inr,
}
use zhiyan_personal_academic.Storage.Records.{PdfObject, ChunkRecord}
use zhiyan_personal_academic.Storage.Database.{
  Connection, Database, ChunkRow, Repo, ok, err, Result, value_error, validation_error,
  identity_conflict, ◌>>◌, return, require, in_transaction, >>=-ok, require-ok, if_raise-ok,
  in_transaction-ok, IsSettled, and_then,
}
use zhiyan_personal_academic.Storage.Snapshots.{pdf_key}
use zhiyan_personal_academic.Storage.Snapshots.Chunks.{chunk_is_valid, same_chunks, same_chunks_lem}
use zhiyan_personal_academic.Storage.Snapshots.Persist.{
  RuntimeSnapshot, chunk_ids, is_of_pdf, insert_pdf, same_pdf, is_stored_pdf, insert_chunks,
  chunk_from_row, chunks_from_rows, stored_rows, persist_body, persist_runtime_snapshot,
  insert_chunk, taken_or_orphan,
}

-- The tables hold exactly the chunks of the PDF's version, in their order, all of them valid.
pub record HasChunks (p : PdfObject) (chunks : List ChunkRecord) (d : Database) : Type 0 where
  pub exact_chunks :
      map (chunk_from_row false) (stored_rows p.owner_id p.document_version_id d) ≡ chunks
  pub valid_chunks : all chunk_is_valid chunks ≡ true

-- They hold the PDF, too, which may have been stored at another time.
pub record IsStored (p : PdfObject) (chunks : List ChunkRecord) (d : Database) : Type 0 where
  pub pdf : PdfObject
  pub pdf_found : find_where (pdf_key p.owner_id p.document_version_id) d.pdf_objects ≡ some pdf
  pub pdf_same : same_pdf pdf p ≡ true
  pub has_chunks : HasChunks p chunks d

-- What a call checks of the chunks first.
pub record AreOfPdf (p : PdfObject) (chunks : List ChunkRecord) : Type 0 where
  pub some_chunk : (length chunks == 0) ≡ false
  pub different_ids : has_duplicates (chunk_ids chunks) ≡ false
  pub all_of_pdf : all (is_of_pdf p) chunks ≡ true

stored_pdf_found :
    (p : PdfObject) (o : Option PdfObject)
    → is_stored_pdf p o ≡ true
    → (q : PdfObject) × (o ≡ some q) × (same_pdf q p ≡ true)
stored_pdf_found p none h = absurd (ground arith)
stored_pdf_found p (some q) h = (q, refl, h)

insert_chunk-pdfs :
    (n : ℕ) (chunk : ChunkRecord) (c : Connection)
    → (insert_chunk n chunk c).1.working.pdf_objects ≡ c.working.pdf_objects
unfolding insert_chunk
insert_chunk-pdfs n chunk c =
    elim (Bool-cases (any (λ row. row.chunk.chunk_id =ᵗ chunk.chunk_id) c.working.chunks)) [
      | inl there ↦ rw there refl
      | inr absent ↦ elim (Bool-cases (taken_or_orphan n chunk c.working)) [
        | inl bad ↦ rw (absent, bad) refl
        | inr good ↦ rw (absent, good) refl
      ]
    ]

and_then-pdfs :
    {A B : Type 0} (r : Result A × Connection) (f : A → Repo B) (ps : List PdfObject)
    → r.1.working.pdf_objects ≡ ps
    → ((a : A) (c : Connection) → (f a c).1.working.pdf_objects ≡ c.working.pdf_objects)
    → (and_then r f).1.working.pdf_objects ≡ ps
and_then-pdfs (ok a, c) f ps h k = k a c ∙ h
and_then-pdfs (err e, c) f ps h k = h

insert_chunks-pdfs :
    (n : ℕ) (chunks : List ChunkRecord) (c : Connection)
    → (insert_chunks n chunks c).1.working.pdf_objects ≡ c.working.pdf_objects
unfolding insert_chunks
insert_chunks-pdfs n [] c = refl
insert_chunks-pdfs n (chunk ∷ chunks) c =
    and_then-pdfs (insert_chunk n chunk c) (λ _. insert_chunks (n + 1) chunks) c.working.pdf_objects
      (insert_chunk-pdfs n chunk c) (λ _ d. insert_chunks-pdfs (n + 1) chunks d)

pub chunks_from_rows-ok :
    (b : Bool) (rows : List ChunkRow) (c c' : Connection) (chunks : List ChunkRecord)
    → chunks_from_rows b rows c ≡ (ok chunks, c')
    → (chunks ≡ map (chunk_from_row b) rows)
      × (all chunk_is_valid (map (chunk_from_row b) rows) ≡ true)
      × (c ≡ c')
unfolding chunks_from_rows
chunks_from_rows-ok b rows c c' chunks h =
    let back : List ChunkRecord = map (chunk_from_row b) rows in
    let (valid, h1) = require-ok (all chunk_is_valid back) validation_error (return back) h in
    (cc, valid, cc)

module _ (fingerprint : List ChunkRecord → String) (p : PdfObject) (chunks : List ChunkRecord) where
  -- The receipt of a snapshot.
  abbrev pub receipt : RuntimeSnapshot
  receipt = record {
    owner_id = p.owner_id;
    document_id = p.document_id;
    document_version_id = p.document_version_id;
    pdf_object_key = p.object_key;
    pdf_sha256 = p.content_sha256;
    chunk_count = length chunks;
    chunk_snapshot_sha256 = fingerprint chunks;
  }

  abbrev conclude : List ChunkRecord → Repo RuntimeSnapshot
  conclude stored_chunks =
      require (same_chunks stored_chunks chunks) identity_conflict >> return receipt

  persist_body-IsStored :
      (c c' : Connection) (r : RuntimeSnapshot)
      → persist_body fingerprint p chunks c ≡ (ok r, c')
      → (r ≡ receipt) × IsStored p chunks c'.working
  unfolding persist_body
  persist_body-IsStored c c' r h =
      let (u, c1, run1, h1) = >>=-ok (insert_pdf p) _ h in
      let (is_pdf, h2) =
        require-ok
          (is_stored_pdf p
            (find_where (pdf_key p.owner_id p.document_version_id) c1.working.pdf_objects))
          identity_conflict _ h1 in
      let (u', c2, run2, h3) = >>=-ok (insert_chunks 0 chunks) _ h2 in
      let rows : List ChunkRow = stored_rows p.owner_id p.document_version_id c2.working in
      let (back, c3, run3, h4) = >>=-ok {c = c2} (chunks_from_rows false rows) conclude h3 in
      let (is_back, valid, here) = chunks_from_rows-ok false rows c2 c3 back run3 in
      let (same, h5) = require-ok (same_chunks back chunks) identity_conflict (return receipt) h4 in
      let (q, at, like) =
        stored_pdf_found p
          (find_where (pdf_key p.owner_id p.document_version_id) c1.working.pdf_objects) is_pdf in
      let there : c2 ≡ c' = cc in
      let exact : back ≡ chunks = same_chunks_lem back chunks same in
      let pdfs : c2.working.pdf_objects ≡ c1.working.pdf_objects =
        ap (λ (x : Result (Unit {0}) × Connection). x.1.working.pdf_objects) (sym run2)
        ∙ insert_chunks-pdfs 0 chunks c1 in
      (
        cc,
        subst (λ (d : Connection). IsStored p chunks d.working) there
            (record {
              pdf = q;
              pdf_found = ap (find_where (pdf_key p.owner_id p.document_version_id)) pdfs ∙ at;
              pdf_same = like;
              has_chunks = record {
                exact_chunks = sym is_back ∙ exact;
                valid_chunks =
                    subst (λ cs. all chunk_is_valid cs ≡ true) exact
                      (subst (λ cs. all chunk_is_valid cs ≡ true) (sym is_back) valid);
              };
            }),
      )

  -- A snapshot that is persisted is the receipt of the PDF and its chunks, and is committed: the
  -- stored PDF is the given one, but for the time of its storage, and the version's stored chunks
  -- are exactly the given ones, in their order, all of them valid, with different identities and of
  -- the PDF's version, of which there is one at least.
  pub persist_runtime_snapshot-IsStored :
      (c c' : Connection) (r : RuntimeSnapshot)
      → persist_runtime_snapshot fingerprint p chunks c ≡ (ok r, c')
      → (r ≡ receipt) × IsStored p chunks c'.committed × AreOfPdf p chunks × IsSettled c'
  unfolding persist_runtime_snapshot
  persist_runtime_snapshot-IsStored c c' r h =
      let body : Repo RuntimeSnapshot = in_transaction true (persist_body fingerprint p chunks) in
      let (nonempty, h1) = if_raise-ok {c = c} (length chunks == 0) value_error _ h in
      let (different, h2) =
        if_raise-ok {c = c} (has_duplicates (chunk_ids chunks)) value_error _ h1 in
      let (ours, h3) = if_raise-ok {c = c} (not (all (is_of_pdf p) chunks)) value_error body h2 in
      let (d, ran, e) = in_transaction-ok {c = c} true (persist_body fingerprint p chunks) h3 in
      let (is_receipt, stored) = persist_body-IsStored c d r ran in
      (
        is_receipt,
        subst (λ (x : Connection). IsStored p chunks x.committed) (sym e) stored,
        record { some_chunk = nonempty; different_ids = different; all_of_pdf = ground arith },
        ap (λ (x : Connection). x.working) e ∙ ap (λ (x : Connection). x.committed) (sym e),
      )
