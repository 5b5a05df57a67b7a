-- ===== src/Storage/Snapshots/Rows.antt =====
-- The rows that are loaded for a version are those of its snapshot, in their order.
use zhiyan_personal_academic.Prelude.{
  refl, [], ◌∷◌, ◌≡◌, sym, ap, ◌∙◌, subst, true, false, Bool, String, List, map, any, all, All, In,
  arith, ◌=ᵗ◌, select_where, sort_by, insert_by, all-In, In-All, In-sort_by, eq_iff, Bool-cases,
  inl, inr, =ᵗ_comm, All-sort_by, select_where_sound,
}
use zhiyan_personal_academic.Storage.Records.{PdfObject, ChunkRecord}
use zhiyan_personal_academic.Storage.Database.{Database, ChunkRow}
use zhiyan_personal_academic.Storage.Snapshots.{chunk_key}
use zhiyan_personal_academic.Storage.Snapshots.Persist.{
  is_of_pdf, chunk_from_row, stored_rows, ordinal_before, row_before, is_online_row,
  is_online_version,
}
use zhiyan_personal_academic.Storage.Snapshots.Stored.{HasChunks}

module _ {A : Type 0} where
  select_where-cong :
      (p q : A → Bool) (xs : List A)
      → All (λ x. p x ≡ q x) xs
      → select_where p xs ≡ select_where q xs
  unfolding select_where
  select_where-cong p q [] a = refl
  select_where-cong p q (x ∷ xs) a = rw (a.0, select_where-cong p q xs a.1) refl

  insert_by-cong :
      (b1 b2 : A → A → Bool) (P : A → Type 0) (x : A) (xs : List A)
      → ((y z : A) → P y → P z → b1 y z ≡ b2 y z)
      → P x
      → All P xs
      → insert_by b1 x xs ≡ insert_by b2 x xs
  unfolding insert_by
  insert_by-cong b1 b2 P x [] f h a = refl
  insert_by-cong b1 b2 P x (y ∷ ys) f h a =
      rw (f y x a.0 h, insert_by-cong b1 b2 P x ys f h a.1) refl

  sort_by-cong :
      (b1 b2 : A → A → Bool) (P : A → Type 0) (xs : List A)
      → ((y z : A) → P y → P z → b1 y z ≡ b2 y z)
      → All P xs
      → sort_by b1 xs ≡ sort_by b2 xs
  unfolding sort_by
  sort_by-cong b1 b2 P [] f a = refl
  sort_by-cong b1 b2 P (x ∷ xs) f a =
      ap (insert_by b1 x) (sort_by-cong b1 b2 P xs f a.1)
      ∙ insert_by-cong b1 b2 P x (sort_by b2 xs) f a.0 (All-sort_by b2 P xs a.1)

  In-select_where :
      (p : A → Bool) (x : A) (xs : List A) → In x xs → p x ≡ true → In x (select_where p xs)
  unfolding select_where
  In-select_where p x [] i h = absurd i
  In-select_where p x (y ∷ ys) (inl e) h =
      let hit : p y ≡ true = subst (λ z. p z ≡ true) e h in rw hit (inl e)
  In-select_where p x (y ∷ ys) (inr i) h = elim (Bool-cases (p y)) [
    | inl hit ↦ rw hit (inr (In-select_where p x ys i h))
    | inr miss ↦ rw miss (In-select_where p x ys i h)
  ]

In-map : {A B : Type 0} (f : A → B) (x : A) (xs : List A) → In x xs → In (f x) (map f xs)
In-map f x [] i = absurd i
In-map f x (y ∷ ys) (inl e) = inl (ap f e)
In-map f x (y ∷ ys) (inr i) = inr (In-map f x ys i)

module _ (p : PdfObject) (chunks : List ChunkRecord) (d : Database) where
  abbrev its_key : ChunkRow → Bool
  its_key = chunk_key p.owner_id p.document_version_id

  -- A stored row of the version is one of the chunks, so of the PDF's document.
  row_document :
      (row : ChunkRow)
      → HasChunks p chunks d
      → all (is_of_pdf p) chunks ≡ true
      → In row d.chunks
      → its_key row ≡ true
      → row.chunk.document_id ≡ p.document_id
  unfolding stored_rows is_of_pdf chunk_from_row
  row_document row w ours i h =
      let rows : List ChunkRow = select_where its_key d.chunks in
      let sorted : In row (sort_by ordinal_before rows) =
        (In-sort_by ordinal_before row rows).1 (In-select_where its_key row d.chunks i h) in
      let back : In (chunk_from_row false row) chunks =
        subst (λ cs. In (chunk_from_row false row) cs) w.exact_chunks
          (In-map (chunk_from_row false) row (sort_by ordinal_before rows) sorted) in
      let its = all-In (is_of_pdf p) (chunk_from_row false row) chunks ours back in
      (eq_iff row.chunk.document_id p.document_id).0 (ground arith)

  same_selection :
      (row : ChunkRow)
      → any (is_online_version p.document_version_id p.owner_id p.document_id) d.versions ≡ true
      → (its_key row ≡ true → row.chunk.document_id ≡ p.document_id)
      → is_online_row p.owner_id (p.document_version_id ∷ []) d.versions row ≡ its_key row
  unfolding is_online_row chunk_key
  same_selection row online_now doc = elim (Bool-cases (its_key row)) [
    | inl h ↦
        let owner : row.chunk.tenant_id ≡ p.owner_id =
          (eq_iff row.chunk.tenant_id p.owner_id).0 (ground arith) in
        let version : row.chunk.version_id ≡ p.document_version_id =
          (eq_iff row.chunk.version_id p.document_version_id).0 (ground arith) in
        let now : any
              (is_online_version row.chunk.version_id row.chunk.tenant_id row.chunk.document_id)
              d.versions
            ≡ true =
          ap (λ v. any (is_online_version v row.chunk.tenant_id row.chunk.document_id) d.versions)
            version
          ∙ ap
              (λ o.
                any (is_online_version p.document_version_id o row.chunk.document_id) d.versions)
              owner
          ∙ ap (λ x. any (is_online_version p.document_version_id p.owner_id x) d.versions) (doc h)
          ∙ online_now in
        rw now (ground (arith, =ᵗ_comm p.document_version_id row.chunk.version_id))
    | inr h ↦ ground (arith, =ᵗ_comm p.document_version_id row.chunk.version_id)
  ]

  same_order :
      (id_before : String → String → Bool) (a b : ChunkRow)
      → its_key a ≡ true
      → its_key b ≡ true
      → row_before id_before a b ≡ ordinal_before a b
  unfolding row_before chunk_key
  same_order id_before a b h k =
      let version_a : a.chunk.version_id ≡ p.document_version_id =
        (eq_iff a.chunk.version_id p.document_version_id).0 (ground arith) in
      let version_b : b.chunk.version_id ≡ p.document_version_id =
        (eq_iff b.chunk.version_id p.document_version_id).0 (ground arith) in
      let same : (a.chunk.version_id =ᵗ b.chunk.version_id) ≡ true =
        (eq_iff a.chunk.version_id b.chunk.version_id).1 (version_a ∙ sym version_b) in
      rw same refl

  -- The rows that are loaded.
  pub loaded_rows :
      (id_before : String → String → Bool)
      → HasChunks p chunks d
      → all (is_of_pdf p) chunks ≡ true
      → any (is_online_version p.document_version_id p.owner_id p.document_id) d.versions ≡ true
      → sort_by
          (row_before id_before)
          (select_where (is_online_row p.owner_id (p.document_version_id ∷ []) d.versions) d.chunks)
        ≡ stored_rows p.owner_id p.document_version_id d
  unfolding stored_rows
  loaded_rows id_before w ours online_now =
      ap (sort_by (row_before id_before)) (
        select_where-cong (is_online_row p.owner_id (p.document_version_id ∷ []) d.versions) its_key
          d.chunks
          (In-All
            (λ row.
              is_online_row p.owner_id (p.document_version_id ∷ []) d.versions row ≡ its_key row)
            d.chunks (λ row i. same_selection row online_now (row_document row w ours i))))
      ∙ sort_by-cong (row_before id_before) ordinal_before (λ row. its_key row ≡ true)
          (select_where its_key d.chunks) (same_order id_before)
          (select_where_sound its_key d.chunks)
