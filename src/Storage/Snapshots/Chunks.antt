-- ===== src/Storage/Snapshots/Chunks.antt =====
-- backend/ingestion/models.py: the validator of a chunk and the equality of chunks, field by field.
use zhiyan_personal_academic.Prelude.{
  refl, [], ◌∷◌, ◌≡◌, ap, ◌&&◌, not, true, false, Bool, String, List, Option, none, some, ◌=ᵗ◌,
  ◌==◌, leb, ltb, eq_iff, has_duplicates, arith, &&-left, &&-right,
}
use zhiyan_personal_academic.Storage.Records.{
  ChunkRecord, Visibility, public, tenant, private, same_bool,
}

-- `ranges_and_scopes_are_valid`, with the bounds of the page fields and of the two texts that must
-- not be empty.
unfoldable pub chunk_is_valid : ChunkRecord → Bool
chunk_is_valid c =
    not (c.text =ᵗ "")
    && not (c.section_path =ᵗ "")
    && leb 1 c.page_start
    && leb 1 c.page_end
    && not (ltb c.page_end c.page_start)
    && not (has_duplicates c.library_scope_ids)

abbrev pub same_visibility : Visibility → Visibility → Bool
same_visibility public public = true
same_visibility tenant tenant = true
same_visibility private private = true
same_visibility _ _ = false

abbrev pub same_option : Option String → Option String → Bool
same_option none none = true
same_option (some a) (some b) = a =ᵗ b
same_option _ _ = false

unfoldable pub same_texts : List String → List String → Bool
same_texts [] [] = true
same_texts (a ∷ as') (b ∷ bs) = a =ᵗ b && same_texts as' bs
same_texts _ _ = false

unfoldable pub same_chunk : ChunkRecord → ChunkRecord → Bool
same_chunk c d =
    c.chunk_id =ᵗ d.chunk_id
    && c.document_id =ᵗ d.document_id
    && c.version_id =ᵗ d.version_id
    && c.text =ᵗ d.text
    && c.section_path =ᵗ d.section_path
    && c.page_start == d.page_start
    && c.page_end == d.page_end
    && same_option c.parent_chunk_id d.parent_chunk_id
    && same_option c.previous_chunk_id d.previous_chunk_id
    && same_option c.next_chunk_id d.next_chunk_id
    && c.tenant_id =ᵗ d.tenant_id
    && same_visibility c.visibility d.visibility
    && same_texts c.library_scope_ids d.library_scope_ids
    && c.parse_version =ᵗ d.parse_version
    && c.embedding_version =ᵗ d.embedding_version
    && same_bool c.is_active d.is_active

unfoldable pub same_chunks : List ChunkRecord → List ChunkRecord → Bool
same_chunks [] [] = true
same_chunks (c ∷ cs) (d ∷ ds) = same_chunk c d && same_chunks cs ds
same_chunks _ _ = false

visibility_eq : (a b : Visibility) → same_visibility a b ≡ true → a ≡ b
visibility_eq public public h = refl
visibility_eq tenant tenant h = refl
visibility_eq private private h = refl
visibility_eq public tenant h = absurd (ground arith)
visibility_eq public private h = absurd (ground arith)
visibility_eq tenant public h = absurd (ground arith)
visibility_eq tenant private h = absurd (ground arith)
visibility_eq private public h = absurd (ground arith)
visibility_eq private tenant h = absurd (ground arith)

option_eq : (a b : Option String) → same_option a b ≡ true → a ≡ b
option_eq none none h = refl
option_eq (some a) (some b) h = ap some ((eq_iff a b).0 h)
option_eq none (some b) h = absurd (ground arith)
option_eq (some a) none h = absurd (ground arith)

texts_eq : (a b : List String) → same_texts a b ≡ true → a ≡ b
unfolding same_texts
texts_eq [] [] h = refl
texts_eq (a ∷ as') (b ∷ bs) h =
    let first = (eq_iff a b).0 (&&-left (a =ᵗ b) (same_texts as' bs) h) in
    let rest = texts_eq as' bs (&&-right (a =ᵗ b) (same_texts as' bs) h) in cc
texts_eq [] (b ∷ bs) h = absurd (ground arith)
texts_eq (a ∷ as') [] h = absurd (ground arith)

bool_eq : (a b : Bool) → same_bool a b ≡ true → a ≡ b
bool_eq true b h = ground arith
bool_eq false b h = ground arith

pub same_chunk_lem : (c d : ChunkRecord) → same_chunk c d ≡ true → c ≡ d
unfolding same_chunk
same_chunk_lem c d h =
    let e1 = (eq_iff c.chunk_id d.chunk_id).0 (ground arith) in
    let e2 = (eq_iff c.document_id d.document_id).0 (ground arith) in
    let e3 = (eq_iff c.version_id d.version_id).0 (ground arith) in
    let e4 = (eq_iff c.text d.text).0 (ground arith) in
    let e5 = (eq_iff c.section_path d.section_path).0 (ground arith) in
    let e6 : c.page_start ≡ d.page_start = ground arith in
    let e7 : c.page_end ≡ d.page_end = ground arith in
    let e8 = option_eq c.parent_chunk_id d.parent_chunk_id (ground arith) in
    let e9 = option_eq c.previous_chunk_id d.previous_chunk_id (ground arith) in
    let e10 = option_eq c.next_chunk_id d.next_chunk_id (ground arith) in
    let e11 = (eq_iff c.tenant_id d.tenant_id).0 (ground arith) in
    let e12 = visibility_eq c.visibility d.visibility (ground arith) in
    let e13 = texts_eq c.library_scope_ids d.library_scope_ids (ground arith) in
    let e14 = (eq_iff c.parse_version d.parse_version).0 (ground arith) in
    let e15 = (eq_iff c.embedding_version d.embedding_version).0 (ground arith) in
    let e16 = bool_eq c.is_active d.is_active (ground arith) in
    λ i. record {
      chunk_id = e1 i;
      document_id = e2 i;
      version_id = e3 i;
      text = e4 i;
      section_path = e5 i;
      page_start = e6 i;
      page_end = e7 i;
      parent_chunk_id = e8 i;
      previous_chunk_id = e9 i;
      next_chunk_id = e10 i;
      tenant_id = e11 i;
      visibility = e12 i;
      library_scope_ids = e13 i;
      parse_version = e14 i;
      embedding_version = e15 i;
      is_active = e16 i;
    }

pub same_chunks_lem : (cs ds : List ChunkRecord) → same_chunks cs ds ≡ true → cs ≡ ds
unfolding same_chunks
same_chunks_lem [] [] h = refl
same_chunks_lem (c ∷ cs) (d ∷ ds) h =
    let first = same_chunk_lem c d (&&-left (same_chunk c d) (same_chunks cs ds) h) in
    let rest = same_chunks_lem cs ds (&&-right (same_chunk c d) (same_chunks cs ds) h) in cc
same_chunks_lem [] (d ∷ ds) h = absurd (ground arith)
same_chunks_lem (c ∷ cs) [] h = absurd (ground arith)
