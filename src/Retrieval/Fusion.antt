-- ===== src/Retrieval/Fusion.antt =====
-- backend/retrieval/hybrid.py and backend/retrieval/remote_hybrid.py: reciprocal-rank fusion. The
-- dictionaries by chunk, `by_id`, `scores` and `best_rank`, have the same keys, added at the same
-- time: they are one list of entries, in the order of their insertion.
pub mod Entries
pub mod Invariant
pub mod Candidates
pub mod Contract
pub mod Ranked
pub mod Remote
pub mod Local
use zhiyan_personal_academic.Prelude.{
  ℕ, ◌+◌, ◌≤◌, String, Bool, true, false, not, ◌&&◌, ◌||◌, Option, none, some, List, [], ◌∷◌, ◌++◌,
  map, take, min, if◌then◌else◌, ltb, ◌==◌, ◌=ᵗ◌, text_before, find_where, update_where, sort_by,
  ◌≡◌, ◌⊎◌, is_some,
}
use zhiyan_personal_academic.Retrieval.Results.{
  Chunk, RankedChunk, RankingError, validate_ranking, chunks_only, candidate_error,
}

-- The floats that fusion computes with: `0.0`, the sum, `1.0 / n`, `a > b` on finite floats, and
-- `math.isfinite`. Of these the code needs that finite floats are ordered, and that adding a
-- reciprocal of a positive number keeps a score finite.
pub record Scores : Type 1 where
  pub Score : Type 0
  pub zero_score : Score
  pub plus : Score → Score → Score
  pub reciprocal : ℕ → Score
  pub above : Score → Score → Bool
  pub is_finite : Score → Bool
  pub above_asymm : (a b : Score) → above a b ≡ true → above b a ≡ false
  pub above_cotrans : (a b c : Score) → above a c ≡ true → (above a b ≡ true) ⊎ (above b c ≡ true)
  pub zero_is_finite : is_finite zero_score ≡ true
  pub plus_is_finite :
      (a : Score) (n : ℕ) → 1 ≤ n → is_finite a ≡ true → is_finite (plus a (reciprocal n)) ≡ true

pub record Fused (S P : Type 0) : Type 0 where
  pub chunk_id : String
  pub chunk : Chunk P
  pub score : S
  pub best_rank : ℕ

abbrev pub has_chunk_id : {S P : Type 0} → String → Fused S P → Bool
has_chunk_id chunk_id e = e.chunk_id =ᵗ chunk_id

pub data SearchError : Type 0 where
  invalid_top_k search_failed payloads_disagree : SearchError
  invalid_candidate invalid_ranking : RankingError → SearchError

pub data Search {ℓ} (A : Type ℓ) : Type ℓ where
  found : A → Search A
  failed : SearchError → Search A

infixl 5 ◌>>=◌
abbrev pub ◌>>=◌ : {A B : Type 0} → Search A → (A → Search B) → Search B
found a >>= f = f a
failed e >>= f = failed e

-- `raise` of an error that a check has found.
abbrev pub checked :
    {A : Type 0} → Option RankingError → (RankingError → SearchError) → A → Search A
checked none error a = found a
checked (some e) error a = failed (error e)

-- A search of an index: it may raise.
abbrev pub answered : {A : Type 0} → Option A → Search A
answered none = failed search_failed
answered (some a) = found a

-- The first of two errors.
abbrev pub or_else : {A : Type 0} → Option A → Option A → Option A
or_else none later = later
or_else (some a) later = some a

abbrev pub remote_backend : String
remote_backend = "remote_rrf_elasticsearch_milvus_v1"

-- The equality of two chunks, as JSON objects, with that of their payloads.
abbrev pub is_same_chunk : {P : Type 0} → (P → P → Bool) → Chunk P → Chunk P → Bool
is_same_chunk same_payload c d =
    c.chunk_id =ᵗ d.chunk_id && c.document_id =ᵗ d.document_id && same_payload c.payload d.payload

abbrev pub has_other_chunk : {S P : Type 0} → (P → P → Bool) → Chunk P → Option (Fused S P) → Bool
has_other_chunk same_payload chunk none = false
has_other_chunk same_payload chunk (some e) = not (is_same_chunk same_payload e.chunk chunk)

module _ (scores : Scores) {P : Type 0} where
  open scores use {Score, zero_score, plus, reciprocal, above, is_finite}

  -- The loop body over a candidate of one ranking.
  unfoldable pub note : ℕ → ℕ → Chunk P → List (Fused Score P) → List (Fused Score P)
  note rrf_k rank chunk entries =
      if is_some (find_where (has_chunk_id chunk.chunk_id) entries)
      then update_where (has_chunk_id chunk.chunk_id)
          (λ e. record e {
            chunk = chunk;
            score = plus e.score (reciprocal (rrf_k + rank));
            best_rank = min e.best_rank rank;
          })
          entries
      else entries
        ++ record {
          chunk_id = chunk.chunk_id;
          chunk = chunk;
          score = plus zero_score (reciprocal (rrf_k + rank));
          best_rank = rank;
        }
          ∷ []

  -- The key `(-score, best_rank, chunk_id)`, compared.
  unfoldable pub fused_before : Fused Score P → Fused Score P → Bool
  fused_before a b =
      if above a.score b.score
      then true
      else if above b.score a.score
      then false
      else ltb a.best_rank b.best_rank
        || (a.best_rank == b.best_rank && text_before a.chunk_id b.chunk_id)

  -- `enumerate(ranking, start=...)` of the local rankings, which hold chunks alone.
  unfoldable pub note_chunks : ℕ → ℕ → List (Chunk P) → List (Fused Score P) → List (Fused Score P)
  note_chunks rrf_k rank [] entries = entries
  note_chunks rrf_k rank (chunk ∷ chunks) entries =
      note_chunks rrf_k (rank + 1) chunks (note rrf_k rank chunk entries)

  -- The second half of `LocalRrfHybridRetriever.retrieve`.
  unfoldable pub fuse_local : ℕ → ℕ → List (Chunk P) → List (Chunk P) → List (Chunk P)
  fuse_local rrf_k top_k lexical vector =
      map (λ e. e.chunk)
        (take top_k
          (sort_by fused_before (note_chunks rrf_k 1 vector (note_chunks rrf_k 1 lexical []))))

  -- `LocalRrfHybridRetriever.retrieve`, with the searches of its two indexes.
  unfoldable pub retrieve_local :
      ℕ
      → ℕ
      → ℕ
      → (ℕ → Option (List (Chunk P)))
      → (ℕ → Option (List (Chunk P)))
      → Search (List (Chunk P))
  retrieve_local candidate_k rrf_k top_k lexical_search vector_search =
      if ltb top_k 1 then failed invalid_top_k else do
        lexical ← answered (lexical_search candidate_k)
        vector ← answered (vector_search candidate_k)
        found (fuse_local rrf_k top_k lexical vector)

  -- `self.search` of a remote index has its rankings validated, unless they are empty, against
  -- the backend of the first candidate.
  unfoldable pub own_backend_error : List (RankedChunk Score P) → Option RankingError
  own_backend_error [] = none
  own_backend_error (c ∷ cs) = validate_ranking c.backend (c ∷ cs)

  -- `existing is not None and existing != candidate.chunk`.
  unfoldable pub disagrees : (P → P → Bool) → Chunk P → List (Fused Score P) → Bool
  disagrees same_payload chunk entries =
      has_other_chunk same_payload chunk (find_where (has_chunk_id chunk.chunk_id) entries)

  -- The loop over the candidates of one ranking.
  unfoldable pub note_candidates :
      (P → P → Bool)
      → ℕ
      → List (RankedChunk Score P)
      → List (Fused Score P)
      → Search (List (Fused Score P))
  note_candidates same_payload rrf_k [] entries = found entries
  note_candidates same_payload rrf_k (c ∷ cs) entries =
      let rest = note_candidates same_payload rrf_k cs (note rrf_k c.rank c.chunk entries) in
      if disagrees same_payload c.chunk entries then failed payloads_disagree else rest

  -- `enumerate(ordered_ids, 1)`: the candidates of the fused ranking.
  unfoldable pub fused_candidates : String → ℕ → List (Fused Score P) → List (RankedChunk Score P)
  fused_candidates backend rank [] = []
  fused_candidates backend rank (e ∷ es) =
      record { backend = backend; rank = rank; score = e.score; chunk = e.chunk }
      ∷ fused_candidates backend (rank + 1) es

  -- The first error of `RankedChunk.__post_init__` over new candidates.
  unfoldable pub first_error : List (RankedChunk Score P) → Option RankingError
  first_error [] = none
  first_error (c ∷ cs) = or_else (candidate_error is_finite c) (first_error cs)

  -- `RemoteRrfHybridRetriever.search` over the two rankings.
  unfoldable pub fuse_remote :
      (P → P → Bool)
      → ℕ
      → ℕ
      → List (RankedChunk Score P)
      → List (RankedChunk Score P)
      → Search (List (RankedChunk Score P))
  fuse_remote same_payload rrf_k top_k lexical vector = do
    checked_lexical ← checked (own_backend_error lexical) invalid_ranking lexical
    checked_vector ← checked (own_backend_error vector) invalid_ranking vector
    first ← note_candidates same_payload rrf_k checked_lexical []
    entries ← note_candidates same_payload rrf_k checked_vector first
    let fused = fused_candidates remote_backend 1 (take top_k (sort_by fused_before entries))
    made ← checked (first_error fused) invalid_candidate fused
    checked (validate_ranking remote_backend made) invalid_ranking made

  -- `RemoteRrfHybridRetriever.search`, with the searches of its two indexes.
  unfoldable pub search_remote :
      (P → P → Bool)
      → ℕ
      → ℕ
      → ℕ
      → (ℕ → Option (List (RankedChunk Score P)))
      → (ℕ → Option (List (RankedChunk Score P)))
      → Search (List (RankedChunk Score P))
  search_remote same_payload candidate_k rrf_k top_k elasticsearch_search milvus_search =
      if ltb top_k 1 then failed invalid_top_k else do
        lexical ← answered (elasticsearch_search candidate_k)
        vector ← answered (milvus_search candidate_k)
        fuse_remote same_payload rrf_k top_k lexical vector

  -- `RemoteRrfHybridRetriever.retrieve`.
  unfoldable pub retrieve_remote :
      (P → P → Bool)
      → ℕ
      → ℕ
      → ℕ
      → (ℕ → Option (List (RankedChunk Score P)))
      → (ℕ → Option (List (RankedChunk Score P)))
      → Search (List (Chunk P))
  retrieve_remote same_payload candidate_k rrf_k top_k elasticsearch_search milvus_search = do
    ranking ← search_remote same_payload candidate_k rrf_k top_k elasticsearch_search milvus_search
    found (chunks_only ranking)
