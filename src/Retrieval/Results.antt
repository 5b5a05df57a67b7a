-- ===== src/Retrieval/Results.antt =====
-- backend/retrieval/results.py: ranked candidates. A chunk is a JSON object, of which the code reads
-- the two identities; the rest is a payload `P`. A score is a float, of a type `S`.
use zhiyan_personal_academic.Prelude.{
  ℕ, ◌+◌, String, Bool, true, false, not, ◌&&◌, ◌||◌, Option, none, some, List, [], ◌∷◌, map, any,
  all, if◌then◌else◌, ltb, ◌==◌, ◌=ᵗ◌, codes, has_duplicates,
}
use zhiyan_personal_academic.Storage.Identifiers.{is_alphanumeric, is_identifier_code}

pub record Chunk (P : Type 0) : Type 0 where
  pub chunk_id : String
  pub document_id : String
  pub payload : P

pub record RankedChunk (S P : Type 0) : Type 0 where
  pub backend : String
  pub rank : ℕ
  pub score : S
  pub chunk : Chunk P

-- ^[A-Za-z0-9][A-Za-z0-9._:-]*$ as a full match.
unfoldable pub matches_backend : List ℕ → Bool
matches_backend [] = false
matches_backend (c ∷ cs) = is_alphanumeric c && all is_identifier_code cs

pub data RankingError : Type 0 where
  invalid_backend invalid_rank invalid_score invalid_chunk : RankingError
  ranks_not_contiguous duplicate_chunks other_backend : RankingError

module _ {S P : Type 0} where
  -- `RankedChunk.__post_init__`: the ValueError that it raises, if it does. `is_finite` is
  -- `math.isfinite`.
  unfoldable pub candidate_error : (S → Bool) → RankedChunk S P → Option RankingError
  candidate_error is_finite c =
      if not (matches_backend (codes c.backend))
      then some invalid_backend
      else if ltb c.rank 1
      then some invalid_rank
      else if not (is_finite c.score)
      then some invalid_score
      else if c.chunk.chunk_id =ᵗ "" || c.chunk.document_id =ᵗ ""
      then some invalid_chunk
      else none

  abbrev pub candidate_id : RankedChunk S P → String
  candidate_id c = c.chunk.chunk_id

  -- The ranks are `first`, `first + 1`, and so on.
  unfoldable pub ranks_from : ℕ → List (RankedChunk S P) → Bool
  ranks_from first [] = true
  ranks_from first (c ∷ cs) = c.rank == first && ranks_from (first + 1) cs

  -- `validate_ranking`: the ValueError that it raises, if it does.
  unfoldable pub validate_ranking : String → List (RankedChunk S P) → Option RankingError
  validate_ranking expected_backend ranking =
      if not (ranks_from 1 ranking)
      then some ranks_not_contiguous
      else if has_duplicates (map candidate_id ranking)
      then some duplicate_chunks
      else if any (λ c. not (c.backend =ᵗ expected_backend)) ranking
      then some other_backend
      else none

  unfoldable pub chunks_only : List (RankedChunk S P) → List (Chunk P)
  chunks_only ranking = map (λ c. c.chunk) ranking
