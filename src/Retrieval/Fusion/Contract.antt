-- ===== src/Retrieval/Fusion/Contract.antt =====
-- What a fusion of candidates promises, and what validated candidates give it.
use zhiyan_personal_academic.Prelude.{
  refl, [], ◌∷◌, ◌≡◌, ◌⊎◌, inl, inr, true, false, ℕ, ◌≤◌, List, none, length, String, All, any, In,
  arith, ◌=ᵗ◌, map, Ordered, All-map,
}
use zhiyan_personal_academic.Retrieval.Results.{
  Chunk, RankedChunk, validate_ranking, candidate_error,
}
use zhiyan_personal_academic.Retrieval.Fusion.{Scores, Fused, remote_backend}
use zhiyan_personal_academic.Retrieval.Fusion.Entries.{note_all, total}
use zhiyan_personal_academic.Retrieval.Fusion.Invariant.{Placed}
use zhiyan_personal_academic.Retrieval.Fusion.Candidates.{IsNamed, higher}

abbrev pub placings : {S P : Type 0} → List (RankedChunk S P) → List (ℕ × Chunk P)
placings [] = []
placings (c ∷ cs) = (c.rank, c.chunk) ∷ placings cs

abbrev pub chunks_of : {S P : Type 0} → List (RankedChunk S P) → List (Chunk P)
chunks_of cs = map (λ c. c.chunk) cs

module _ (scores : Scores) {P : Type 0} where
  open scores use {Score, zero_score, above, above_asymm, above_cotrans, is_finite}

  abbrev pub IsCandidate : RankedChunk Score P → Type 0
  IsCandidate c = candidate_error is_finite c ≡ none

  pub candidate_facts : (c : RankedChunk Score P) → IsCandidate c → (1 ≤ c.rank) × IsNamed c.chunk
  unfolding candidate_error
  candidate_facts c h = (ground arith, (ground arith, ground arith))

  pub candidates-Placed :
      (cs : List (RankedChunk Score P))
      → All IsCandidate cs
      → All (Placed (chunks_of cs)) (placings cs)
  candidates-Placed [] a = tt
  candidates-Placed (c ∷ cs) a = (
    ((candidate_facts c a.0).0, inl refl),
    All-map (Placed (chunks_of cs)) (Placed (chunks_of (c ∷ cs))) (placings cs)
        (λ p w. (w.0, inr w.1)) (candidates-Placed cs a.1),
  )

  pub candidates-IsNamed :
      (cs : List (RankedChunk Score P)) → All IsCandidate cs → All IsNamed (chunks_of cs)
  candidates-IsNamed [] a = tt
  candidates-IsNamed (c ∷ cs) a = ((candidate_facts c a.0).1, candidates-IsNamed cs a.1)

  -- The score of a chunk by itself: its places in the rankings, each by its reciprocal.
  abbrev pub rrf_score : ℕ → List (RankedChunk Score P) → String → Score
  rrf_score k cs id = total scores k id (placings cs) zero_score

  -- A candidate of the fused ranking: one of the candidates, with its chunk's score.
  abbrev pub IsScored : ℕ → List (RankedChunk Score P) → RankedChunk Score P → Type 0
  IsScored k cs c = In c.chunk (chunks_of cs) × (c.score ≡ rrf_score k cs c.chunk.chunk_id)

  -- A candidate's chunk is in the fused ranking, or that one is full of chunks that score no less.
  abbrev pub IsPlaced :
      ℕ → ℕ → List (RankedChunk Score P) → List (RankedChunk Score P) → RankedChunk Score P → Type 0
  IsPlaced k top_k cs r c =
      (any (λ d. d.chunk.chunk_id =ᵗ c.chunk.chunk_id) r ≡ true)
      ⊎ ((length r ≡ top_k) × All (λ d. above (rrf_score k cs c.chunk.chunk_id) d.score ≡ false) r)

  pub record IsFusion (k top_k : ℕ) (cs r : List (RankedChunk Score P)) : Type 0 where
    pub is_ranking : validate_ranking remote_backend r ≡ none
    pub at_most_top_k : length r ≤ top_k
    pub best_first : Ordered (higher scores) r
    pub each_scored : All (IsScored k cs) r
    pub each_placed : All (IsPlaced k top_k cs r) cs

  abbrev pub entries_of : ℕ → List (RankedChunk Score P) → List (Fused Score P)
  entries_of k cs = note_all scores k (placings cs) []
