-- ===== src/Retrieval/Fusion/Local.antt =====
-- The local and the remote fusion of the same rankings.
use zhiyan_personal_academic.Prelude.{
  refl, [], ◌∷◌, ◌≡◌, sym, Bool, true, ℕ, ◌+◌, List, none, map, ap, ◌∙◌, ◌++◌, arith, All, take,
  sort_by, String,
}
use zhiyan_personal_academic.Retrieval.Results.{
  RankedChunk, ranks_from, chunks_only, validate_ranking,
}
use zhiyan_personal_academic.Retrieval.Fusion.{
  Scores, Fused, found, fuse_remote, fuse_local, fused_before, fused_candidates, note_chunks, note,
  own_backend_error, remote_backend,
}
use zhiyan_personal_academic.Retrieval.Fusion.Entries.{note_all}
use zhiyan_personal_academic.Retrieval.Fusion.Contract.{
  placings, chunks_of, IsCandidate, entries_of,
}
use zhiyan_personal_academic.Retrieval.Fusion.Ranked.{fusion_of, top_entries}
use zhiyan_personal_academic.Retrieval.Fusion.Remote.{
  agree, fuse_remote-fusion_of, note_all-append, placings-append,
}

found-cancel : {A : Type 0} {a b : A} → found a ≡ found b → a ≡ b
found-cancel h = cc

module _ (scores : Scores) {P : Type 0} where
  open scores use {Score}

  -- The ranks of a valid ranking are those that `enumerate` gives its chunks.
  note_chunks-placings :
      (k rank : ℕ) (cs : List (RankedChunk Score P)) (es : List (Fused Score P))
      → ranks_from rank cs ≡ true
      → note_chunks scores k rank (chunks_of cs) es ≡ note_all scores k (placings cs) es
  unfolding note_chunks note_all ranks_from
  note_chunks-placings k rank [] es h = refl
  note_chunks-placings k rank (c ∷ cs) es h =
      let its : c.rank ≡ rank = ground arith in
      note_chunks-placings k (rank + 1) cs (note scores k rank c.chunk es) (ground arith)
      ∙ ap (λ r. note_all scores k (placings cs) (note scores k r c.chunk es)) (sym its)

  own_backend-ranks_from :
      (cs : List (RankedChunk Score P))
      → own_backend_error scores cs ≡ none
      → ranks_from 1 cs ≡ true
  unfolding own_backend_error validate_ranking ranks_from
  own_backend-ranks_from [] h = refl
  own_backend-ranks_from (c ∷ cs) h = ground arith

  chunks-fused_candidates :
      (b : String) (rank : ℕ) (es : List (Fused Score P))
      → map (λ c. c.chunk) (fused_candidates scores b rank es) ≡ map (λ e. e.chunk) es
  unfolding fused_candidates
  chunks-fused_candidates b rank [] = refl
  chunks-fused_candidates b rank (e ∷ es) =
      ap (λ cs. e.chunk ∷ cs) (chunks-fused_candidates b (rank + 1) es)

  -- For two rankings of valid candidates, each valid for the backend of its first one, in which
  -- chunks of one identity are equal, the chunks of the remote fusion are those that the local fusion
  -- gives for the chunks of the rankings.
  pub fuse_remote-fuse_local :
      (same : P → P → Bool) (k top_k : ℕ) (lexical vector : List (RankedChunk Score P))
      → All (IsCandidate scores) (lexical ++ vector)
      → own_backend_error scores lexical ≡ none
      → own_backend_error scores vector ≡ none
      → agree same (chunks_of (lexical ++ vector)) ≡ true
      → (r : List (RankedChunk Score P)) → fuse_remote scores same k top_k lexical vector ≡ found r
      → chunks_only r ≡ fuse_local scores k top_k (chunks_of lexical) (chunks_of vector)
  unfolding fuse_local chunks_only
  fuse_remote-fuse_local same k top_k lexical vector a hl hv agreeing r h =
      let is_it : r ≡ fusion_of scores k top_k (lexical ++ vector) =
        found-cancel
          (sym h ∙ fuse_remote-fusion_of scores same k top_k lexical vector a hl hv agreeing) in
      let first = note_chunks-placings k 1 lexical [] (own_backend-ranks_from lexical hl) in
      let second =
        note_chunks-placings k 1 vector (entries_of scores k lexical)
          (own_backend-ranks_from vector hv) in
      let same_entries : note_chunks scores k 1 (chunks_of vector)
            (note_chunks scores k 1 (chunks_of lexical) [])
          ≡ entries_of scores k (lexical ++ vector) =
        ap (note_chunks scores k 1 (chunks_of vector)) first
        ∙ second
        ∙ note_all-append scores k (placings lexical) (placings vector) []
        ∙ ap (λ ps. note_all scores k ps []) (sym (placings-append scores lexical vector)) in
      ap (map (λ c. c.chunk)) is_it
      ∙ chunks-fused_candidates remote_backend 1 (top_entries scores k top_k (lexical ++ vector))
      ∙ ap (λ es. map (λ e. e.chunk) (take top_k (sort_by (fused_before scores) es)))
          (sym same_entries)
