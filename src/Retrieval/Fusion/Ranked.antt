-- ===== src/Retrieval/Fusion/Ranked.antt =====
-- The ranking of the entries of a fusion has what the contract asks.
use zhiyan_personal_academic.Prelude.{
  refl, [], ◌∷◌, ◌≡◌, ◌⊎◌, inl, inr, sym, true, false, ℕ, ◌≤◌, List, some, All, any, In, subst,
  arith, ◌∙◌, ◌=ᵗ◌, take, sort_by, text_before_asymm, text_before_cotrans, ap, sort_by-Ordered,
  All-sort_by, Unique-sort_by, In-sort_by, =ᵗ_comm, find_where, find_where_unique, Unique-In,
  All-map, eq_refl, eq_iff, All-In,
}
use zhiyan_personal_academic.Retrieval.Results.{RankedChunk}
use zhiyan_personal_academic.Retrieval.Fusion.{
  Scores, Fused, remote_backend, fused_before, fused_candidates, has_chunk_id,
}
use zhiyan_personal_academic.Retrieval.Fusion.Entries.{note_all_score, entry_score}
use zhiyan_personal_academic.Prelude.{
  take-All, length-take, take-Unique, take-Ordered, taken_or_left, any_witness, In-All, In-any,
}
use zhiyan_personal_academic.Retrieval.Fusion.Invariant.{
  same_entry, IsEntry, AreEntries, note_all-AreEntries, any-note_all,
}
use zhiyan_personal_academic.Retrieval.Fusion.Candidates.{
  fused_candidates-All, length-fused_candidates, any-fused_candidates, validate_ranking-fused,
  not_before-not_above, Ordered-fused_candidates,
}
use zhiyan_personal_academic.Retrieval.Fusion.Contract.{
  placings, IsCandidate, chunks_of, rrf_score, IsScored, IsPlaced, IsFusion, entries_of,
  candidates-Placed,
}

module _ (scores : Scores) {P : Type 0} where
  open scores use {Score, zero_score, above, above_asymm, above_cotrans, is_finite}

  pub fused_before-asymm :
      (a b : Fused Score P) → fused_before scores a b ≡ true → fused_before scores b a ≡ false
  unfolding fused_before
  fused_before-asymm a b h =
      ground (arith, above_asymm a.score b.score, text_before_asymm a.chunk_id b.chunk_id)

  pub fused_before-cotrans :
      (a b c : Fused Score P)
      → fused_before scores a c ≡ true
      → (fused_before scores a b ≡ true) ⊎ (fused_before scores b c ≡ true)
  unfolding fused_before
  fused_before-cotrans a b c h = ground (
    arith,
    above_asymm a.score c.score,
    above_cotrans a.score b.score c.score,
    above_cotrans b.score a.score c.score,
    above_cotrans c.score b.score a.score,
    above_cotrans c.score a.score b.score,
    above_cotrans a.score c.score b.score,
    above_cotrans b.score c.score a.score,
    text_before_cotrans a.chunk_id b.chunk_id c.chunk_id,
  )

  pub entries-AreEntries :
      (k : ℕ) (cs : List (RankedChunk Score P))
      → All (IsCandidate scores) cs
      → AreEntries scores (chunks_of cs) (entries_of scores k cs)
  entries-AreEntries k cs a =
      note_all-AreEntries scores (chunks_of cs) k (placings cs) [] (candidates-Placed scores cs a)
        (record { different_chunks = tt; each = tt })

  -- The score of an entry is its chunk's.
  entry-rrf_score :
      (k : ℕ) (cs : List (RankedChunk Score P)) (e : Fused Score P)
      → All (IsCandidate scores) cs
      → In e (entries_of scores k cs)
      → e.score ≡ rrf_score scores k cs e.chunk_id
  unfolding find_where
  entry-rrf_score k cs e a i =
      let es : List (Fused Score P) = entries_of scores k cs in
      let w : AreEntries scores (chunks_of cs) es = entries-AreEntries k cs a in
      let at : find_where (has_chunk_id e.chunk_id) es ≡ some e =
        find_where_unique (has_chunk_id e.chunk_id) e es i (eq_refl e.chunk_id) (
          All-map (λ y. same_entry e y ≡ true → y ≡ e)
            (λ y. has_chunk_id e.chunk_id y ≡ true → y ≡ e) es
            (λ y f h. f (=ᵗ_comm e.chunk_id y.chunk_id ∙ h))
            (Unique-In same_entry e es (λ y z. =ᵗ_comm y.chunk_id z.chunk_id) w.different_chunks
              i)) in
      ap (entry_score scores) (sym at) ∙ note_all_score scores k (placings cs) [] e.chunk_id

  -- The ranking that the entries give.
  abbrev pub fusion_of : ℕ → ℕ → List (RankedChunk Score P) → List (RankedChunk Score P)
  fusion_of k top_k cs =
      fused_candidates scores remote_backend 1
        (take top_k (sort_by (fused_before scores) (entries_of scores k cs)))

  abbrev pub top_entries : ℕ → ℕ → List (RankedChunk Score P) → List (Fused Score P)
  top_entries k top_k cs = take top_k (sort_by (fused_before scores) (entries_of scores k cs))

  pub top_entries-AreEntries :
      (k top_k : ℕ) (cs : List (RankedChunk Score P))
      → All (IsCandidate scores) cs
      → AreEntries scores (chunks_of cs) (top_entries k top_k cs)
  top_entries-AreEntries k top_k cs a =
      let w = entries-AreEntries k cs a in
      let sorted : List (Fused Score P) = sort_by (fused_before scores) (entries_of scores k cs) in
      record {
        different_chunks = take-Unique same_entry top_k sorted (
            Unique-sort_by (fused_before scores) same_entry (entries_of scores k cs)
              (λ y z. =ᵗ_comm y.chunk_id z.chunk_id) w.different_chunks);
        each = take-All (IsEntry scores (chunks_of cs)) top_k sorted (
            All-sort_by (fused_before scores) (IsEntry scores (chunks_of cs))
              (entries_of scores k cs) w.each);
      }

  -- An entry of the fusion is of its chunk, with that chunk's score.
  abbrev Scored : ℕ → List (RankedChunk Score P) → Fused Score P → Type 0
  Scored k cs e = In e.chunk (chunks_of cs) × (e.score ≡ rrf_score scores k cs e.chunk.chunk_id)

  entry-Scored :
      (k : ℕ) (cs : List (RankedChunk Score P)) (e : Fused Score P)
      → All (IsCandidate scores) cs
      → In e (entries_of scores k cs)
      → Scored k cs e
  entry-Scored k cs e a i =
      let w : IsEntry scores (chunks_of cs) e =
        All-In (IsEntry scores (chunks_of cs)) e (entries_of scores k cs)
          (entries-AreEntries k cs a).each i in
      (
        w.of_candidate,
        entry-rrf_score k cs e a i ∙ ap (λ id. rrf_score scores k cs id) w.of_its_chunk,
      )

  fusion_of-each-IsScored :
      (k top_k : ℕ) (cs : List (RankedChunk Score P))
      → All (IsCandidate scores) cs
      → All (IsScored scores k cs) (fusion_of k top_k cs)
  fusion_of-each-IsScored k top_k cs a =
      fused_candidates-All scores (IsScored scores k cs) (Scored k cs) remote_backend 1
        (top_entries k top_k cs) (omega arith) (λ n e h w. w)
        (take-All (Scored k cs) top_k (sort_by (fused_before scores) (entries_of scores k cs)) (
          All-sort_by (fused_before scores) (Scored k cs) (entries_of scores k cs)
            (In-All (Scored k cs) (entries_of scores k cs) (λ e i. entry-Scored k cs e a i))))

  any-placings :
      (cs : List (RankedChunk Score P)) (c : RankedChunk Score P)
      → In c cs
      → any (λ p. p.1.chunk_id =ᵗ c.chunk.chunk_id) (placings cs) ≡ true
  any-placings [] c i = absurd i
  any-placings (x ∷ cs) c (inl e) = rw (ap (λ d. d.chunk.chunk_id) e, eq_refl x.chunk.chunk_id) refl
  any-placings (x ∷ cs) c (inr i) = let rest = any-placings cs c i in ground arith

  -- The entry of a candidate's chunk.
  candidate-entry :
      (k : ℕ) (cs : List (RankedChunk Score P)) (c : RankedChunk Score P)
      → In c cs
      → (e : Fused Score P) × In e (entries_of scores k cs)
        × (has_chunk_id c.chunk.chunk_id e ≡ true)
  candidate-entry k cs c i =
      any_witness (has_chunk_id c.chunk.chunk_id) (entries_of scores k cs)
        (any-note_all scores k (placings cs) [] c.chunk.chunk_id ∙ any-placings cs c i)

  fusion_of-IsPlaced :
      (k top_k : ℕ) (cs : List (RankedChunk Score P)) (c : RankedChunk Score P)
      → All (IsCandidate scores) cs
      → In c cs
      → IsPlaced scores k top_k cs (fusion_of k top_k cs) c
  fusion_of-IsPlaced k top_k cs c a i =
      let (e, at, same) = candidate-entry k cs c i in
      let id : e.chunk_id ≡ c.chunk.chunk_id = (eq_iff e.chunk_id c.chunk.chunk_id).0 same in
      let sorted : List (Fused Score P) = sort_by (fused_before scores) (entries_of scores k cs) in
      let its : IsEntry scores (chunks_of cs) e =
        All-In (IsEntry scores (chunks_of cs)) e (entries_of scores k cs)
          (entries-AreEntries k cs a).each at in
      elim (taken_or_left (fused_before scores) top_k e sorted
        (sort_by-Ordered (fused_before scores) fused_before-asymm fused_before-cotrans
          (entries_of scores k cs))
        ((In-sort_by (fused_before scores) e (entries_of scores k cs)).1 at)) [
          | inl taken ↦ inl (
              any-fused_candidates scores (λ d. d.chunk_id =ᵗ c.chunk.chunk_id) remote_backend 1
                (top_entries k top_k cs)
              ∙ In-any (λ x. x.chunk.chunk_id =ᵗ c.chunk.chunk_id) e (top_entries k top_k cs) taken
                  (subst (λ j. (j =ᵗ c.chunk.chunk_id) ≡ true) its.of_its_chunk same))
          | inr (full, below) ↦ inr (
            length-fused_candidates scores remote_backend 1 (top_entries k top_k cs) ∙ full,
            fused_candidates-All scores
                (λ d. above (rrf_score scores k cs c.chunk.chunk_id) d.score ≡ false)
                (λ x. fused_before scores e x ≡ false) remote_backend 1 (top_entries k top_k cs)
                (omega arith)
                (λ n x h not_before.
                  subst (λ s. above s x.score ≡ false)
                    (entry-rrf_score k cs e a at ∙ ap (λ j. rrf_score scores k cs j) id)
                    (not_before-not_above scores e x not_before))
                below,
          )
        ]

  pub fusion_of-IsFusion :
      (k top_k : ℕ) (cs : List (RankedChunk Score P))
      → All (IsCandidate scores) cs
      → IsFusion scores k top_k cs (fusion_of k top_k cs)
  fusion_of-IsFusion k top_k cs a = record {
    is_ranking =
        validate_ranking-fused scores (chunks_of cs) remote_backend (top_entries k top_k cs)
          (top_entries-AreEntries k top_k cs a);
    at_most_top_k =
        subst (λ n. n ≤ top_k)
          (sym (length-fused_candidates scores remote_backend 1 (top_entries k top_k cs)))
          (length-take top_k (sort_by (fused_before scores) (entries_of scores k cs)));
    best_first =
        Ordered-fused_candidates scores remote_backend 1 (top_entries k top_k cs) (omega arith) (
          take-Ordered (fused_before scores) top_k
            (sort_by (fused_before scores) (entries_of scores k cs))
            (sort_by-Ordered (fused_before scores) fused_before-asymm fused_before-cotrans
              (entries_of scores k cs)));
    each_scored = fusion_of-each-IsScored k top_k cs a;
    each_placed =
        In-All (IsPlaced scores k top_k cs (fusion_of k top_k cs)) cs
          (λ c i. fusion_of-IsPlaced k top_k cs c a i);
  }
