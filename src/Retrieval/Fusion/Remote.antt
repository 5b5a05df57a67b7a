-- ===== src/Retrieval/Fusion/Remote.antt =====
-- `RemoteRrfHybridRetriever.search` over two rankings: what it answers.
use zhiyan_personal_academic.Prelude.{
  refl, [], ◌∷◌, ◌≡◌, ◌⊎◌, inl, inr, Bool, ℕ, List, ◌++◌, Bool-cases, ap, In, All, true, false,
  Option-cases, find_where, find_where-All, eq_iff, find_where_sound, sym, ◌∙◌, none, subst, all,
  not, ◌=ᵗ◌, ◌||◌, arith,
}
use zhiyan_personal_academic.Retrieval.Results.{Chunk, RankedChunk}
use zhiyan_personal_academic.Retrieval.Fusion.{
  Scores, Fused, found, failed, payloads_disagree, note_candidates, note, disagrees, has_chunk_id,
  fuse_remote, is_same_chunk, own_backend_error,
}
use zhiyan_personal_academic.Retrieval.Fusion.Entries.{note_all}
use zhiyan_personal_academic.Retrieval.Fusion.Contract.{
  placings, chunks_of, IsCandidate, entries_of, IsFusion, candidates-Placed, candidates-IsNamed,
}
use zhiyan_personal_academic.Retrieval.Fusion.Invariant.{
  IsEntry, Placed, AreEntries, note_all-AreEntries,
}
use zhiyan_personal_academic.Retrieval.Fusion.Ranked.{
  fusion_of, fusion_of-IsFusion, top_entries, top_entries-AreEntries,
}
use zhiyan_personal_academic.Prelude.{All-left, All-right, all-In}
use zhiyan_personal_academic.Retrieval.Fusion.Candidates.{first_error-fused}

-- Chunks of one identity are equal.
abbrev pub Agree : {P : Type 0} → (P → P → Bool) → List (Chunk P) → Type 0
Agree {P = P} same chunks =
    (c d : Chunk P)
    → In c chunks
    → In d chunks
    → c.chunk_id ≡ d.chunk_id
    → is_same_chunk same c d ≡ true

-- That, as a test.
abbrev pub agree : {P : Type 0} → (P → P → Bool) → List (Chunk P) → Bool
agree same chunks =
    all (λ c. all (λ d. not (c.chunk_id =ᵗ d.chunk_id) || is_same_chunk same c d) chunks) chunks

agree-Agree :
    {P : Type 0} (same : P → P → Bool) (chunks : List (Chunk P))
    → agree same chunks ≡ true
    → Agree same chunks
agree-Agree same chunks h c d i j id =
    let with_c =
      all-In (λ x. all (λ y. not (x.chunk_id =ᵗ y.chunk_id) || is_same_chunk same x y) chunks) c
        chunks h i in
    let with_d =
      all-In (λ y. not (c.chunk_id =ᵗ y.chunk_id) || is_same_chunk same c y) d chunks with_c j in
    let same_id : (c.chunk_id =ᵗ d.chunk_id) ≡ true = (eq_iff c.chunk_id d.chunk_id).1 id in
    ground arith

module _ (scores : Scores) {P : Type 0} where
  open scores use {Score, zero_score, above, above_asymm, above_cotrans, is_finite}

  -- The loop over a ranking disagrees on a payload, or notes every candidate.
  note_candidates-cases :
      (same : P → P → Bool) (k : ℕ) (cs : List (RankedChunk Score P)) (es : List (Fused Score P))
      → (note_candidates scores same k cs es ≡ failed payloads_disagree)
        ⊎ (note_candidates scores same k cs es ≡ found (note_all scores k (placings cs) es))
  unfolding note_candidates note_all
  note_candidates-cases same k [] es = inr refl
  note_candidates-cases same k (c ∷ cs) es = elim (Bool-cases (disagrees scores same c.chunk es)) [
    | inl bad ↦ inl (rw bad refl)
    | inr good ↦ rw good (note_candidates-cases same k cs (note scores k c.rank c.chunk es))
  ]

  pub note_all-append :
      (k : ℕ) (ps qs : List (ℕ × Chunk P)) (es : List (Fused Score P))
      → note_all scores k qs (note_all scores k ps es) ≡ note_all scores k (ps ++ qs) es
  unfolding note_all
  note_all-append k [] qs es = refl
  note_all-append k (p ∷ ps) qs es = note_all-append k ps qs (note scores k p.0 p.1 es)

  pub placings-append :
      (cs ds : List (RankedChunk Score P)) → placings (cs ++ ds) ≡ placings cs ++ placings ds
  placings-append [] ds = refl
  placings-append (c ∷ cs) ds = ap (λ ps. (c.rank, c.chunk) ∷ ps) (placings-append cs ds)

  Agree-disagrees :
      (same : P → P → Bool) (chunks : List (Chunk P)) (c : Chunk P) (es : List (Fused Score P))
      → Agree same chunks
      → In c chunks
      → All (IsEntry scores chunks) es
      → disagrees scores same c es ≡ false
  unfolding disagrees
  Agree-disagrees same chunks c es agree i a =
      elim (Option-cases (find_where (has_chunk_id c.chunk_id) es)) [
        | inl absent ↦ rw absent refl
        | inr (e, there) ↦
            let w : IsEntry scores chunks e =
              find_where-All (IsEntry scores chunks) (has_chunk_id c.chunk_id) es e there a in
            let id : e.chunk_id ≡ c.chunk_id =
              (eq_iff e.chunk_id c.chunk_id).0
                (find_where_sound (has_chunk_id c.chunk_id) es e there) in
            rw (there, agree e.chunk c w.of_candidate i (sym w.of_its_chunk ∙ id)) refl
      ]

  note_candidates-found :
      (same : P → P → Bool) (k : ℕ) (chunks : List (Chunk P)) (cs : List (RankedChunk Score P))
      → (es : List (Fused Score P)) → Agree same chunks
      → All (Placed chunks) (placings cs)
      → AreEntries scores chunks es
      → note_candidates scores same k cs es ≡ found (note_all scores k (placings cs) es)
  unfolding note_candidates note_all
  note_candidates-found same k chunks [] es agree a w = refl
  note_candidates-found same k chunks (c ∷ cs) es agree a w =
      rw (Agree-disagrees same chunks c.chunk es agree a.0.1 w.each) (
        note_candidates-found same k chunks cs (note scores k c.rank c.chunk es) agree a.1
          (note_all-AreEntries scores chunks k ((c.rank, c.chunk) ∷ []) es (a.0, tt) w))

  -- The two loops.
  both_loops :
      (same : P → P → Bool) (k : ℕ) (cs ds : List (RankedChunk Score P))
      → Agree same (chunks_of (cs ++ ds))
      → All (IsCandidate scores) (cs ++ ds)
      → (note_candidates scores same k cs [] ≡ found (entries_of scores k cs))
        × (note_candidates scores same k ds (entries_of scores k cs)
            ≡ found (note_all scores k (placings ds) (entries_of scores k cs)))
  both_loops same k cs ds agree a =
      let chunks : List (Chunk P) = chunks_of (cs ++ ds) in
      let placed : All (Placed chunks) (placings cs ++ placings ds) =
        subst (All (Placed chunks)) (placings-append cs ds)
          (candidates-Placed scores (cs ++ ds) a) in
      let first : All (Placed chunks) (placings cs) =
        All-left (Placed chunks) (placings cs) (placings ds) placed in
      let w : AreEntries scores chunks (entries_of scores k cs) =
        note_all-AreEntries scores chunks k (placings cs) [] first
          (record { different_chunks = tt; each = tt }) in
      (
        note_candidates-found same k chunks cs [] agree first
            (record { different_chunks = tt; each = tt }),
        note_candidates-found same k chunks ds (entries_of scores k cs) agree
            (All-right (Placed chunks) (placings cs) (placings ds) placed) w,
      )

  -- The search, after its two loops.
  ran :
      (same : P → P → Bool) (k top_k : ℕ) (cs ds : List (RankedChunk Score P))
      → All (IsCandidate scores) (cs ++ ds)
      → own_backend_error scores cs ≡ none
      → own_backend_error scores ds ≡ none
      → note_candidates scores same k cs [] ≡ found (entries_of scores k cs)
      → note_candidates scores same k ds (entries_of scores k cs)
        ≡ found (note_all scores k (placings ds) (entries_of scores k cs))
      → fuse_remote scores same k top_k cs ds ≡ found (fusion_of scores k top_k (cs ++ ds))
  unfolding fuse_remote
  ran same k top_k cs ds a hl hv first second =
      let all_cs : List (RankedChunk Score P) = cs ++ ds in
      let its : IsFusion scores k top_k all_cs (fusion_of scores k top_k all_cs) =
        fusion_of-IsFusion scores k top_k all_cs a in
      let made =
        first_error-fused scores (chunks_of all_cs) (top_entries scores k top_k all_cs)
          (candidates-IsNamed scores all_cs a)
          (top_entries-AreEntries scores k top_k all_cs a).each in
      let joined =
        note_all-append k (placings cs) (placings ds) []
        ∙ ap (λ ps. note_all scores k ps []) (sym (placings-append cs ds)) in
      rw (hl, hv, first, second, joined, made, its.is_ranking) refl

  pub fuse_remote-fusion_of :
      (same : P → P → Bool) (k top_k : ℕ) (lexical vector : List (RankedChunk Score P))
      → All (IsCandidate scores) (lexical ++ vector)
      → own_backend_error scores lexical ≡ none
      → own_backend_error scores vector ≡ none
      → agree same (chunks_of (lexical ++ vector)) ≡ true
      → fuse_remote scores same k top_k lexical vector
        ≡ found (fusion_of scores k top_k (lexical ++ vector))
  fuse_remote-fusion_of same k top_k lexical vector a hl hv agreeing =
      let (first, second) =
        both_loops same k lexical vector (agree-Agree same (chunks_of (lexical ++ vector)) agreeing)
          a in
      ran same k top_k lexical vector a hl hv first second

  -- Two rankings of valid candidates, each valid for the backend of its first one, in which chunks of
  -- one identity are equal, are fused: the answer is a valid ranking of the fusion's backend, of at
  -- most top_k candidates with scores that do not increase. Each is of a chunk of the two rankings,
  -- with the sum of the reciprocals of that chunk's places in them as its score, and a chunk of the
  -- two rankings is left out only if the answer has top_k candidates, of which none scores less.
  pub fuse_remote-IsFusion :
      (same : P → P → Bool) (k top_k : ℕ) (lexical vector : List (RankedChunk Score P))
      → All (IsCandidate scores) (lexical ++ vector)
      → own_backend_error scores lexical ≡ none
      → own_backend_error scores vector ≡ none
      → agree same (chunks_of (lexical ++ vector)) ≡ true
      → (r : List (RankedChunk Score P)) × (fuse_remote scores same k top_k lexical vector
          ≡ found r)
        × IsFusion scores k top_k (lexical ++ vector) r
  fuse_remote-IsFusion same k top_k lexical vector a hl hv agreeing = (
    fusion_of scores k top_k (lexical ++ vector),
    fuse_remote-fusion_of same k top_k lexical vector a hl hv agreeing,
    fusion_of-IsFusion scores k top_k (lexical ++ vector) a,
  )

  -- Two rankings of valid candidates, each valid for the backend of its first one, are fused as the
  -- scores of their chunks say, or the search raises the error that payloads disagree: it raises no
  -- other, also none of the checks of the candidates and the ranking that it makes.
  pub fuse_remote-cases :
      (same : P → P → Bool) (k top_k : ℕ) (lexical vector : List (RankedChunk Score P))
      → All (IsCandidate scores) (lexical ++ vector)
      → own_backend_error scores lexical ≡ none
      → own_backend_error scores vector ≡ none
      → (fuse_remote scores same k top_k lexical vector ≡ failed payloads_disagree)
        ⊎ ((r : List (RankedChunk Score P)) × (fuse_remote scores same k top_k lexical vector
              ≡ found r)
            × IsFusion scores k top_k (lexical ++ vector) r)
  unfolding fuse_remote
  fuse_remote-cases same k top_k lexical vector a hl hv =
      elim (note_candidates-cases same k lexical []) [
        | inl bad ↦ inl (rw (hl, hv, bad) refl)
        | inr first ↦ elim (note_candidates-cases same k vector (entries_of scores k lexical)) [
          | inl bad ↦ inl (rw (hl, hv, first, bad) refl)
          | inr second ↦ inr (
            fusion_of scores k top_k (lexical ++ vector),
            ran same k top_k lexical vector a hl hv first second,
            fusion_of-IsFusion scores k top_k (lexical ++ vector) a,
          )
        ]
      ]
