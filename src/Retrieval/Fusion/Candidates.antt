-- ===== src/Retrieval/Fusion/Candidates.antt =====
-- The ranking that a fusion makes of its entries: what `RankedChunk` and `validate_ranking` ask of it.
use zhiyan_personal_academic.Prelude.{
  refl, [], ◌∷◌, ◌≡◌, sym, Bool, true, false, ℕ, ◌+◌, ◌≤◌, List, none, length, String, All, any,
  Unique, subst, arith, ◌∙◌, ◌=ᵗ◌, not, =ᵗ_comm, has_duplicates, contains, map, codes, Ordered, ap,
  All-In, eq_refl, suc,
}
use zhiyan_personal_academic.Retrieval.Results.{
  Chunk, RankedChunk, candidate_error, candidate_id, ranks_from, validate_ranking, matches_backend,
}
use zhiyan_personal_academic.Retrieval.Fusion.{
  Scores, Fused, fused_candidates, first_error, remote_backend, fused_before,
}
use zhiyan_personal_academic.Retrieval.Fusion.Invariant.{same_entry, IsEntry, AreEntries}
use zhiyan_personal_academic.Storage.Identifiers.{is_alphanumeric, is_identifier_code}

-- A chunk that names itself and its document.
abbrev pub IsNamed : {P : Type 0} → Chunk P → Type 0
IsNamed c = ((c.chunk_id =ᵗ "") ≡ false) × ((c.document_id =ᵗ "") ≡ false)

remote_backend-matches : matches_backend (codes remote_backend) ≡ true
unfolding matches_backend is_alphanumeric is_identifier_code
remote_backend-matches = refl

module _ (scores : Scores) {P : Type 0} where
  open scores use {Score, is_finite, above, above_asymm}

  abbrev made : String → ℕ → Fused Score P → RankedChunk Score P
  made b rank e = record { backend = b; rank = rank; score = e.score; chunk = e.chunk }

  pub fused_candidates-All {κ μ} :
      (Q : RankedChunk Score P → Type κ) (R : Fused Score P → Type μ) (b : String) (rank : ℕ)
      → (es : List (Fused Score P)) → 1 ≤ rank
      → ((n : ℕ) (e : Fused Score P) → 1 ≤ n → R e → Q (made b n e))
      → All R es
      → All Q (fused_candidates scores b rank es)
  unfolding fused_candidates
  fused_candidates-All Q R b rank [] h f a = tt
  fused_candidates-All Q R b rank (e ∷ es) h f a =
      (f rank e h a.0, fused_candidates-All Q R b (rank + 1) es (omega arith) f a.1)

  pub length-fused_candidates :
      (b : String) (rank : ℕ) (es : List (Fused Score P))
      → length (fused_candidates scores b rank es) ≡ length es
  unfolding fused_candidates
  length-fused_candidates b rank [] = refl
  length-fused_candidates b rank (e ∷ es) = ap suc (length-fused_candidates b (rank + 1) es)

  ranks_from-fused_candidates :
      (b : String) (rank : ℕ) (es : List (Fused Score P))
      → ranks_from rank (fused_candidates scores b rank es) ≡ true
  unfolding fused_candidates ranks_from
  ranks_from-fused_candidates b rank [] = refl
  ranks_from-fused_candidates b rank (e ∷ es) =
      ground (arith, ranks_from-fused_candidates b (rank + 1) es)

  backend-fused_candidates :
      (b : String) (rank : ℕ) (es : List (Fused Score P))
      → any (λ c. not (c.backend =ᵗ b)) (fused_candidates scores b rank es) ≡ false
  unfolding fused_candidates
  backend-fused_candidates b rank [] = refl
  backend-fused_candidates b rank (e ∷ es) =
      rw (eq_refl b) (backend-fused_candidates b (rank + 1) es)

  pub any-fused_candidates :
      (p : Chunk P → Bool) (b : String) (rank : ℕ) (es : List (Fused Score P))
      → any (λ c. p c.chunk) (fused_candidates scores b rank es) ≡ any (λ e. p e.chunk) es
  unfolding fused_candidates
  any-fused_candidates p b rank [] = refl
  any-fused_candidates p b rank (e ∷ es) = rw (any-fused_candidates p b (rank + 1) es) refl

  contains-ids :
      (name : String) (cs : List (RankedChunk Score P))
      → contains (map candidate_id cs) name ≡ any (λ c. c.chunk.chunk_id =ᵗ name) cs
  contains-ids name [] = refl
  contains-ids name (c ∷ cs) = rw (contains-ids name cs) refl

  not_again :
      (chunks : List (Chunk P)) (id : String) (es : List (Fused Score P))
      → All (IsEntry scores chunks) es
      → any (λ y. id =ᵗ y.chunk_id) es ≡ false
      → any (λ e. e.chunk.chunk_id =ᵗ id) es ≡ false
  not_again chunks id [] a h = refl
  not_again chunks id (e ∷ es) a h =
      let here : (e.chunk.chunk_id =ᵗ id) ≡ (id =ᵗ e.chunk_id) =
        =ᵗ_comm e.chunk.chunk_id id ∙ ap (λ i. id =ᵗ i) (sym (a.0).of_its_chunk) in
      rw here (ground (arith, not_again chunks id es a.1))

  no_duplicates :
      (chunks : List (Chunk P)) (b : String) (rank : ℕ) (es : List (Fused Score P))
      → All (IsEntry scores chunks) es
      → Unique same_entry es
      → has_duplicates (map candidate_id (fused_candidates scores b rank es)) ≡ false
  unfolding fused_candidates has_duplicates
  no_duplicates chunks b rank [] a u = refl
  no_duplicates chunks b rank (e ∷ es) a u =
      let rest = no_duplicates chunks b (rank + 1) es a.1 u.1 in
      let fresh : contains (map candidate_id (fused_candidates scores b (rank + 1) es))
            e.chunk.chunk_id
          ≡ false =
        contains-ids e.chunk.chunk_id (fused_candidates scores b (rank + 1) es)
        ∙ any-fused_candidates (λ c. c.chunk_id =ᵗ e.chunk.chunk_id) b (rank + 1) es
        ∙ not_again chunks e.chunk.chunk_id es a.1
            (subst (λ i. any (λ y. i =ᵗ y.chunk_id) es ≡ false) (a.0).of_its_chunk u.0) in
      rw (fresh, rest) refl

  pub validate_ranking-fused :
      (chunks : List (Chunk P)) (b : String) (es : List (Fused Score P))
      → AreEntries scores chunks es
      → validate_ranking b (fused_candidates scores b 1 es) ≡ none
  unfolding validate_ranking
  validate_ranking-fused chunks b es w =
      rw
        (
          ranks_from-fused_candidates b 1 es,
          no_duplicates chunks b 1 es w.each w.different_chunks,
          backend-fused_candidates b 1 es,
        )
        refl

  pub first_error-none :
      (cs : List (RankedChunk Score P))
      → All (λ c. candidate_error is_finite c ≡ none) cs
      → first_error scores cs ≡ none
  unfolding first_error
  first_error-none [] a = refl
  first_error-none (c ∷ cs) a = rw a.0 (first_error-none cs a.1)

  made_candidate :
      (chunks : List (Chunk P)) (n : ℕ) (e : Fused Score P)
      → All IsNamed chunks
      → 1 ≤ n
      → IsEntry scores chunks e
      → candidate_error is_finite (made remote_backend n e) ≡ none
  unfolding candidate_error
  made_candidate chunks n e named h w =
      let its = All-In IsNamed e.chunk chunks named w.of_candidate in
      rw (remote_backend-matches, w.finite_score, its.0, its.1) (ground arith)

  pub first_error-fused :
      (chunks : List (Chunk P)) (es : List (Fused Score P))
      → All IsNamed chunks
      → All (IsEntry scores chunks) es
      → first_error scores (fused_candidates scores remote_backend 1 es) ≡ none
  first_error-fused chunks es named a =
      first_error-none (fused_candidates scores remote_backend 1 es) (
        fused_candidates-All (λ c. candidate_error is_finite c ≡ none) (IsEntry scores chunks)
          remote_backend 1 es (omega arith) (λ n e h w. made_candidate chunks n e named h w) a)

  -- The scores of a ranking do not increase.
  abbrev pub higher : RankedChunk Score P → RankedChunk Score P → Bool
  higher c d = above c.score d.score

  pub not_before-not_above :
      (e x : Fused Score P) → fused_before scores e x ≡ false → above e.score x.score ≡ false
  unfolding fused_before
  not_before-not_above e x h = ground arith

  pub Ordered-fused_candidates :
      (b : String) (rank : ℕ) (es : List (Fused Score P))
      → 1 ≤ rank
      → Ordered (fused_before scores) es
      → Ordered higher (fused_candidates scores b rank es)
  unfolding fused_candidates
  Ordered-fused_candidates b rank [] h o = tt
  Ordered-fused_candidates b rank (e ∷ es) h o = (
    fused_candidates-All (λ c. above c.score e.score ≡ false) (λ y. fused_before scores y e ≡ false)
        b (rank + 1) es (omega arith) (λ n y h k. not_before-not_above y e k) o.0,
    Ordered-fused_candidates b (rank + 1) es (omega arith) o.1,
  )
