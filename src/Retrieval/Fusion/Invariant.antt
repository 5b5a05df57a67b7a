-- ===== src/Retrieval/Fusion/Invariant.antt =====
-- What the loops of a fusion keep: the entries are of different chunks, each of a candidate.
use zhiyan_personal_academic.Prelude.{
  refl, [], ◌∷◌, ◌≡◌, ◌⊎◌, inl, inr, Bool, true, false, ℕ, ◌+◌, ◌≤◌, List, none, some, String, All,
  any, In, Unique, subst, arith, ◌++◌, ◌||◌, Bool-cases, ◌∙◌, find_where, Option-cases, ◌=ᵗ◌,
  All-append, update_where, Unique-snoc, Unique-update_where, any-update_where, =ᵗ_comm,
  update_where-All', eq_iff,
}
use mathlib.Core.Path.{fun_ext}
use zhiyan_personal_academic.Retrieval.Results.{Chunk}
use zhiyan_personal_academic.Retrieval.Fusion.{Scores, Fused, note, has_chunk_id}
use zhiyan_personal_academic.Retrieval.Fusion.Entries.{new, update, note_all}
use zhiyan_personal_academic.Prelude.{any-snoc}

abbrev pub same_entry : {S P : Type 0} → Fused S P → Fused S P → Bool
same_entry a b = a.chunk_id =ᵗ b.chunk_id

-- A place in a ranking: a rank, from 1 on, and one of the chunks.
abbrev pub Placed : {P : Type 0} → List (Chunk P) → (ℕ × Chunk P) → Type 0
Placed chunks p = (1 ≤ p.0) × In p.1 chunks

module _ (scores : Scores) {P : Type 0} where
  open scores use {Score, zero_score, plus, reciprocal, is_finite, plus_is_finite, zero_is_finite}

  -- An entry is of its chunk, which is one of the candidates, with a finite score.
  pub record IsEntry (chunks : List (Chunk P)) (e : Fused Score P) : Type 0 where
    pub of_its_chunk : e.chunk_id ≡ e.chunk.chunk_id
    pub finite_score : is_finite e.score ≡ true
    pub of_candidate : In e.chunk chunks

  pub record AreEntries (chunks : List (Chunk P)) (es : List (Fused Score P)) : Type 0 where
    pub different_chunks : Unique same_entry es
    pub each : All (IsEntry chunks) es

  find_where-none-any :
      (p : Fused Score P → Bool) (es : List (Fused Score P))
      → find_where p es ≡ none
      → any p es ≡ false
  unfolding find_where
  find_where-none-any p [] h = refl
  find_where-none-any p (e ∷ es) h = ground (arith, find_where-none-any p es)

  find_where-some-any :
      (p : Fused Score P → Bool) (es : List (Fused Score P)) (e : Fused Score P)
      → find_where p es ≡ some e
      → any p es ≡ true
  unfolding find_where
  find_where-some-any p [] e h = cc
  find_where-some-any p (x ∷ es) e h = ground (arith, find_where-some-any p es e)

  -- An entry is added at the end, or the entry of the chunk is updated.
  pub note-cases :
      (k r : ℕ) (c : Chunk P) (es : List (Fused Score P))
      → ((any (has_chunk_id c.chunk_id) es ≡ false)
          × (note scores k r c es ≡ es ++ new scores k r c ∷ []))
        ⊎ ((any (has_chunk_id c.chunk_id) es ≡ true)
            × (note scores k r c es
                ≡ update_where (has_chunk_id c.chunk_id) (update scores k r c) es))
  unfolding note
  note-cases k r c es = elim (Option-cases (find_where (has_chunk_id c.chunk_id) es)) [
    | inl absent ↦ inl (find_where-none-any (has_chunk_id c.chunk_id) es absent, rw absent refl)
    | inr (e, there) ↦ inr (find_where-some-any (has_chunk_id c.chunk_id) es e there, rw there refl)
  ]

  note-Unique :
      (k r : ℕ) (c : Chunk P) (es : List (Fused Score P))
      → Unique same_entry es
      → Unique same_entry (note scores k r c es)
  note-Unique k r c es u = elim (note-cases k r c es) [
    | inl (absent, e) ↦ rw e (
        Unique-snoc same_entry es (new scores k r c) (λ y z. =ᵗ_comm y.chunk_id z.chunk_id)
          (subst (λ q. any q es ≡ false) (fun_ext (λ y. =ᵗ_comm y.chunk_id c.chunk_id)) absent) u)
    | inr (there, e) ↦ rw e (
        Unique-update_where same_entry (has_chunk_id c.chunk_id) (update scores k r c) es
          (λ x y. refl) (λ x y. refl) u)
  ]

  note-each :
      (chunks : List (Chunk P)) (k r : ℕ) (c : Chunk P) (es : List (Fused Score P))
      → 1 ≤ r
      → In c chunks
      → All (IsEntry chunks) es
      → All (IsEntry chunks) (note scores k r c es)
  note-each chunks k r c es h i a = elim (note-cases k r c es) [
    | inl (absent, e) ↦ rw e (
        All-append (IsEntry chunks) es (new scores k r c ∷ []) a (
          record {
            of_its_chunk = refl;
            finite_score = plus_is_finite zero_score (k + r) (omega arith) zero_is_finite;
            of_candidate = i;
          },
          tt,
        ))
    | inr (there, e) ↦ rw e (
        update_where-All' (IsEntry chunks) (IsEntry chunks) (has_chunk_id c.chunk_id)
          (update scores k r c) es
          (λ x same w. record {
            of_its_chunk = (eq_iff x.chunk_id c.chunk_id).0 same;
            finite_score = plus_is_finite x.score (k + r) (omega arith) w.finite_score;
            of_candidate = i;
          })
          (λ x other w. w) a)
  ]

  pub any-note :
      (k r : ℕ) (c : Chunk P) (es : List (Fused Score P)) (id : String)
      → any (has_chunk_id id) (note scores k r c es)
        ≡ (any (has_chunk_id id) es || c.chunk_id =ᵗ id)
  any-note k r c es id = elim (note-cases k r c es) [
    | inl (absent, e) ↦ rw e (any-snoc (has_chunk_id id) es (new scores k r c))
    | inr (there, e) ↦
        rw
          (
            e,
            any-update_where (has_chunk_id c.chunk_id) (has_chunk_id id) (update scores k r c) es
                (λ y. refl),
          )
          (elim (Bool-cases (c.chunk_id =ᵗ id)) [
            | inl same ↦
                let there' : any (has_chunk_id id) es ≡ true =
                  subst (λ i. any (has_chunk_id i) es ≡ true) ((eq_iff c.chunk_id id).0 same)
                    there in
                rw there' refl
            | inr other ↦ ground arith
          ])
  ]

  pub note_all-AreEntries :
      (chunks : List (Chunk P)) (k : ℕ) (ps : List (ℕ × Chunk P)) (es : List (Fused Score P))
      → All (Placed chunks) ps
      → AreEntries chunks es
      → AreEntries chunks (note_all scores k ps es)
  unfolding note_all
  note_all-AreEntries chunks k [] es a w = w
  note_all-AreEntries chunks k ((r, c) ∷ ps) es a w =
      note_all-AreEntries chunks k ps (note scores k r c es) a.1 (record {
        different_chunks = note-Unique k r c es w.different_chunks;
        each = note-each chunks k r c es a.0.0 a.0.1 w.each;
      })

  pub any-note_all :
      (k : ℕ) (ps : List (ℕ × Chunk P)) (es : List (Fused Score P)) (id : String)
      → any (has_chunk_id id) (note_all scores k ps es)
        ≡ (any (has_chunk_id id) es || any (λ p. p.1.chunk_id =ᵗ id) ps)
  unfolding note_all
  any-note_all k [] es id = ground arith
  any-note_all k ((r, c) ∷ ps) es id =
      any-note_all k ps (note scores k r c es) id ∙ rw (any-note k r c es id) (ground arith)
