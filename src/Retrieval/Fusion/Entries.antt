-- ===== src/Retrieval/Fusion/Entries.antt =====
-- What the entries of a fusion hold: for each chunk the sum of its reciprocal ranks.
use zhiyan_personal_academic.Retrieval.Fusion.{
  Scores, Option, String, ℕ, find_where, note, Fused, Chunk, List, ◌≡◌, has_chunk_id, some,
  if◌then◌else◌, ◌=ᵗ◌, ◌+◌,
}
use zhiyan_personal_academic.Prelude.{
  refl, find_where, none, Option-cases, inl, Bool, inr, ◌++◌, ◌∷◌, [], ◌∙◌, arith, ap, Bool-cases,
  false, subst, eq_iff, sym, update_where, min, find_where-update_hit, find_where_sound, true,
  find_where-update_miss,
}

module _ (scores : Scores) {P : Type 0} where
  open scores use {Score, zero_score, plus, reciprocal}

  -- `scores.get(chunk_id, 0.0)`.
  abbrev pub entry_score : Option (Fused Score P) → Score
  entry_score none = zero_score
  entry_score (some e) = e.score

  abbrev pub score_of : String → List (Fused Score P) → Score
  score_of id entries = entry_score (find_where (has_chunk_id id) entries)

  abbrev pub new : ℕ → ℕ → Chunk P → Fused Score P
  new k r c = record {
    chunk_id = c.chunk_id;
    chunk = c;
    score = plus zero_score (reciprocal (k + r));
    best_rank = r;
  }

  abbrev pub update : ℕ → ℕ → Chunk P → Fused Score P → Fused Score P
  update k r c e = record e {
    chunk = c;
    score = plus e.score (reciprocal (k + r));
    best_rank = min e.best_rank r;
  }

  find_where-snoc :
      (p : Fused Score P → Bool) (es : List (Fused Score P)) (e : Fused Score P)
      → find_where p es ≡ none
      → find_where p (es ++ e ∷ []) ≡ (if p e then some e else none)
  unfolding find_where
  find_where-snoc p [] e h = refl
  find_where-snoc p (x ∷ es) e h = ground (arith, find_where-snoc p es e)

  find_where-snoc_found :
      (p : Fused Score P → Bool) (es : List (Fused Score P)) (e x : Fused Score P)
      → find_where p es ≡ some x
      → find_where p (es ++ e ∷ []) ≡ some x
  unfolding find_where
  find_where-snoc_found p [] e x h = cc
  find_where-snoc_found p (y ∷ es) e x h = ground (arith, find_where-snoc_found p es e x)

  abbrev GoesUp : ℕ → ℕ → Chunk P → List (Fused Score P) → String → Type 0
  GoesUp k r c es id =
      score_of id (note scores k r c es)
      ≡ (if c.chunk_id =ᵗ id then plus (score_of id es) (reciprocal (k + r)) else score_of id es)

  -- A chunk that has no entry: its entry is added at the end.
  note_score_new :
      (k r : ℕ) (c : Chunk P) (es : List (Fused Score P)) (id : String)
      → find_where (has_chunk_id c.chunk_id) es ≡ none
      → GoesUp k r c es id
  unfolding note
  note_score_new k r c es id absent =
      let added : note scores k r c es ≡ es ++ new k r c ∷ [] = rw absent refl in
      elim (Option-cases (find_where (has_chunk_id id) es)) [
        | inl none_there ↦
            ap (score_of id) added
            ∙ ap entry_score (find_where-snoc (has_chunk_id id) es (new k r c) none_there)
            ∙ (elim (Bool-cases (c.chunk_id =ᵗ id)) [
              | inl same ↦ rw (same, none_there) refl
              | inr other ↦ rw (other, none_there) refl
            ])
        | inr (x, there) ↦
            let other : (c.chunk_id =ᵗ id) ≡ false = elim (Bool-cases (c.chunk_id =ᵗ id)) [
              | inl same ↦
                  let at : find_where (has_chunk_id id) es ≡ none =
                    subst (λ i. find_where (has_chunk_id i) es ≡ none)
                      ((eq_iff c.chunk_id id).0 same) absent in
                  cc
              | inr o ↦ o
            ] in
            ap (score_of id) added
            ∙ ap entry_score
                (find_where-snoc_found (has_chunk_id id) es (new k r c) x there ∙ sym there)
            ∙ rw other refl
      ]

  -- A chunk that has one: it is updated.
  note_score_there :
      (k r : ℕ) (c : Chunk P) (es : List (Fused Score P)) (id : String) (e : Fused Score P)
      → find_where (has_chunk_id c.chunk_id) es ≡ some e
      → GoesUp k r c es id
  unfolding note
  note_score_there k r c es id e there =
      let raise : Fused Score P → Fused Score P = update k r c in
      let raised : note scores k r c es ≡ update_where (has_chunk_id c.chunk_id) raise es =
        rw there refl in
      elim (Bool-cases (c.chunk_id =ᵗ id)) [
        | inl same ↦
            let at : find_where (has_chunk_id id) es ≡ some e =
              subst (λ i. find_where (has_chunk_id i) es ≡ some e) ((eq_iff c.chunk_id id).0 same)
                there in
            ap (score_of id) raised
            ∙ ap entry_score (
                find_where-update_hit (has_chunk_id c.chunk_id) (has_chunk_id id) raise es e
                  (λ y. refl) at (find_where_sound (has_chunk_id c.chunk_id) es e there))
            ∙ rw (same, at) refl
        | inr other ↦
            let apart : (y : Fused Score P)
                → has_chunk_id c.chunk_id y ≡ true
                → has_chunk_id id y ≡ false =
              λ y h.
                subst (λ i. (i =ᵗ id) ≡ false) (sym ((eq_iff y.chunk_id c.chunk_id).0 h)) other in
            ap (score_of id) raised
            ∙ ap entry_score (
                find_where-update_miss (has_chunk_id c.chunk_id) (has_chunk_id id) raise es
                  (λ y. refl) apart)
            ∙ rw other refl
      ]

  note_score :
      (k r : ℕ) (c : Chunk P) (es : List (Fused Score P)) (id : String) → GoesUp k r c es id
  note_score k r c es id = elim (Option-cases (find_where (has_chunk_id c.chunk_id) es)) [
    | inl absent ↦ note_score_new k r c es id absent
    | inr (e, there) ↦ note_score_there k r c es id e there
  ]

  -- The candidates of the rankings, in the order of the loops: rank and chunk.
  unfoldable pub note_all : ℕ → List (ℕ × Chunk P) → List (Fused Score P) → List (Fused Score P)
  note_all k [] es = es
  note_all k ((r, c) ∷ ps) es = note_all k ps (note scores k r c es)

  -- The score of a chunk, by itself: the sum of `1 / (k + rank)` over its places in the rankings.
  unfoldable pub total : ℕ → String → List (ℕ × Chunk P) → Score → Score
  total k id [] acc = acc
  total k id ((r, c) ∷ ps) acc =
      total k id ps (if c.chunk_id =ᵗ id then plus acc (reciprocal (k + r)) else acc)

  pub note_all_score :
      (k : ℕ) (ps : List (ℕ × Chunk P)) (es : List (Fused Score P)) (id : String)
      → score_of id (note_all k ps es) ≡ total k id ps (score_of id es)
  unfolding note_all total
  note_all_score k [] es id = refl
  note_all_score k ((r, c) ∷ ps) es id =
      note_all_score k ps (note scores k r c es) id ∙ ap (total k id ps) (note_score k r c es id)
