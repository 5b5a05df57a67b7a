-- ===== src/Retrieval/Coverage/Covered.antt =====
-- The first candidate of every route is in the selection.
use zhiyan_personal_academic.Prelude.{
  refl, [], ◌∷◌, ◌≡◌, inl, inr, sym, ap, subst, ◌∙◌, true, false, Bool, ℕ, String, List, Option,
  none, some, map, all, All, In, length, arith, Bool-cases, Option-cases, contains, find_where,
  select_where, find_where-In, ◌=ᵗ◌, map_option, eq_refl, if◌then◌else◌, leb, found_where,
  some-cancel,
}
use zhiyan_personal_academic.Retrieval.Results.{RankedChunk, candidate_id}
use zhiyan_personal_academic.Retrieval.Coverage.Plan.{
  candidate_route, first_by_route, set_default, add_name, name_set, fill, selection,
}
use zhiyan_personal_academic.Retrieval.Coverage.Names.{
  first_of, first_of-none, has_route, set_default-find, contains-add_name, contains-name_set,
  keys_any, values-contain,
}

module _ {S P : Type 0} where
  abbrev entry_of : RankedChunk S P → String × String
  entry_of c = (candidate_route c, candidate_id c)

  abbrev pub is_of_route : String → RankedChunk S P → Bool
  is_of_route r c = candidate_route c =ᵗ r

  first_of_step :
      (o : Option (String × String)) (b : Bool) (c : RankedChunk S P)
      (later : Option (RankedChunk S P))
      → first_of (first_of o (if b then some (entry_of c) else none)) (map_option entry_of later)
        ≡ first_of o (map_option entry_of (if b then some c else later))
  first_of_step (some e) b c later = refl
  first_of_step none true c later = refl
  first_of_step none false c later = refl

  -- A route's entry is that of its first candidate.
  first_by_route-find :
      (r : String) (cs : List (RankedChunk S P)) (es : List (String × String))
      → find_where (has_route r) (first_by_route cs es)
        ≡ first_of
            (find_where (has_route r) es)
            (map_option entry_of (find_where (is_of_route r) cs))
  unfolding first_by_route find_where
  first_by_route-find r [] es = sym (first_of-none (find_where (has_route r) es))
  first_by_route-find r (c ∷ cs) es =
      first_by_route-find r cs (set_default (candidate_route c) (candidate_id c) es)
      ∙ rw (set_default-find (candidate_route c) (candidate_id c) r es) (
          first_of_step (find_where (has_route r) es) (candidate_route c =ᵗ r) c
            (find_where (is_of_route r) cs))

  -- The first candidate of a route, and its place in the selection.
  abbrev pub IsCovered : List (RankedChunk S P) → List String → String → Type 0
  IsCovered candidates ids r =
      (c : RankedChunk S P) × (find_where (is_of_route r) candidates ≡ some c)
      × (contains ids (candidate_id c) ≡ true)

  fill-keeps :
      (n : String) (k : ℕ) (cs : List (RankedChunk S P)) (names : List String)
      → contains names n ≡ true
      → contains (fill k cs names) n ≡ true
  unfolding fill
  fill-keeps n k [] names h = h
  fill-keeps n k (c ∷ cs) names h = elim (Bool-cases (leb k (length names))) [
    | inl full ↦ rw full h
    | inr room ↦ rw room (
        fill-keeps n k cs (add_name (candidate_id c) names)
          (contains-add_name n (candidate_id c) names h))
  ]

  selected-contains :
      (p : RankedChunk S P → Bool) (c : RankedChunk S P) (cs : List (RankedChunk S P))
      → In c cs
      → p c ≡ true
      → contains (map candidate_id (select_where p cs)) (candidate_id c) ≡ true
  unfolding select_where
  selected-contains p c [] i h = absurd i
  selected-contains p c (d ∷ cs) (inl e) h =
      let hit : p d ≡ true = subst (λ x. p x ≡ true) e h in
      rw (hit, ap (λ x. candidate_id x) e, eq_refl (candidate_id d)) refl
  selected-contains p c (d ∷ cs) (inr i) h =
      let rest = selected-contains p c cs i h in
      elim (Bool-cases (p d)) [ inl hit ↦ rw hit (ground arith) | inr miss ↦ rw miss rest ]

  -- A route with an entry has its first candidate in the selection.
  selection-IsCovered :
      (k : ℕ) (candidates : List (RankedChunk S P)) (r : String)
      → contains (map (λ e. e.0) (first_by_route candidates [])) r ≡ true
      → IsCovered candidates (selection k candidates) r
  unfolding selection find_where
  selection-IsCovered k candidates r h =
      let es : List (String × String) = first_by_route candidates [] in
      let (e, at) = found_where (has_route r) es (sym (keys_any r es) ∙ h) in
      elim (Option-cases (find_where (is_of_route r) candidates)) [
        | inl missing ↦
            let none_at : find_where (has_route r) es ≡ none =
              first_by_route-find r candidates [] ∙ ap (map_option entry_of) missing in
            absurd (cc)
        | inr (c, first) ↦
            let its : e ≡ entry_of c =
              some-cancel
                (sym at ∙ first_by_route-find r candidates [] ∙ ap (map_option entry_of) first) in
            let value : contains (map (λ x. x.1) es) (candidate_id c) ≡ true =
              subst (λ x. contains (map (λ y. y.1) es) x.1 ≡ true) its
                (values-contain e es (find_where-In (has_route r) e es at)) in
            let names : List String = name_set (map (λ x. x.1) es) [] in
            let kept : contains (fill k candidates names) (candidate_id c) ≡ true =
              fill-keeps (candidate_id c) k candidates names
                (contains-name_set (candidate_id c) (map (λ x. x.1) es) [] value) in
            (
              c,
              first,
              selected-contains (λ d. contains (fill k candidates names) (candidate_id d)) c
                  candidates (find_where-In (is_of_route r) c candidates first) kept,
            )
      ]

  pub selection_kept :
      (k : ℕ) (candidates : List (RankedChunk S P))
      → selection k candidates
        ≡ map candidate_id (
            select_where
              (λ c.
                contains
                  (fill k candidates (name_set (map (λ e. e.1) (first_by_route candidates [])) []))
                  (candidate_id c))
              candidates)
  unfolding selection
  selection_kept k candidates = refl

  pub routes-IsCovered :
      (k : ℕ) (candidates : List (RankedChunk S P)) (keys routes : List String)
      → keys ≡ map (λ e. e.0) (first_by_route candidates [])
      → all (contains keys) routes ≡ true
      → All (IsCovered candidates (selection k candidates)) routes
  routes-IsCovered k candidates keys [] e h = tt
  routes-IsCovered k candidates keys (r ∷ routes) e h = (
    selection-IsCovered k candidates r (subst (λ ks. contains ks r ≡ true) e (ground arith)),
    routes-IsCovered k candidates keys routes e (ground arith),
  )
