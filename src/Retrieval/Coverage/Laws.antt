-- ===== src/Retrieval/Coverage/Laws.antt =====
-- The plan of the candidates to keep: what its selection covers.
use zhiyan_personal_academic.Prelude.{
  refl, [], ◌∷◌, ◌≡◌, ◌⊎◌, inl, inr, ap, true, false, not, Bool, ◌||◌, ℕ, String, List, none, some,
  map, all, All, length, take, arith, contains, has_duplicates, select_where, eq_refl,
  if◌then◌else◌, is_some, ◌==◌, is_blank, ltb,
}
use zhiyan_personal_academic.Retrieval.Results.{RankedChunk, candidate_id}
use zhiyan_personal_academic.Retrieval.Coverage.{Text, CoverageConfig, same_names}
use zhiyan_personal_academic.Retrieval.Coverage.Plan.{
  plan, CoveragePlan, PlanStatus, applied, fallback, disabled, candidate_route, first_by_route,
  name_set, fill, selection, fall_back, finish, PlanFailure, switch_disabled, same_ids,
  route_count_not_two, final_top_k_not_three, comparison_not_proven, candidate_count_insufficient,
  candidate_route_outside_scope, route_candidate_unavailable, selection_cardinality_invalid,
  has_comparison_marker,
}
use zhiyan_personal_academic.Retrieval.Coverage.Covered.{
  IsCovered, selection_kept, routes-IsCovered,
}

abbrev pub is_applied : PlanStatus → Bool
is_applied applied = true
is_applied _ = false

same_ids_refl : (ids : List String) → same_ids ids ids ≡ true
unfolding same_ids
same_ids_refl [] = refl
same_ids_refl (a ∷ ids) = rw (eq_refl a) (same_ids_refl ids)

if_both {κ} :
    {A : Type 0} (Q : A → Type κ) (b : Bool) {x y : A}
    → (b ≡ true → Q x)
    → (b ≡ false → Q y)
    → Q (if b then x else y)
if_both Q true f g = f refl
if_both Q false f g = g refl

module _ {S P : Type 0} where
  -- The candidates that a plan keeps, where it applies: `top_k` of them, in their order, all of the
  -- two routes, with the first candidate of every route.
  pub record Covers (candidates : List (RankedChunk S P)) (route_ids : List String) (top_k : ℕ)
      (ids : List String) : Type 0 where
    pub is_full : length ids ≡ top_k
    pub kept : RankedChunk S P → Bool
    pub in_order : ids ≡ map candidate_id (select_where kept candidates)
    pub in_scope : all (contains route_ids) (map candidate_route candidates) ≡ true
    pub covered : All (IsCovered candidates ids) route_ids

  unfoldable pub AppliesOrKeeps : List (RankedChunk S P) → List String → ℕ → CoveragePlan → Type 0
  AppliesOrKeeps candidates route_ids top_k p =
      ((p.status ≡ applied)
        × (p.failure_code ≡ none)
        × Covers candidates route_ids top_k p.selected_chunk_ids)
      ⊎ ((p.selected_chunk_ids ≡ map candidate_id (take top_k candidates))
          × (is_applied p.status ≡ false)
          × (is_some p.failure_code ≡ true)
          × (p.observation.selection_changed ≡ false))

  keeps :
      (candidates : List (RankedChunk S P)) (route_ids : List String) (top_k : ℕ)
      → (status : PlanStatus) → is_applied status ≡ false
      → (failure : PlanFailure)
      → AppliesOrKeeps candidates route_ids top_k (
          finish route_ids
            (length candidates)
            (map candidate_id (take top_k candidates))
            (map candidate_id (take top_k candidates))
            status
            (some failure))
  unfolding finish AppliesOrKeeps
  keeps candidates route_ids top_k status h failure =
      inr (refl, h, refl, ap not (same_ids_refl (map candidate_id (take top_k candidates))))

  applying :
      (candidates : List (RankedChunk S P)) (route_ids : List String) (top_k : ℕ)
      → all (contains route_ids) (map candidate_route candidates) ≡ true
      → same_names (map (λ e. e.0) (first_by_route candidates [])) route_ids ≡ true
      → (length (selection top_k candidates) == top_k) ≡ true
      → AppliesOrKeeps candidates route_ids top_k (
          finish route_ids
            (length candidates)
            (map candidate_id (take top_k candidates))
            (selection top_k candidates)
            applied
            none)
  unfolding finish AppliesOrKeeps same_names
  applying candidates route_ids top_k inside available full = inl (
    refl,
    refl,
    record {
      is_full = ground arith;
      kept = (λ c.
          contains
            (fill top_k candidates (name_set (map (λ e. e.1) (first_by_route candidates [])) []))
            (candidate_id c));
      in_order = selection_kept top_k candidates;
      in_scope = inside;
      covered =
          routes-IsCovered top_k candidates (map (λ e. e.0) (first_by_route candidates []))
            route_ids refl (ground arith);
    },
  )

  -- The plan either applies, with no failure code, and keeps exactly top_k candidates' chunks, in the
  -- order of the candidates, which are all of the routes, the chunk of every route's first candidate
  -- among them; or it does not, with a failure code, and keeps the chunks of the first top_k
  -- candidates, and its observer is told that the selection is unchanged.
  pub plan-AppliesOrKeeps :
      (casefold : Text → Text) (config : CoverageConfig) (enabled : Bool) (question : Text)
      → (candidates : List (RankedChunk S P)) (route_ids : List String) (top_k : ℕ)
      → AppliesOrKeeps candidates route_ids top_k
          (plan casefold config enabled question candidates route_ids top_k)
  unfolding plan fall_back
  plan-AppliesOrKeeps casefold config enabled question candidates route_ids top_k =
      if_both Q (not enabled) (λ h. stays disabled refl switch_disabled)
        (λ h.
          if_both Q
            (not (length route_ids == config.eligible_route_count) || has_duplicates route_ids)
            (λ h1. stays fallback refl route_count_not_two)
            (λ h1.
              if_both Q (not (top_k == config.final_top_k))
                (λ h2. stays fallback refl final_top_k_not_three)
                (λ h2.
                  if_both Q
                    (is_blank question || not (has_comparison_marker casefold config question))
                    (λ h3. stays fallback refl comparison_not_proven)
                    (λ h3.
                      if_both Q (ltb (length candidates) top_k)
                        (λ h4. stays fallback refl candidate_count_insufficient)
                        (λ h4.
                          if_both Q (not in_scope)
                            (λ out. stays fallback refl candidate_route_outside_scope)
                            (λ inside.
                              if_both Q (not (same_names keys route_ids))
                                (λ h6. stays fallback refl route_candidate_unavailable)
                                (λ available.
                                  if_both Q (not (length ids == top_k))
                                    (λ h7. stays fallback refl selection_cardinality_invalid)
                                    (λ full.
                                      applying candidates route_ids top_k (ground arith)
                                        (ground arith) (ground arith)))))))))
    where
      Q : CoveragePlan → Type 0
      Q = AppliesOrKeeps candidates route_ids top_k

      in_scope : Bool
      in_scope = all (contains route_ids) (map candidate_route candidates)

      keys : List String
      keys = map (λ e. e.0) (first_by_route candidates [])

      ids : List String
      ids = selection top_k candidates

      stays :
          (status : PlanStatus)
          → is_applied status ≡ false
          → (failure : PlanFailure)
          → Q (
              finish route_ids
                (length candidates)
                (map candidate_id (take top_k candidates))
                (map candidate_id (take top_k candidates))
                status
                (some failure))
      stays = keeps candidates route_ids top_k
