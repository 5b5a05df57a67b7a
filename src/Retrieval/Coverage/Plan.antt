-- ===== src/Retrieval/Coverage/Plan.antt =====
-- `BilateralComparisonRouteCoverageSelector`: the plan of the candidates to keep.
use zhiyan_personal_academic.Prelude.{
  ℕ, String, Bool, true, false, not, ◌&&◌, ◌||◌, Option, none, some, List, [], ◌∷◌, ◌++◌, map, take,
  length, any, all, if◌then◌else◌, ltb, leb, ◌==◌, ◌=ᵗ◌, contains, has_duplicates, is_blank,
  is_part_of, select_where,
}
use zhiyan_personal_academic.Retrieval.Results.{RankedChunk, candidate_id}
use zhiyan_personal_academic.Retrieval.Coverage.{Text, CoverageConfig, same_names}

pub data PlanStatus : Type 0 where
  applied fallback disabled : PlanStatus

pub data PlanFailure : Type 0 where
  switch_disabled route_count_not_two final_top_k_not_three comparison_not_proven : PlanFailure
  candidate_count_insufficient candidate_route_outside_scope : PlanFailure
  route_candidate_unavailable selection_cardinality_invalid : PlanFailure

pub record CoverageObservation : Type 0 where
  pub status : PlanStatus
  pub failure_code : Option PlanFailure
  pub route_count : ℕ
  pub candidate_count : ℕ
  pub selection_changed : Bool

-- A plan, with what an observer is told.
pub record CoveragePlan : Type 0 where
  pub status : PlanStatus
  pub selected_chunk_ids : List String
  pub failure_code : Option PlanFailure
  pub observation : CoverageObservation

unfoldable pub same_ids : List String → List String → Bool
same_ids [] [] = true
same_ids (a ∷ ids) (b ∷ others) = a =ᵗ b && same_ids ids others
same_ids [] (b ∷ others) = false
same_ids (a ∷ ids) [] = false

-- `first_by_route.setdefault(document_id, chunk_id)`.
unfoldable pub set_default : String → String → List (String × String) → List (String × String)
set_default document_id chunk_id first_by_route =
    if any (λ entry. entry.0 =ᵗ document_id) first_by_route
    then first_by_route
    else first_by_route ++ (document_id, chunk_id) ∷ []

-- `names.add(name)`, to a set.
unfoldable pub add_name : String → List String → List String
add_name name names = if contains names name then names else names ++ name ∷ []

unfoldable pub name_set : List String → List String → List String
name_set [] names = names
name_set (name ∷ more) names = name_set more (add_name name names)

-- `BilateralComparisonRouteCoverageSelector._finish`.
unfoldable pub finish :
    List String → ℕ → List String → List String → PlanStatus → Option PlanFailure → CoveragePlan
finish route_ids candidate_count original_ids selected_ids status failure_code = record {
  status = status;
  selected_chunk_ids = selected_ids;
  failure_code = failure_code;
  observation = record {
    status = status;
    failure_code = failure_code;
    route_count = length route_ids;
    candidate_count = candidate_count;
    selection_changed = not (same_ids selected_ids original_ids);
  };
}

-- `_has_comparison_marker`.
unfoldable pub has_comparison_marker : (Text → Text) → CoverageConfig → Text → Bool
has_comparison_marker casefold config question =
    any (λ marker. is_part_of (casefold marker) (casefold question)) config.comparison_markers

module _ {S P : Type 0} where
  abbrev pub candidate_route : RankedChunk S P → String
  candidate_route c = c.chunk.document_id

  unfoldable pub first_by_route :
      List (RankedChunk S P) → List (String × String) → List (String × String)
  first_by_route [] entries = entries
  first_by_route (c ∷ cs) entries =
      first_by_route cs (set_default (candidate_route c) (candidate_id c) entries)

  -- The loop that fills the selection, and stops when it is full.
  unfoldable pub fill : ℕ → List (RankedChunk S P) → List String → List String
  fill top_k [] selected = selected
  fill top_k (c ∷ cs) selected =
      let rest = fill top_k cs (add_name (candidate_id c) selected) in
      if leb top_k (length selected) then selected else rest

  -- `_fallback`.
  unfoldable pub fall_back :
      List String → List (RankedChunk S P) → List String → PlanFailure → CoveragePlan
  fall_back route_ids candidates original_ids failure_code =
      finish route_ids (length candidates) original_ids original_ids fallback (some failure_code)

  -- The selection of `plan`, from the first candidate of every route on.
  unfoldable pub selection : ℕ → List (RankedChunk S P) → List String
  selection top_k candidates =
      let selected =
        fill top_k candidates
          (name_set (map (λ entry. entry.1) (first_by_route candidates [])) []) in
      map candidate_id (select_where (λ c. contains selected (candidate_id c)) candidates)

  -- `BilateralComparisonRouteCoverageSelector.plan`.
  unfoldable pub plan :
      (Text → Text)
      → CoverageConfig
      → Bool
      → Text
      → List (RankedChunk S P)
      → List String
      → ℕ
      → CoveragePlan
  plan casefold config enabled question candidates route_ids top_k =
      let original_ids = map candidate_id (take top_k candidates) in
      let back = fall_back route_ids candidates original_ids in
      let selected_ids = selection top_k candidates in
      if not enabled
      then finish route_ids (length candidates) original_ids original_ids disabled
          (some switch_disabled)
      else if not (length route_ids == config.eligible_route_count) || has_duplicates route_ids
      then back route_count_not_two
      else if not (top_k == config.final_top_k)
      then back final_top_k_not_three
      else if is_blank question || not (has_comparison_marker casefold config question)
      then back comparison_not_proven
      else if ltb (length candidates) top_k
      then back candidate_count_insufficient
      else if not (all (contains route_ids) (map candidate_route candidates))
      then back candidate_route_outside_scope
      else if not (same_names (map (λ entry. entry.0) (first_by_route candidates [])) route_ids)
      then back route_candidate_unavailable
      else if not (length selected_ids == top_k)
      then back selection_cardinality_invalid
      else finish route_ids (length candidates) original_ids selected_ids applied none
