-- ===== src/Tests/Coverage.antt =====
-- A configuration of the route coverage, loaded, and a plan by it, and the properties at them.
use zhiyan_personal_academic.Prelude.{
  strip_left, strip_right, refl, [], ◌∷◌, ◌≡◌, true, false, ℕ, Bool, List, String, codes, ◌==◌,
  is_space, is_blank, is_part_of, has_duplicates, select_where, starts_with,
}
use zhiyan_personal_academic.Retrieval.Results.{RankedChunk}
use zhiyan_personal_academic.Retrieval.Coverage.{
  Text, CoverageConfig, Json, boolean, number, text, array, object, no_items, item, no_fields,
  field, load_config, loaded, config_error, same_names, field_names, field_of, same_text,
  marker_texts, has_duplicate_texts, fallback_to_original_rrf_top3,
}
use zhiyan_personal_academic.Retrieval.Coverage.Config.{IsLoaded, load_config-IsLoaded}
use zhiyan_personal_academic.Retrieval.Coverage.Plan.{
  plan, CoveragePlan, first_by_route, set_default, add_name, name_set, fill, selection, finish,
  has_comparison_marker,
}
use zhiyan_personal_academic.Retrieval.Coverage.Laws.{AppliesOrKeeps, plan-AppliesOrKeeps}

abbrev json_text : String → Json ℕ
json_text s = text (codes s)

abbrev config_file : Json ℕ
config_file = object (
    field "schema_version" (json_text "bilateral_comparison_route_coverage_top3_config_v1") (
      field "variable_id" (json_text "BILATERAL_COMPARISON_ROUTE_COVERAGE_TOP3_V1") (
        field "default_enabled" (boolean false) (
          field "failure_policy" (json_text "FALLBACK_TO_ORIGINAL_RRF_TOP3") (
            field "eligible_route_count" (number 2) (
              field "final_top_k" (number 3) (
                field "minimum_per_route" (number 1) (
                  field "comparison_markers" (array (item (json_text " vs ") no_items))
                    no_fields))))))))

abbrev coverage_config : CoverageConfig
coverage_config = record {
  default_enabled = false;
  failure_policy = fallback_to_original_rrf_top3;
  eligible_route_count = 2;
  final_top_k = 3;
  minimum_per_route = 1;
  comparison_markers = codes "vs" ∷ [];
}

abbrev same_number : ℕ → ℕ → Bool
same_number a b = a == b

-- Of lower-case texts, `casefold` is the identity.
abbrev lower : Text → Text
lower t = t

config_loaded : load_config same_number lower config_file ≡ loaded coverage_config
unfolding load_config config_error same_names field_names field_of same_text marker_texts strip_left
    strip_right has_duplicate_texts is_space is_blank
config_loaded = refl

load_config-IsLoaded_example : IsLoaded lower coverage_config
load_config-IsLoaded_example =
    load_config-IsLoaded same_number lower config_file coverage_config config_loaded

abbrev routed : ℕ → String → String → RankedChunk ℕ ℕ
routed rank id document_id = record {
  backend = "b";
  rank = rank;
  score = 0;
  chunk = record { chunk_id = id; document_id = document_id; payload = 0 };
}

-- The second document has one chunk, in the fourth place.
abbrev one_sided : List (RankedChunk ℕ ℕ)
one_sided =
    routed 1 "p" "left" ∷ routed 2 "q" "left" ∷ routed 3 "r" "left" ∷ routed 4 "s" "right" ∷ []

abbrev comparison_plan : CoveragePlan
comparison_plan =
    plan lower coverage_config true (codes "left vs right") one_sided ("left" ∷ "right" ∷ []) 3

covered : comparison_plan.selected_chunk_ids ≡ "p" ∷ "q" ∷ "s" ∷ []
unfolding plan first_by_route set_default add_name name_set fill selection finish
    has_comparison_marker is_part_of starts_with is_blank is_space has_duplicates same_names
    select_where
covered = refl

plan-AppliesOrKeeps_example :
    AppliesOrKeeps one_sided
      ("left" ∷ "right" ∷ [])
      3
      (plan lower coverage_config true (codes "left vs right") one_sided ("left" ∷ "right" ∷ []) 3)
plan-AppliesOrKeeps_example =
    plan-AppliesOrKeeps lower coverage_config true (codes "left vs right") one_sided
      ("left" ∷ "right" ∷ []) 3
