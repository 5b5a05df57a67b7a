-- ===== src/Retrieval/Coverage.antt =====
-- backend/retrieval/comparison_route_coverage.py: the last choice of candidates for a comparison of two
-- documents. A text is a list of code points, `casefold` is `str.casefold`. The clock is not
-- modelled: an observation has no latency.
pub mod Plan
pub mod Config
pub mod Names
pub mod Covered
pub mod Laws
use zhiyan_personal_academic.Prelude.{
  strip, ℕ, ◌≤◌, String, Bool, true, false, not, ◌&&◌, ◌||◌, Option, none, some, List, [], ◌∷◌,
  ◌++◌, map, take, length, any, all, if◌then◌else◌, ltb, leb, ◌==◌, ◌=ᵗ◌, codes, contains,
  has_duplicates, is_space, is_blank, is_part_of, find_where, select_where, is_some, map_option,
}
use zhiyan_personal_academic.Retrieval.Results.{Chunk, RankedChunk, candidate_id}

abbrev pub Text : Type 0
Text = List ℕ

unfoldable pub same_text : Text → Text → Bool
same_text [] [] = true
same_text (c ∷ cs) (d ∷ ds) = c == d && same_text cs ds
same_text [] (d ∷ ds) = false
same_text (c ∷ cs) [] = false

-- `len({...}) != len(...)` of texts.
unfoldable pub has_duplicate_texts : List Text → Bool
has_duplicate_texts [] = false
has_duplicate_texts (s ∷ ss) = any (same_text s) ss || has_duplicate_texts ss

-- A parsed JSON value, with numbers of a type `N`: the names in an object differ.
mutual
  pub data Json (N : Type 0) : Type 0 where
    null : Json N
    boolean : Bool → Json N
    number : N → Json N
    text : Text → Json N
    array : Items N → Json N
    object : Fields N → Json N

  pub data Items (N : Type 0) : Type 0 where
    no_items : Items N
    item : Json N → Items N → Items N

  pub data Fields (N : Type 0) : Type 0 where
    no_fields : Fields N
    field : String → Json N → Fields N → Fields N

unfoldable pub field_of : {N : Type 0} → String → Fields N → Option (Json N)
field_of key no_fields = none
field_of key (field k v rest) = let later = field_of key rest in if k =ᵗ key then some v else later

unfoldable pub field_names : {N : Type 0} → Fields N → List String
field_names no_fields = []
field_names (field k v rest) = k ∷ field_names rest

abbrev pub config_keys : List String
config_keys =
    "schema_version" ∷ "variable_id" ∷ "default_enabled" ∷ "failure_policy" ∷ "eligible_route_count"
    ∷ "final_top_k" ∷ "minimum_per_route" ∷ "comparison_markers" ∷ []

-- `set(a) == set(b)`.
unfoldable pub same_names : List String → List String → Bool
same_names names others = all (contains others) names && all (contains names) others

pub data FailurePolicy : Type 0 where
  fallback_to_original_rrf_top3 : FailurePolicy

pub record CoverageConfig : Type 0 where
  pub default_enabled : Bool
  pub failure_policy : FailurePolicy
  pub eligible_route_count : ℕ
  pub final_top_k : ℕ
  pub minimum_per_route : ℕ
  pub comparison_markers : List Text

pub data ConfigError : Type 0 where
  invalid_fields unsupported_schema invalid_variable not_default_disabled : ConfigError
  invalid_failure_policy invalid_bounds invalid_markers duplicated_markers : ConfigError

pub data Loaded : Type 0 where
  loaded : CoverageConfig → Loaded
  refused : ConfigError → Loaded

abbrev pub with_markers : (Text → Text) → Option (List Text) → Loaded
with_markers casefold none = refused invalid_markers
with_markers casefold (some ts) =
    if has_duplicate_texts (map casefold (map strip ts))
    then refused duplicated_markers
    else loaded record {
      default_enabled = false;
      failure_policy = fallback_to_original_rrf_top3;
      eligible_route_count = 2;
      final_top_k = 3;
      minimum_per_route = 1;
      comparison_markers = map strip ts;
    }

abbrev pub or_refused : Option ConfigError → Loaded → Loaded
or_refused none l = l
or_refused (some e) l = refused e

module _ {N : Type 0} where
  abbrev pub is_text : String → Option (Json N) → Bool
  is_text s (some (text t)) = same_text t (codes s)
  is_text s _ = false

  abbrev pub is_false : Option (Json N) → Bool
  is_false (some (boolean b)) = not b
  is_false _ = false

  -- `value == n`, where Python's True and False are the numbers 1 and 0.
  abbrev pub is_number : (N → ℕ → Bool) → ℕ → Option (Json N) → Bool
  is_number equals n (some (number x)) = equals x n
  is_number equals n (some (boolean b)) = (if b then 1 else 0) == n
  is_number equals n _ = false

  -- The markers, if all of them are texts that are not blank.
  unfoldable pub marker_texts : Items N → Option (List Text)
  marker_texts no_items = some []
  marker_texts (item (text t) rest) =
      if is_blank t then none else map_option (λ ts. t ∷ ts) (marker_texts rest)
  marker_texts (item _ rest) = none

  abbrev pub markers_of : Option (Json N) → Option (List Text)
  markers_of (some (array (item v rest))) = marker_texts (item v rest)
  markers_of _ = none

  -- The ValueError of the fields other than the markers, if there is one.
  unfoldable pub config_error : (N → ℕ → Bool) → Fields N → Option ConfigError
  config_error equals value =
      if not (same_names (field_names value) config_keys)
      then some invalid_fields
      else if not (
          is_text "bilateral_comparison_route_coverage_top3_config_v1"
            (field_of "schema_version" value))
      then some unsupported_schema
      else if not
          (is_text "BILATERAL_COMPARISON_ROUTE_COVERAGE_TOP3_V1" (field_of "variable_id" value))
      then some invalid_variable
      else if not (is_false (field_of "default_enabled" value))
      then some not_default_disabled
      else if not (is_text "FALLBACK_TO_ORIGINAL_RRF_TOP3" (field_of "failure_policy" value))
      then some invalid_failure_policy
      else if not (is_number equals 2 (field_of "eligible_route_count" value))
          || not (is_number equals 3 (field_of "final_top_k" value))
          || not (is_number equals 1 (field_of "minimum_per_route" value))
      then some invalid_bounds
      else none

  -- `load_bilateral_route_coverage_config`, of the parsed file.
  unfoldable pub load_config : (N → ℕ → Bool) → (Text → Text) → Json N → Loaded
  load_config equals casefold (object value) =
      or_refused (config_error equals value)
        (with_markers casefold (markers_of (field_of "comparison_markers" value)))
  load_config equals casefold _ = refused invalid_fields

pub data Switch : Type 0 where
  switched : Bool → Switch
  not_a_switch : Switch

-- `route_coverage_switch_enabled`, of the value of the reserved switch.
unfoldable pub switch_enabled : (Text → Text) → Option Text → Bool → Switch
switch_enabled casefold none default = switched default
switch_enabled casefold (some raw_value) default =
    let normalized = casefold (strip raw_value) in
    if same_text normalized (codes "0") || same_text normalized (codes "false")
    then switched false
    else if same_text normalized (codes "1") || same_text normalized (codes "true")
    then switched true
    else not_a_switch
