-- ===== src/Retrieval/Coverage/Config.antt =====
-- What a configuration of the route coverage that loads has.
use zhiyan_personal_academic.Prelude.{
  strip, strip_left, strip_right, refl, [], ◌∷◌, ◌≡◌, inl, inr, false, Bool, ℕ, List, Option, none,
  some, map, All, arith, Bool-cases, is_blank, is_space, map_option, some-cancel, subst, ◌≤◌,
  length,
}
use zhiyan_personal_academic.Retrieval.Coverage.{
  no_items, item, text, null, boolean, number, array, object, Text, CoverageConfig, Json, Items,
  Loaded, loaded, load_config, has_duplicate_texts, marker_texts, markers_of, with_markers, item,
  text, boolean, number, array, object, field_of, ConfigError, refused, duplicated_markers,
  or_refused, config_error,
}

strip_left-not_blank : (t : Text) → is_blank t ≡ false → is_blank (strip_left t) ≡ false
unfolding strip_left is_blank
strip_left-not_blank [] h = absurd (ground arith)
strip_left-not_blank (c ∷ cs) h = elim (Bool-cases (is_space c)) [
  | inl space ↦ rw space (strip_left-not_blank cs (ground arith))
  | inr other ↦ rw (other, other) refl
]

strip_right-not_blank : (t : Text) → is_blank t ≡ false → is_blank (strip_right t) ≡ false
unfolding strip_right is_blank
strip_right-not_blank [] h = absurd (ground arith)
strip_right-not_blank (c ∷ cs) h = elim (Bool-cases (is_blank cs)) [
  | inl blank ↦ rw h (ground arith)
  | inr other ↦ let rest = strip_right-not_blank cs other in rw h (ground arith)
]

pub record IsLoaded (casefold : Text → Text) (config : CoverageConfig) : Type 0 where
  pub disabled_by_default : config.default_enabled ≡ false
  pub two_routes : config.eligible_route_count ≡ 2
  pub top_three : config.final_top_k ≡ 3
  pub one_per_route : config.minimum_per_route ≡ 1
  pub markers_not_blank : All (λ m. is_blank m ≡ false) config.comparison_markers
  pub markers_differ : has_duplicate_texts (map casefold config.comparison_markers) ≡ false
  pub has_markers : 1 ≤ length config.comparison_markers

strip-not_blank : (t : Text) → is_blank t ≡ false → is_blank (strip t) ≡ false
strip-not_blank t h = strip_right-not_blank (strip_left t) (strip_left-not_blank t h)

abbrev NotBlank : List Text → Type 0
NotBlank ts = All (λ t. is_blank t ≡ false) ts

stripped-NotBlank : (ts : List Text) → NotBlank ts → NotBlank (map strip ts)
stripped-NotBlank [] a = tt
stripped-NotBlank (t ∷ ts) a = (strip-not_blank t a.0, stripped-NotBlank ts a.1)

length_stripped : (ts : List Text) → 1 ≤ length ts → 1 ≤ length (map strip ts)
length_stripped [] h = h
length_stripped (t ∷ ts) h = omega arith

map_option-some :
    {A B : Type 0} (f : A → B) (o : Option A) (b : B)
    → map_option f o ≡ some b
    → (a : A) × (o ≡ some a) × (f a ≡ b)
map_option-some f none b h = absurd (cc)
map_option-some f (some a) b h = (a, refl, some-cancel h)

loaded-cancel : {a b : CoverageConfig} → loaded a ≡ loaded b → a ≡ b
loaded-cancel h = cc

with_markers-IsLoaded :
    (casefold : Text → Text) (o : Option (List Text)) (config : CoverageConfig)
    → ((ts : List Text) → o ≡ some ts → NotBlank ts × (1 ≤ length ts))
    → with_markers casefold o ≡ loaded config
    → IsLoaded casefold config
with_markers-IsLoaded casefold none config f h = absurd (cc)
with_markers-IsLoaded casefold (some ts) config f h =
    elim (Bool-cases (has_duplicate_texts (map casefold (map strip ts)))) [
      | inl bad ↦
          let refusal : refused duplicated_markers ≡ loaded config = rw bad at h in absurd (cc)
      | inr good ↦ subst (IsLoaded casefold) (loaded-cancel (rw good at h)) (record {
        disabled_by_default = refl;
        two_routes = refl;
        top_three = refl;
        one_per_route = refl;
        markers_not_blank = stripped-NotBlank ts (f ts refl).0;
        markers_differ = good;
        has_markers = length_stripped ts (f ts refl).1;
      })
    ]

not_refused :
    (o : Option ConfigError) (l : Loaded) (config : CoverageConfig)
    → or_refused o l ≡ loaded config
    → l ≡ loaded config
not_refused none l config h = h
not_refused (some e) l config h = absurd (cc)

module _ {N : Type 0} where
  marker_texts-NotBlank :
      (items : Items N) (ts : List Text) → marker_texts items ≡ some ts → NotBlank ts
  unfolding marker_texts
  marker_texts-NotBlank no_items ts h = subst NotBlank (some-cancel h) tt
  marker_texts-NotBlank (item (text t) rest) ts h = elim (Bool-cases (is_blank t)) [
    | inl blank ↦ let bad : none ≡ some ts = rw blank at h in absurd (cc)
    | inr other ↦
        let (more, its, e) =
          map_option-some (λ us. t ∷ us) (marker_texts rest) ts (rw other at h) in
        subst NotBlank e (other, marker_texts-NotBlank rest more its)
  ]
  marker_texts-NotBlank (item null rest) ts h = absurd (cc)
  marker_texts-NotBlank (item (boolean b) rest) ts h = absurd (cc)
  marker_texts-NotBlank (item (number n) rest) ts h = absurd (cc)
  marker_texts-NotBlank (item (array a) rest) ts h = absurd (cc)
  marker_texts-NotBlank (item (object o) rest) ts h = absurd (cc)

  marker_texts-filled :
      (v : Json N) (rest : Items N) (ts : List Text)
      → marker_texts (item v rest) ≡ some ts
      → 1 ≤ length ts
  unfolding marker_texts
  marker_texts-filled (text t) rest ts h = elim (Bool-cases (is_blank t)) [
    | inl blank ↦ let bad : none ≡ some ts = rw blank at h in absurd (cc)
    | inr other ↦
        let (more, its, e) =
          map_option-some (λ us. t ∷ us) (marker_texts rest) ts (rw other at h) in
        subst (λ us. 1 ≤ length us) e (omega arith)
  ]
  marker_texts-filled null rest ts h = absurd (cc)
  marker_texts-filled (boolean b) rest ts h = absurd (cc)
  marker_texts-filled (number n) rest ts h = absurd (cc)
  marker_texts-filled (array a) rest ts h = absurd (cc)
  marker_texts-filled (object o) rest ts h = absurd (cc)

  markers_of-NotBlank :
      (o : Option (Json N)) (ts : List Text)
      → markers_of o ≡ some ts
      → NotBlank ts × (1 ≤ length ts)
  markers_of-NotBlank none ts h = absurd (cc)
  markers_of-NotBlank (some null) ts h = absurd (cc)
  markers_of-NotBlank (some (boolean b)) ts h = absurd (cc)
  markers_of-NotBlank (some (number n)) ts h = absurd (cc)
  markers_of-NotBlank (some (text t)) ts h = absurd (cc)
  markers_of-NotBlank (some (object o)) ts h = absurd (cc)
  markers_of-NotBlank (some (array no_items)) ts h = absurd (cc)
  markers_of-NotBlank (some (array (item v rest))) ts h =
      (marker_texts-NotBlank (item v rest) ts h, marker_texts-filled v rest ts h)

  -- A configuration that loads is disabled by default, asks for two routes, three chunks and one of
  -- every route, and has markers, none of them blank, no two of them equal when their case is folded.
  pub load_config-IsLoaded :
      (equals : N → ℕ → Bool) (casefold : Text → Text) (value : Json N) (config : CoverageConfig)
      → load_config equals casefold value ≡ loaded config
      → IsLoaded casefold config
  unfolding load_config
  load_config-IsLoaded equals casefold (object value) config h =
      let markers : Option (List Text) = markers_of (field_of "comparison_markers" value) in
      with_markers-IsLoaded casefold markers config
        (markers_of-NotBlank (field_of "comparison_markers" value))
        (not_refused (config_error equals value) (with_markers casefold markers) config h)
  load_config-IsLoaded equals casefold null config h = absurd (cc)
  load_config-IsLoaded equals casefold (boolean b) config h = absurd (cc)
  load_config-IsLoaded equals casefold (number n) config h = absurd (cc)
  load_config-IsLoaded equals casefold (text t) config h = absurd (cc)
  load_config-IsLoaded equals casefold (array a) config h = absurd (cc)
