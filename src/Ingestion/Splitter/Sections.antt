-- ===== src/Ingestion/Splitter/Sections.antt =====
-- backend/ingestion/splitter.py: the sections of a text and the structural split. The spans of the
-- headings that count are an argument: they are what the pattern of headings finds.
use zhiyan_personal_academic.Prelude.{
  refl, [], ◌∷◌, ◌++◌, ◌≡◌, Bool, ℕ, suc, ◌+◌, ◌≤◌, ◌<◌, List, Option, none, some, map, arith, ltb,
  Bool-cases, inl, inr, if◌then◌else◌, ltb→lt, subst,
}
use zhiyan_personal_academic.Ingestion.Splitter.{Span, SplitConfig}
use zhiyan_personal_academic.Ingestion.Splitter.Atomic.{slice, section_chunks}
use zhiyan_personal_academic.Ingestion.Splitter.Units.{Tiles}

-- `parent-unknown-000` or `section-unknown-000`, and the numbered ones.
pub data SectionId : Type 0 where
  unknown_section : Bool → SectionId
  numbered_section : Bool → ℕ → SectionId

-- A section, with its heading, which is none for UNKNOWN: no heading that the pattern finds is that.
pub record SectionSpan : Type 0 where
  pub span : Span
  pub section_id : SectionId
  pub heading : Option (List ℕ)

abbrev pub unknown : Bool → ℕ → ℕ → SectionSpan
unknown major_only start end = record {
  span = record { start = start; end = end };
  section_id = unknown_section major_only;
  heading = none;
}

-- Where the section of a heading ends.
abbrev pub section_end : ℕ → List Span → ℕ
section_end text_end [] = text_end
section_end text_end (h ∷ headings) = h.start

-- `for index, heading in enumerate(headings)`, with `number = index + 1`.
unfoldable pub numbered_sections : Bool → List ℕ → ℕ → ℕ → List Span → List SectionSpan
numbered_sections major_only text text_end number [] = []
numbered_sections major_only text text_end number (h ∷ headings) =
    record {
      span = record { start = h.start; end = section_end text_end headings };
      section_id = numbered_section major_only number;
      heading = some (slice text h.start h.end);
    }
    ∷ numbered_sections major_only text text_end (number + 1) headings

-- `_section_spans`, from its headings on; `text_end` is the length of the text.
unfoldable pub section_spans : Bool → List ℕ → ℕ → List Span → List SectionSpan
section_spans major_only text text_end [] = unknown major_only 0 text_end ∷ []
section_spans major_only text text_end (h ∷ headings) =
    (if ltb 0 h.start then unknown major_only 0 h.start ∷ [] else [])
    ++ numbered_sections major_only text text_end 1 (h ∷ headings)

pub record RawChunk : Type 0 where
  pub text : List ℕ
  pub source_start : ℕ
  pub source_end : ℕ
  pub section_name : Option (List ℕ)
  pub parent_source_id : Option SectionId

abbrev pub raw_chunk : List ℕ → Bool → SectionSpan → Span → RawChunk
raw_chunk text parent_ids section s = record {
  text = slice text s.start s.end;
  source_start = s.start;
  source_end = s.end;
  section_name = section.heading;
  parent_source_id = if parent_ids then some section.section_id else none;
}

-- `_split_structural`, over the sections.
unfoldable pub split_sections :
    (ℕ → ℕ → List ℕ)
    → (ℕ → ℕ → List ℕ)
    → List ℕ
    → Bool
    → SplitConfig
    → List SectionSpan
    → List RawChunk
split_sections paragraph_ends sentence_ends text parent_ids config [] = []
split_sections paragraph_ends sentence_ends text parent_ids config (section ∷ sections) =
    map (raw_chunk text parent_ids section)
      (section_chunks paragraph_ends sentence_ends text config section.span)
    ++ split_sections paragraph_ends sentence_ends text parent_ids config sections

-- The headings of a text: they start one after the other, before its end.
abbrev pub Headings : ℕ → ℕ → List Span → Type 0
Headings after text_end [] = Unit
Headings after text_end (h ∷ headings) =
    (after ≤ h.start) × (h.start < text_end) × Headings (suc h.start) text_end headings

numbered_sections-Tiles :
    (major_only : Bool) (text : List ℕ) (text_end number : ℕ) (h : Span) (headings : List Span)
    → (after : ℕ) → Headings after text_end (h ∷ headings)
    → Tiles h.start text_end
        (map (λ s. s.span) (numbered_sections major_only text text_end number (h ∷ headings)))
unfolding numbered_sections
numbered_sections-Tiles major_only text text_end number h [] after w = (refl, w.1, refl)
numbered_sections-Tiles major_only text text_end number h (g ∷ headings) after w = (
  refl,
  omega (arith, w.2.0),
  numbered_sections-Tiles major_only text text_end (number + 1) g headings (suc h.start) w.2,
)

-- The sections of a text that is not empty tile it: each starts where the one before ends, from the
-- beginning to the end, and none is empty. The headings start one after the other before the end.
pub section_spans-Tiles :
    (major_only : Bool) (text : List ℕ) (text_end : ℕ) (headings : List Span)
    → 1 ≤ text_end
    → Headings 0 text_end headings
    → Tiles 0 text_end (map (λ s. s.span) (section_spans major_only text text_end headings))
unfolding section_spans
section_spans-Tiles major_only text text_end [] one w = (refl, one, refl)
section_spans-Tiles major_only text text_end (h ∷ headings) one w =
    let numbered = numbered_sections-Tiles major_only text text_end 1 h headings 0 w in
    elim (Bool-cases (ltb 0 h.start)) [
      | inl later ↦ rw later (refl, ltb→lt 0 h.start later, numbered)
      | inr first ↦
          let at_start : h.start ≡ 0 = ground arith in
          rw first (
            subst
              (λ x.
                Tiles x text_end
                  (map (λ s. s.span) (numbered_sections major_only text text_end 1 (h ∷ headings))))
              at_start numbered)
    ]
