-- ===== src/Ingestion/Splitter/Atomic.antt =====
-- backend/ingestion/splitter.py: the atomic spans of a section. A text is a list of code points. The
-- ends of the matches of the two patterns, in a range of the text, are parameters.
use zhiyan_personal_academic.Prelude.{
  ℕ, zero, suc, ◌+◌, ◌-◌, List, [], ◌∷◌, ◌++◌, if◌then◌else◌, ltb, leb, min, length, take, is_blank,
}
use zhiyan_personal_academic.Ingestion.Splitter.{Span, span_length, drop, SplitConfig, group_units}

-- `text[start:end]`.
abbrev pub slice : List ℕ → ℕ → ℕ → List ℕ
slice text start end = take (end - start) (drop start text)

-- A span, unless its text is blank.
unfoldable pub kept_span : List ℕ → ℕ → ℕ → List Span
kept_span text start end =
    if is_blank (slice text start end) then [] else record { start = start; end = end } ∷ []

-- The loop over the matches, of which the ends are given, and what is left after the last one.
unfoldable pub spans_at : List ℕ → ℕ → ℕ → List ℕ → List Span
spans_at text cursor end [] = kept_span text cursor end
spans_at text cursor end (b ∷ breaks) = kept_span text cursor b ++ spans_at text b end breaks

-- `_paragraph_spans` and `_sentence_spans`, by the matches of their pattern.
abbrev pub spans_between : (ℕ → ℕ → List ℕ) → List ℕ → ℕ → ℕ → List Span
spans_between breaks text start end = spans_at text start end (breaks start end)

-- The windows of a long sentence, with fuel for their number.
unfoldable pub windows : ℕ → ℕ → ℕ → ℕ → List Span
windows zero max_chars cursor end = []
windows (suc fuel) max_chars cursor end =
    let boundary = min (cursor + max_chars) end in
    let rest = windows fuel max_chars boundary end in
    if ltb cursor end then record { start = cursor; end = boundary } ∷ rest else []

unfoldable pub sentence_units : ℕ → List Span → List Span
sentence_units max_chars [] = []
sentence_units max_chars (s ∷ sentences) =
    (if leb (span_length s) max_chars
      then s ∷ []
      else windows (span_length s) max_chars s.start s.end)
    ++ sentence_units max_chars sentences

unfoldable pub paragraph_units : (ℕ → ℕ → List ℕ) → List ℕ → ℕ → List Span → List Span
paragraph_units sentence_ends text max_chars [] = []
paragraph_units sentence_ends text max_chars (p ∷ paragraphs) =
    (if leb (span_length p) max_chars
      then p ∷ []
      else sentence_units max_chars (spans_between sentence_ends text p.start p.end))
    ++ paragraph_units sentence_ends text max_chars paragraphs

-- `units[-1] = Span(units[-1].start, section.end)`.
unfoldable pub end_at : ℕ → List Span → List Span
end_at end [] = []
end_at end (u ∷ []) = record u { end = end } ∷ []
end_at end (u ∷ v ∷ us) = u ∷ end_at end (v ∷ us)

-- `units[0] = Span(section.start, units[0].end)`.
unfoldable pub start_at : ℕ → List Span → List Span
start_at start [] = []
start_at start (u ∷ us) = record u { start = start } ∷ us

-- `_atomic_spans`.
unfoldable pub atomic_spans : (ℕ → ℕ → List ℕ) → (ℕ → ℕ → List ℕ) → List ℕ → Span → ℕ → List Span
atomic_spans paragraph_ends sentence_ends text section max_chars = end_at section.end (
    start_at section.start (
      paragraph_units sentence_ends text max_chars
        (spans_between paragraph_ends text section.start section.end)))

-- The chunks of a section in `_split_structural`: those that are not blank.
unfoldable pub without_blank : List ℕ → List Span → List Span
without_blank text [] = []
without_blank text (c ∷ chunks) =
    let rest = without_blank text chunks in
    if is_blank (slice text c.start c.end) then rest else c ∷ rest

unfoldable pub section_chunks :
    (ℕ → ℕ → List ℕ) → (ℕ → ℕ → List ℕ) → List ℕ → SplitConfig → Span → List Span
section_chunks paragraph_ends sentence_ends text config section =
    let units = atomic_spans paragraph_ends sentence_ends text section config.max_chars in
    without_blank text (group_units config (length units) units)
