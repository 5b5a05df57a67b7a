-- ===== src/Tests/Splitter.antt =====
-- Spans grouped into chunks, a long sentence cut into windows, and the sections of a text.
use zhiyan_personal_academic.Prelude.{
  some, ◌++◌, strip_left, strip_right, refl, [], ◌∷◌, ◌≡◌, true, ℕ, List, All, map, length, arith,
  take, is_blank, is_space,
}
use zhiyan_personal_academic.Ingestion.Splitter.{
  Span, SplitConfig, group_units, reach, one_more, last_place, overlap_place, next_place,
  after_chunk,
}
use zhiyan_personal_academic.Ingestion.Splitter.Laws.{
  InOrder, IsCovered, Fits, group_units-IsCovered, group_units-Fits,
}
use zhiyan_personal_academic.Ingestion.Splitter.Atomic.{
  atomic_spans, windows, section_chunks, without_blank, end_at, start_at, paragraph_units, spans_at,
  kept_span,
}
use zhiyan_personal_academic.Ingestion.Splitter.Units.{
  Tiles, Chain, Matches, windows-Tiles, atomic_spans-IsCovered,
}
use zhiyan_personal_academic.Ingestion.Splitter.Fixed.{
  chunk_text, pack_units, overlap_tail, unit_windows,
}
use zhiyan_personal_academic.Ingestion.Splitter.Packing.{
  Short, Reaches, chunk_text-Short, unit_windows-Reaches,
}
use zhiyan_personal_academic.Ingestion.Splitter.Sections.{section_spans, section_spans-Tiles}

abbrev span : ℕ → ℕ → Span
span a b = record { start = a; end = b }

abbrev small_config : SplitConfig
small_config = record { target_chars = 10; max_chars = 12; overlap_target_chars = 4 }

abbrev four_units : List Span
four_units = span 0 4 ∷ span 4 8 ∷ span 8 12 ∷ span 12 20 ∷ []

grouped : group_units small_config 4 four_units ≡ span 0 12 ∷ span 8 20 ∷ []
unfolding group_units reach one_more last_place overlap_place next_place after_chunk
grouped = refl

four_units-InOrder : InOrder four_units
four_units-InOrder = (
  omega arith,
  (omega arith, (omega arith, (omega arith, tt))),
  (
    omega arith,
    (omega arith, (omega arith, tt)),
    (omega arith, (omega arith, tt), (omega arith, tt, tt)),
  ),
)

group_units-IsCovered_example : All (IsCovered (group_units small_config 4 four_units)) four_units
group_units-IsCovered_example =
    group_units-IsCovered small_config 4 four_units (omega arith) four_units-InOrder

group_units-Fits_example : All (Fits 12) (group_units small_config 4 four_units)
group_units-Fits_example =
    group_units-Fits small_config 4 four_units (omega arith)
      (omega arith, (omega arith, (omega arith, (omega arith, tt))))

windows-Tiles_example : Tiles 3 30 (windows 27 12 3 30)
windows-Tiles_example = windows-Tiles 27 12 3 30 (omega arith) (omega arith) (omega arith)

-- Twenty letters.
abbrev letters : List ℕ
letters =
    97 ∷ 97 ∷ 97 ∷ 97 ∷ 97 ∷ 97 ∷ 97 ∷ 97 ∷ 97 ∷ 97 ∷ 97 ∷ 97 ∷ 97 ∷ 97 ∷ 97 ∷ 97 ∷ 97 ∷ 97 ∷ 97
    ∷ 97 ∷ []

abbrev no_breaks : ℕ → ℕ → List ℕ
no_breaks lo hi = []

no_breaks-Matches : Matches no_breaks
no_breaks-Matches lo hi h = h

atomic_spans-IsCovered_example :
    Chain 0 20 (atomic_spans no_breaks no_breaks letters (span 0 20) 12)
    × All
        (IsCovered (
          group_units small_config
            (length (atomic_spans no_breaks no_breaks letters (span 0 20) 12))
            (atomic_spans no_breaks no_breaks letters (span 0 20) 12)))
        (atomic_spans no_breaks no_breaks letters (span 0 20) 12)
atomic_spans-IsCovered_example =
    atomic_spans-IsCovered no_breaks letters no_breaks (span 0 20) small_config no_breaks-Matches
      no_breaks-Matches (omega arith) (omega arith)

section_spans-Tiles_example :
    Tiles 0 20 (map (λ s. s.span) (section_spans true letters 20 (span 5 8 ∷ span 12 15 ∷ [])))
section_spans-Tiles_example =
    section_spans-Tiles true letters 20 (span 5 8 ∷ span 12 15 ∷ []) (omega arith)
      (omega arith, omega arith, (omega arith, omega arith, tt))

-- Two line ends before a paragraph of the greatest length: the first span is stretched to the start
-- of the section after its length was limited.
abbrev led_letters : List ℕ
led_letters = 10 ∷ 10 ∷ take 12 letters

abbrev breaks_after_two : ℕ → ℕ → List ℕ
breaks_after_two lo hi = 2 ∷ []

stretched :
    section_chunks breaks_after_two no_breaks led_letters small_config (span 0 14) ≡ span 0 14 ∷ []
unfolding section_chunks without_blank atomic_spans end_at start_at paragraph_units spans_at
    kept_span group_units reach one_more last_place overlap_place next_place after_chunk is_blank
    is_space
stretched = refl

abbrev ten_letters : List ℕ
ten_letters = take 10 letters

-- The overlap is put before a unit that fills the size: the second chunk has fifteen characters,
-- where the size is ten.
packed :
    chunk_text 10 4 (ten_letters ∷ ten_letters ∷ [])
    ≡ some (ten_letters ∷ (take 4 letters ++ 32 ∷ ten_letters) ∷ [])
unfolding chunk_text pack_units overlap_tail strip_left strip_right is_blank is_space
packed = refl

chunk_text-Short_example : All (Short 15) (ten_letters ∷ (take 4 letters ++ 32 ∷ ten_letters) ∷ [])
chunk_text-Short_example =
    chunk_text-Short 10 4 (ten_letters ∷ ten_letters ∷ [])
      (ten_letters ∷ (take 4 letters ++ 32 ∷ ten_letters) ∷ []) packed

unit_windows-Reaches_example : Reaches 0 20 (unit_windows 20 10 4 0 20)
unit_windows-Reaches_example =
    unit_windows-Reaches 20 10 4 0 20 (omega arith) (omega arith) (omega arith)
