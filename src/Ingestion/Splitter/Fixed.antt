-- ===== src/Ingestion/Splitter/Fixed.antt =====
-- backend/ingestion/splitter.py: `_chunk_text`, the packing of text units into chunks of a size, with
-- an overlap. The units are what the pattern of boundaries splits the text into.
use zhiyan_personal_academic.Prelude.{
  [], ◌∷◌, ◌++◌, ℕ, zero, suc, ◌+◌, ◌-◌, List, Option, none, some, length, ltb, leb, ◌==◌, min,
  strip, if◌then◌else◌,
}
use zhiyan_personal_academic.Ingestion.Splitter.{Span, drop}
use zhiyan_personal_academic.Ingestion.Splitter.Atomic.{slice}

-- The windows of a long unit: each starts `overlap` before the end of the one before. Fuel for
-- their number.
unfoldable pub unit_windows : ℕ → ℕ → ℕ → ℕ → ℕ → List Span
unit_windows zero size overlap start unit_length = []
unit_windows (suc fuel) size overlap start unit_length =
    let end = min (start + size) unit_length in
    let rest = unit_windows fuel size overlap (end - overlap) unit_length in
    record { start = start; end = end } ∷ (if leb unit_length end then [] else rest)

-- The pieces of a unit in its windows.
unfoldable pub unit_pieces : List ℕ → List Span → List (List ℕ)
unit_pieces unit [] = []
unit_pieces unit (s ∷ spans) = strip (slice unit s.start s.end) ∷ unit_pieces unit spans

-- `chunks.append(current.strip())`, if there is a current chunk.
abbrev pub flushed : List ℕ → List (List ℕ)
flushed [] = []
flushed (c ∷ current) = strip (c ∷ current) ∷ []

-- A text before a unit, with a space between them.
abbrev pub joined_text : List ℕ → List ℕ → List ℕ
joined_text [] unit = unit
joined_text (c ∷ current) unit = strip ((c ∷ current) ++ 32 ∷ unit)

-- `current[-overlap:].strip()`.
unfoldable pub overlap_tail : ℕ → List ℕ → List ℕ
overlap_tail overlap current =
    if overlap == 0 then [] else strip (drop (length current - overlap) current)

-- The loop over the units, from the current chunk on.
unfoldable pub pack_units : ℕ → ℕ → List ℕ → List (List ℕ) → List (List ℕ)
pack_units size overlap current [] = flushed current
pack_units size overlap current (unit ∷ units) =
    let next_text = joined_text current unit in
    let after_long = pack_units size overlap [] units in
    let after_fit = pack_units size overlap next_text units in
    let after_full =
      pack_units size overlap (joined_text (overlap_tail overlap current) unit) units in
    if ltb size (length unit)
    then flushed current
      ++ (unit_pieces unit (unit_windows (length unit) size overlap 0 (length unit)) ++ after_long)
    else if leb (length next_text) size
    then after_fit
    else flushed current ++ after_full

-- `_chunk_text`, of the units of a text; none is its ValueError.
unfoldable pub chunk_text : ℕ → ℕ → List (List ℕ) → Option (List (List ℕ))
chunk_text size overlap units =
    if leb size overlap then none else some (pack_units size overlap [] units)
