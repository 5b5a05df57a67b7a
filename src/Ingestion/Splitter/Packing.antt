-- ===== src/Ingestion/Splitter/Packing.antt =====
-- The chunks of `_chunk_text` are bounded, and the windows of a long unit reach its end.
use zhiyan_personal_academic.Prelude.{
  refl, [], ◌∷◌, ◌++◌, ◌≡◌, ℕ, zero, suc, ◌+◌, ◌-◌, ◌≤◌, ◌<◌, List, none, some, All, length, inl,
  inr, arith, ltb, leb, ◌==◌, min, strip, strip_left, strip_right, is_space, is_blank, Bool-cases,
  length-append, All-append, length-take, leb→le, some-cancel, subst,
}
use zhiyan_personal_academic.Ingestion.Splitter.{Span, drop}
use zhiyan_personal_academic.Ingestion.Splitter.Atomic.{slice}
use zhiyan_personal_academic.Ingestion.Splitter.Laws.{length-drop}
use zhiyan_personal_academic.Ingestion.Splitter.Fixed.{
  unit_windows, unit_pieces, flushed, joined_text, overlap_tail, pack_units, chunk_text,
}

-- Windows from a place on that leave no gap, start one after the other, and end with the unit.
abbrev pub Reaches : ℕ → ℕ → List Span → Type 0
Reaches lo hi [] = lo ≡ hi
Reaches lo hi (s ∷ []) = (s.start ≡ lo) × (s.end ≡ hi)
Reaches lo hi (s ∷ t ∷ spans) =
    (s.start ≡ lo) × (lo < t.start) × (t.start ≤ s.end) × Reaches t.start hi (t ∷ spans)

abbrev pub Short : ℕ → List ℕ → Type 0
Short n s = length s ≤ n

strip_left-Short : (s : List ℕ) → length (strip_left s) ≤ length s
unfolding strip_left
strip_left-Short [] = omega arith
strip_left-Short (c ∷ cs) = elim (Bool-cases (is_space c)) [
  | inl space ↦ rw space (omega (arith, strip_left-Short cs))
  | inr other ↦ rw other (omega arith)
]

strip_right-Short : (s : List ℕ) → length (strip_right s) ≤ length s
unfolding strip_right
strip_right-Short [] = omega arith
strip_right-Short (c ∷ cs) = elim (Bool-cases (is_blank (c ∷ cs))) [
  | inl blank ↦ rw blank (omega arith)
  | inr other ↦ rw other (omega (arith, strip_right-Short cs))
]

strip-Short : (s : List ℕ) → length (strip s) ≤ length s
strip-Short s = omega (arith, strip_left-Short s, strip_right-Short (strip_left s))

flushed-Short : (n : ℕ) (s : List ℕ) → Short n s → All (Short n) (flushed s)
flushed-Short n [] h = tt
flushed-Short n (c ∷ s) h = (omega (arith, h, strip-Short (c ∷ s)), tt)

joined_text-Short :
    (m n : ℕ) (s unit : List ℕ) → Short m s → Short n unit → Short (m + 1 + n) (joined_text s unit)
joined_text-Short m n [] unit h k = omega (arith, k)
joined_text-Short m n (c ∷ s) unit h k =
    omega (arith, h, k, strip-Short ((c ∷ s) ++ 32 ∷ unit), length-append (c ∷ s) (32 ∷ unit))

overlap_tail-Short : (n : ℕ) (s : List ℕ) → Short n (overlap_tail n s)
unfolding overlap_tail
overlap_tail-Short n s = elim (Bool-cases (n == 0)) [
  | inl none' ↦ rw none' (omega arith)
  | inr some' ↦
      rw some' (omega (arith, strip-Short (drop (length s - n) s), length-drop (length s - n) s))
]

abbrev FitsWindow : ℕ → Span → Type 0
FitsWindow size s = s.end - s.start ≤ size

unit_windows-FitsWindow :
    (fuel size overlap lo hi : ℕ) → All (FitsWindow size) (unit_windows fuel size overlap lo hi)
unfolding unit_windows
unit_windows-FitsWindow zero size overlap lo hi = tt
unit_windows-FitsWindow (suc fuel) size overlap lo hi =
    let rest = unit_windows-FitsWindow fuel size overlap (min (lo + size) hi - overlap) hi in
    elim (Bool-cases (leb hi (min (lo + size) hi))) [
      | inl done ↦ rw done (omega arith, tt)
      | inr more ↦ rw more (omega arith, rest)
    ]

unit_pieces-Short :
    (size n : ℕ) (unit : List ℕ) (spans : List Span)
    → size ≤ n
    → All (FitsWindow size) spans
    → All (Short n) (unit_pieces unit spans)
unfolding unit_pieces
unit_pieces-Short size n unit [] h a = tt
unit_pieces-Short size n unit (s ∷ spans) h a = (
  omega (
    arith,
    h,
    a.0,
    strip-Short (slice unit s.start s.end),
    length-take (s.end - s.start) (drop s.start unit),
  ),
  unit_pieces-Short size n unit spans h a.1,
)

pack_units-Short :
    (size overlap : ℕ) (current : List ℕ) (units : List (List ℕ))
    → Short (overlap + 1 + size) current
    → All (Short (overlap + 1 + size)) (pack_units size overlap current units)
unfolding pack_units
pack_units-Short size overlap current [] h = flushed-Short (overlap + 1 + size) current h
pack_units-Short size overlap current (unit ∷ units) h =
    let n : ℕ = overlap + 1 + size in
    elim (Bool-cases (ltb size (length unit))) [
      | inl long ↦ rw long (
          All-append (Short n) (flushed current)
            (unit_pieces unit (unit_windows (length unit) size overlap 0 (length unit))
              ++ pack_units size overlap [] units)
            (flushed-Short n current h)
            (All-append (Short n)
              (unit_pieces unit (unit_windows (length unit) size overlap 0 (length unit)))
              (pack_units size overlap [] units)
              (unit_pieces-Short size n unit
                (unit_windows (length unit) size overlap 0 (length unit)) (omega arith)
                (unit_windows-FitsWindow (length unit) size overlap 0 (length unit)))
              (pack_units-Short size overlap [] units (omega arith))))
      | inr short ↦ elim (Bool-cases (leb (length (joined_text current unit)) size)) [
        | inl fits ↦
            let fitting : length (joined_text current unit) ≤ size =
              leb→le (length (joined_text current unit)) size fits in
            rw (short, fits)
              (pack_units-Short size overlap (joined_text current unit) units
                (omega (arith, fitting)))
        | inr full ↦
            let unit_fits : length unit ≤ size = ground arith in
            rw (short, full)
              (All-append (Short n) (flushed current)
                (pack_units size overlap (joined_text (overlap_tail overlap current) unit) units)
                (flushed-Short n current h)
                (pack_units-Short size overlap (joined_text (overlap_tail overlap current) unit)
                  units
                  (joined_text-Short overlap size (overlap_tail overlap current) unit
                    (overlap_tail-Short overlap current) unit_fits)))
      ]
    ]

-- No chunk is longer than the size, the overlap and a space together.
pub chunk_text-Short :
    (size overlap : ℕ) (units chunks : List (List ℕ))
    → chunk_text size overlap units ≡ some chunks
    → All (Short (overlap + 1 + size)) chunks
unfolding chunk_text
chunk_text-Short size overlap units chunks h = elim (Bool-cases (leb size overlap)) [
  | inl bad ↦ let refusal : none ≡ some chunks = rw bad at h in absurd (cc)
  | inr good ↦
      let it : pack_units size overlap [] units ≡ chunks = some-cancel (rw good at h) in
      subst (All (Short (overlap + 1 + size))) it
        (pack_units-Short size overlap [] units (omega arith))
]

-- As many windows as a unit has characters, of a size greater than the overlap, reach the end of the
-- unit: the first starts where asked, each later one starts after the one before and leaves no gap,
-- and the last one ends with the unit.
pub unit_windows-Reaches :
    (fuel size overlap lo hi : ℕ)
    → overlap < size
    → lo < hi
    → hi - lo ≤ fuel
    → Reaches lo hi (unit_windows fuel size overlap lo hi)
unfolding unit_windows
unit_windows-Reaches zero size overlap lo hi o l f = absurd (omega (arith, l, f))
unit_windows-Reaches (suc zero) size overlap lo hi o l f =
    elim (Bool-cases (leb hi (min (lo + size) hi))) [
      | inl done ↦
          let end : hi ≤ min (lo + size) hi = leb→le hi (min (lo + size) hi) done in
          rw done (refl, omega (arith, end))
      | inr more ↦
          let far : min (lo + size) hi < hi = ground arith in absurd (omega (arith, far, o, f))
    ]
unit_windows-Reaches (suc (suc fuel)) size overlap lo hi o l f =
    elim (Bool-cases (leb hi (min (lo + size) hi))) [
      | inl done ↦
          let end : hi ≤ min (lo + size) hi = leb→le hi (min (lo + size) hi) done in
          rw done (refl, omega (arith, end))
      | inr more ↦
          let far : min (lo + size) hi < hi = ground arith in
          let rest =
            unit_windows-Reaches (suc fuel) size overlap (min (lo + size) hi - overlap) hi o
              (omega (arith, far, o)) (omega (arith, far, o, f)) in
          rw more (refl, omega (arith, far, o), omega arith, rest)
    ]
