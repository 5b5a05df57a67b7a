-- ===== src/Ingestion/Splitter/Units.antt =====
-- The atomic spans of a section are in order, and the windows of a sentence tile it.
use zhiyan_personal_academic.Prelude.{
  refl, [], ◌∷◌, ◌++◌, ◌≡◌, ℕ, zero, suc, ◌+◌, ◌-◌, ◌≤◌, ◌<◌, List, All, length, inl, inr, arith,
  ltb, leb, min, Bool-cases, is_blank, ltb→lt,
}
use zhiyan_personal_academic.Ingestion.Splitter.{Span, SplitConfig, span_length, group_units}
use zhiyan_personal_academic.Ingestion.Splitter.Atomic.{
  slice, kept_span, spans_at, windows, sentence_units, paragraph_units, end_at, start_at,
  atomic_spans,
}
use zhiyan_personal_academic.Ingestion.Splitter.Laws.{
  InOrder, Fits, IsCovered, group_units-IsCovered,
}

-- Spans in order, from a place of the text to another.
abbrev pub Chain : ℕ → ℕ → List Span → Type 0
Chain lo hi [] = lo ≤ hi
Chain lo hi (u ∷ us) = (lo ≤ u.start) × (u.start ≤ u.end) × Chain u.end hi us

-- The same without gaps.
abbrev pub Tiles : ℕ → ℕ → List Span → Type 0
Tiles lo hi [] = lo ≡ hi
Tiles lo hi (u ∷ us) = (u.start ≡ lo) × (u.start < u.end) × Tiles u.end hi us

-- Places of the text in order, in a range.
abbrev pub Places : ℕ → ℕ → List ℕ → Type 0
Places lo hi [] = lo ≤ hi
Places lo hi (b ∷ bs) = (lo ≤ b) × Places b hi bs

Chain-append :
    (lo mid hi : ℕ) (us vs : List Span) → Chain lo mid us → Chain mid hi vs → Chain lo hi (us ++ vs)
Chain-append lo mid hi [] [] h k = omega (arith, h, k)
Chain-append lo mid hi [] (v ∷ vs) h k = (omega (arith, h, k.0), k.1, k.2)
Chain-append lo mid hi (u ∷ us) vs h k = (h.0, h.1, Chain-append u.end mid hi us vs h.2 k)

Chain-after : (lo hi x : ℕ) (us : List Span) → x ≤ lo → Chain lo hi us → All (λ v. x ≤ v.start) us
Chain-after lo hi x [] h c = tt
Chain-after lo hi x (u ∷ us) h c =
    (omega (arith, h, c.0), Chain-after u.end hi x us (omega (arith, h, c.0, c.1)) c.2)

pub Chain-InOrder : (lo hi : ℕ) (us : List Span) → Chain lo hi us → InOrder us
Chain-InOrder lo hi [] c = tt
Chain-InOrder lo hi (u ∷ us) c =
    (c.1, Chain-after u.end hi u.end us (omega arith) c.2, Chain-InOrder u.end hi us c.2)

kept_span-Chain : (text : List ℕ) (lo hi : ℕ) → lo ≤ hi → Chain lo hi (kept_span text lo hi)
unfolding kept_span
kept_span-Chain text lo hi h = elim (Bool-cases (is_blank (slice text lo hi))) [
  | inl blank ↦ rw blank h
  | inr some' ↦ rw some' (omega arith, h, omega arith)
]

spans_at-Chain :
    (text : List ℕ) (lo hi : ℕ) (bs : List ℕ)
    → Places lo hi bs
    → Chain lo hi (spans_at text lo hi bs)
unfolding spans_at
spans_at-Chain text lo hi [] h = kept_span-Chain text lo hi h
spans_at-Chain text lo hi (b ∷ bs) h =
    Chain-append lo b hi (kept_span text lo b) (spans_at text b hi bs)
      (kept_span-Chain text lo b h.0) (spans_at-Chain text b hi bs h.1)

-- As many windows as the sentence has characters tile it, where a window has one at least.
pub windows-Tiles :
    (fuel max_chars lo hi : ℕ)
    → 1 ≤ max_chars
    → lo ≤ hi
    → hi - lo ≤ fuel
    → Tiles lo hi (windows fuel max_chars lo hi)
unfolding windows
windows-Tiles zero m lo hi one h f = omega (arith, h, f)
windows-Tiles (suc fuel) m lo hi one h f = elim (Bool-cases (ltb lo hi)) [
  | inl more ↦
      let less : lo < hi = ltb→lt lo hi more in
      rw more (
        refl,
        omega (arith, less, one),
        windows-Tiles fuel m (min (lo + m) hi) hi one (omega arith) (omega (arith, less, one, f)),
      )
  | inr done ↦ let no_less : hi ≤ lo = ground arith in rw done (omega (arith, no_less, h))
]

Tiles-Chain : (lo hi : ℕ) (us : List Span) → Tiles lo hi us → Chain lo hi us
Tiles-Chain lo hi [] h = omega (arith, h)
Tiles-Chain lo hi (u ∷ us) h = (omega (arith, h.0), omega (arith, h.1), Tiles-Chain u.end hi us h.2)

-- No window is longer than the maximum.
pub windows-Fits : (fuel max_chars lo hi : ℕ) → All (Fits max_chars) (windows fuel max_chars lo hi)
unfolding windows
windows-Fits zero m lo hi = tt
windows-Fits (suc fuel) m lo hi = elim (Bool-cases (ltb lo hi)) [
  | inl more ↦ rw more (omega arith, windows-Fits fuel m (min (lo + m) hi) hi)
  | inr done ↦ rw done tt
]

-- The matches of a pattern in a range: their ends are in order, and in the range.
abbrev pub Matches : (ℕ → ℕ → List ℕ) → Type 0
Matches ends = (lo hi : ℕ) → lo ≤ hi → Places lo hi (ends lo hi)

sentence_units-Chain :
    (m lo hi : ℕ) (ss : List Span) → 1 ≤ m → Chain lo hi ss → Chain lo hi (sentence_units m ss)
unfolding sentence_units
sentence_units-Chain m lo hi [] one c = c
sentence_units-Chain m lo hi (s ∷ ss) one c =
    let rest = sentence_units-Chain m s.end hi ss one c.2 in
    let tiles =
      Tiles-Chain s.start s.end (windows (span_length s) m s.start s.end)
        (windows-Tiles (span_length s) m s.start s.end one c.1 (omega arith)) in
    elim (Bool-cases (leb (span_length s) m)) [
      | inl short ↦ rw short (c.0, c.1, rest)
      | inr long ↦ rw long (
          Chain-append lo s.end hi (windows (span_length s) m s.start s.end) (sentence_units m ss)
            (Chain-append lo s.start s.end [] (windows (span_length s) m s.start s.end) c.0 tiles)
            rest)
    ]

module _ (sentence_ends : ℕ → ℕ → List ℕ) (text : List ℕ) where
  paragraph_units-Chain :
      (m lo hi : ℕ) (ps : List Span)
      → 1 ≤ m
      → Matches sentence_ends
      → Chain lo hi ps
      → Chain lo hi (paragraph_units sentence_ends text m ps)
  unfolding paragraph_units
  paragraph_units-Chain m lo hi [] one f c = c
  paragraph_units-Chain m lo hi (p ∷ ps) one f c =
      let rest = paragraph_units-Chain m p.end hi ps one f c.2 in
      let sentences : List Span = spans_at text p.start p.end (sentence_ends p.start p.end) in
      let inner =
        sentence_units-Chain m p.start p.end sentences one
          (spans_at-Chain text p.start p.end (sentence_ends p.start p.end) (f p.start p.end c.1)) in
      elim (Bool-cases (leb (span_length p) m)) [
        | inl short ↦ rw short (c.0, c.1, rest)
        | inr long ↦ rw long (
            Chain-append lo p.end hi (sentence_units m sentences)
              (paragraph_units sentence_ends text m ps)
              (Chain-append lo p.start p.end [] (sentence_units m sentences) c.0 inner) rest)
      ]

  start_at-Chain : (lo hi : ℕ) (us : List Span) → Chain lo hi us → Chain lo hi (start_at lo us)
  unfolding start_at
  start_at-Chain lo hi [] c = c
  start_at-Chain lo hi (u ∷ us) c = (omega arith, omega (arith, c.0, c.1), c.2)

  end_at-Chain : (lo hi : ℕ) (us : List Span) → Chain lo hi us → Chain lo hi (end_at hi us)
  unfolding end_at
  end_at-Chain lo hi [] c = c
  end_at-Chain lo hi (u ∷ []) c = (c.0, omega (arith, c.1, c.2), omega arith)
  end_at-Chain lo hi (u ∷ v ∷ us) c = (c.0, c.1, end_at-Chain u.end hi (v ∷ us) c.2)

  -- The atomic spans of a section are in order and in the section, and the grouping of them, with as
  -- many rounds as there are spans, ends with every one of them in a chunk. The maximum is positive,
  -- and the matches of each pattern in a range of the text are in order and in the range.
  pub atomic_spans-IsCovered :
      (paragraph_ends : ℕ → ℕ → List ℕ) (section : Span) (config : SplitConfig)
      → Matches paragraph_ends
      → Matches sentence_ends
      → section.start ≤ section.end
      → 1 ≤ config.max_chars
      → let units = atomic_spans paragraph_ends sentence_ends text section config.max_chars in
        Chain section.start section.end units
        × All (IsCovered (group_units config (length units) units)) units
  unfolding atomic_spans
  atomic_spans-IsCovered paragraph_ends section config ps ss h one =
      let paragraphs : List Span =
        spans_at text section.start section.end (paragraph_ends section.start section.end) in
      let parts : List Span = paragraph_units sentence_ends text config.max_chars paragraphs in
      let chain =
        paragraph_units-Chain config.max_chars section.start section.end paragraphs one ss (
          spans_at-Chain text section.start section.end (paragraph_ends section.start section.end)
            (ps section.start section.end h)) in
      let whole =
        end_at-Chain section.start section.end (start_at section.start parts)
          (start_at-Chain section.start section.end parts chain) in
      let units : List Span = end_at section.end (start_at section.start parts) in
      (
        whole,
        group_units-IsCovered config (length units) units (omega arith)
            (Chain-InOrder section.start section.end units whole),
      )
