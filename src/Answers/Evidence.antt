-- ===== src/Answers/Evidence.antt =====
-- The evidence and the citations of an answer are those of its chunks.
use zhiyan_personal_academic.Prelude.{
  refl, [], ◌∷◌, ◌++◌, ◌≡◌, ℕ, zero, suc, ◌+◌, ◌-◌, ◌*◌, ◌/◌, ◌%◌, ◌≤◌, ◌<◌, List, inl, inr, arith,
  ltb, Bool-cases,
}
use zhiyan_personal_academic.Answers.Builder.{
  Text, RetrievedChunk, Evidence, Citation, AnswerTexts, decimal, three_digits, evidence_from,
  citations_from, build_answer,
}

-- The number that decimal digits write, after those of a number before them.
unfoldable pub value_of : ℕ → Text → ℕ
value_of before [] = before
value_of before (d ∷ digits) = value_of (before * 10 + (d - 48)) digits

value_of-snoc :
    (before d : ℕ) (digits : Text)
    → value_of before (digits ++ d ∷ []) ≡ value_of before digits * 10 + (d - 48)
unfolding value_of
value_of-snoc before d [] = refl
value_of-snoc before d (e ∷ digits) = value_of-snoc (before * 10 + (e - 48)) d digits

value_of-decimal : (fuel n : ℕ) → n < fuel → value_of 0 (decimal fuel n) ≡ n
unfolding decimal value_of
value_of-decimal zero n h = absurd (omega (arith, h))
value_of-decimal (suc fuel) n h = elim (Bool-cases (ltb n 10)) [
  | inl small ↦ rw small (omega arith)
  | inr large ↦
      let big : 10 ≤ n = ground arith in
      let front = value_of-decimal fuel (n / 10) (omega (arith, h, big)) in
      rw (large, value_of-snoc 0 (48 + n % 10) (decimal fuel (n / 10)), front) (omega arith)
]

value_of-three_digits : (n : ℕ) → value_of 0 (three_digits n) ≡ n
unfolding three_digits value_of
value_of-three_digits n =
    let plain = value_of-decimal (suc n) n (omega arith) in
    elim (Bool-cases (ltb n 10)) [
      | inl one ↦ rw one plain
      | inr more ↦ elim (Bool-cases (ltb n 100)) [
        | inl two ↦ rw (more, two) plain
        | inr three ↦ rw (more, three) plain
      ]
    ]

abbrev skip : ℕ → Text → Text
skip zero t = t
skip (suc n) [] = []
skip (suc n) (c ∷ t) = skip n t

-- The position that an identifier of evidence or of a citation names, after nine letters.
unfoldable pub position_of : Text → ℕ
position_of id = value_of 0 (skip 9 id)

-- The evidence of a chunk, at a position.
pub record IsEvidence (position : ℕ) (c : RetrievedChunk) (e : Evidence) : Type 0 where
  pub at_position : position_of e.evidence_id ≡ position
  pub of_chunk : e.chunk_id ≡ c.chunk_id
  pub of_document : e.document_id ≡ c.document_id
  pub of_version : e.version_id ≡ c.version_id
  pub of_section : e.section_path ≡ c.section_path
  pub from_page : e.page_start ≡ c.page_start
  pub to_page : e.page_end ≡ c.page_end
  pub quoted : e.quote ≡ c.text

-- A citation of that evidence.
pub record Cites (position : ℕ) (e : Evidence) (t : Citation) : Type 0 where
  pub at_position : position_of t.citation_id ≡ position
  pub of_evidence : t.evidence_id ≡ e.evidence_id
  pub of_document : t.document_id ≡ e.document_id
  pub from_page : t.page_start ≡ e.page_start
  pub to_page : t.page_end ≡ e.page_end

-- One evidence and one citation for each chunk, in their order, from a position on.
abbrev pub Aligned : ℕ → List RetrievedChunk → List Evidence → List Citation → Type 0
Aligned position [] [] [] = Unit
Aligned position (c ∷ cs) (e ∷ es) (t ∷ ts) =
    IsEvidence position c e × Cites position e t × Aligned (position + 1) cs es ts
Aligned position _ _ _ = ⊥

evidence-Aligned :
    (position : ℕ) (cs : List RetrievedChunk)
    → Aligned position cs (evidence_from position cs) (citations_from position cs)
unfolding evidence_from citations_from position_of
evidence-Aligned position [] = tt
evidence-Aligned position (c ∷ cs) = (
  record {
    at_position = value_of-three_digits position;
    of_chunk = refl;
    of_document = refl;
    of_version = refl;
    of_section = refl;
    from_page = refl;
    to_page = refl;
    quoted = refl;
  },
  record {
    at_position = value_of-three_digits position;
    of_evidence = refl;
    of_document = refl;
    from_page = refl;
    to_page = refl;
  },
  evidence-Aligned (position + 1) cs,
)

-- An answer has one evidence and one citation for each chunk that it is built from, in their order,
-- and no other: the evidence quotes the chunk's text as it is, with its identities, section and
-- pages, the citation refers to that evidence, and the identifiers of both, read back, name the
-- place of the chunk, from 1 on.
pub build_answer-Aligned :
    (digest : Text → Text) (texts : AnswerTexts) (question scope boundary : Text)
    → (cs : List RetrievedChunk)
    → let a = build_answer digest texts question scope boundary cs in
      Aligned 1 cs a.evidence a.citations
unfolding build_answer
build_answer-Aligned digest texts question scope boundary [] = tt
build_answer-Aligned digest texts question scope boundary (c ∷ cs) = evidence-Aligned 1 (c ∷ cs)
