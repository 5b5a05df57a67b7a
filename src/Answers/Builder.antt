-- ===== src/Answers/Builder.antt =====
-- backend/rag/answer_builder.py: an answer from the chunks that were retrieved. The digest of a
-- request is a parameter.
use zhiyan_personal_academic.Prelude.{
  [], ◌∷◌, ◌++◌, ℕ, zero, suc, ◌+◌, ◌/◌, ◌%◌, List, String, codes, ltb, if◌then◌else◌, strip,
}

abbrev pub Text : Type 0
Text = List ℕ

-- What an answer takes of a chunk.
pub record RetrievedChunk : Type 0 where
  pub chunk_id : String
  pub document_id : String
  pub version_id : String
  pub section_path : Text
  pub page_start : ℕ
  pub page_end : ℕ
  pub text : Text

pub record Evidence : Type 0 where
  pub evidence_id : Text
  pub chunk_id : String
  pub document_id : String
  pub version_id : String
  pub section_path : Text
  pub page_start : ℕ
  pub page_end : ℕ
  pub quote : Text

pub record Citation : Type 0 where
  pub citation_id : Text
  pub evidence_id : Text
  pub document_id : String
  pub page_start : ℕ
  pub page_end : ℕ

pub data AnswerStatus : Type 0 where
  no_evidence completed : AnswerStatus

pub record Answer : Type 0 where
  pub request_id : Text
  pub trace_id : Text
  pub status : AnswerStatus
  pub answer : Text
  pub evidence : List Evidence
  pub citations : List Citation
  pub warnings : List Text

-- The decimal digits of a number, with fuel for their count.
unfoldable pub decimal : ℕ → ℕ → Text
decimal zero n = []
decimal (suc fuel) n =
    let front = decimal fuel (n / 10) in
    if ltb n 10 then (48 + n) ∷ [] else front ++ (48 + n % 10) ∷ []

-- `f"{n:03d}"`.
unfoldable pub three_digits : ℕ → Text
three_digits n =
    (if ltb n 10 then 48 ∷ 48 ∷ [] else if ltb n 100 then 48 ∷ [] else []) ++ decimal (suc n) n

abbrev pub evidence_name : ℕ → Text
evidence_name position = codes "evidence_" ++ three_digits position

abbrev pub citation_name : ℕ → Text
citation_name position = codes "citation_" ++ three_digits position

-- `request_identity`, with the digest of the joined text, cut to twenty digits.
unfoldable pub request_identity : (Text → Text) → Text → Text → Text → Text × Text
request_identity digest question canonical_scope execution_boundary =
    let d = digest (execution_boundary ++ 10 ∷ (strip question ++ 10 ∷ canonical_scope)) in
    (codes "request_" ++ d, codes "trace_" ++ d)

abbrev pub evidence_at : ℕ → RetrievedChunk → Evidence
evidence_at position chunk = record {
  evidence_id = evidence_name position;
  chunk_id = chunk.chunk_id;
  document_id = chunk.document_id;
  version_id = chunk.version_id;
  section_path = chunk.section_path;
  page_start = chunk.page_start;
  page_end = chunk.page_end;
  quote = chunk.text;
}

abbrev pub citation_at : ℕ → RetrievedChunk → Citation
citation_at position chunk = record {
  citation_id = citation_name position;
  evidence_id = evidence_name position;
  document_id = chunk.document_id;
  page_start = chunk.page_start;
  page_end = chunk.page_end;
}

-- `enumerate(chunks, start=1)`, for the evidence.
unfoldable pub evidence_from : ℕ → List RetrievedChunk → List Evidence
evidence_from position [] = []
evidence_from position (chunk ∷ chunks) =
    evidence_at position chunk ∷ evidence_from (position + 1) chunks

unfoldable pub citations_from : ℕ → List RetrievedChunk → List Citation
citations_from position [] = []
citations_from position (chunk ∷ chunks) =
    citation_at position chunk ∷ citations_from (position + 1) chunks

-- `f"{chunk['text']} [{position}]"`.
abbrev pub answer_part : ℕ → RetrievedChunk → Text
answer_part position chunk = chunk.text ++ (32 ∷ 91 ∷ (decimal (suc position) position ++ 93 ∷ []))

-- `" ".join(answer_parts)`.
unfoldable pub parts_from : ℕ → List RetrievedChunk → Text
parts_from position [] = []
parts_from position (chunk ∷ []) = answer_part position chunk
parts_from position (chunk ∷ next ∷ chunks) =
    answer_part position chunk ++ 32 ∷ parts_from (position + 1) (next ∷ chunks)

abbrev pub no_evidence_answer : Text
no_evidence_answer = codes "当前授权文献范围内没有足够证据回答该问题。"

pub record AnswerTexts : Type 0 where
  pub completed_warning : Text
  pub no_evidence_warning : Text
  pub answer_prefix : Text

-- `build_answer`.
unfoldable pub build_answer :
    (Text → Text) → AnswerTexts → Text → Text → Text → List RetrievedChunk → Answer
build_answer digest texts question canonical_scope execution_boundary [] =
    let ids = request_identity digest question canonical_scope execution_boundary in
    record {
      request_id = ids.0;
      trace_id = ids.1;
      status = no_evidence;
      answer = no_evidence_answer;
      evidence = [];
      citations = [];
      warnings = texts.no_evidence_warning ∷ [];
    }
build_answer digest texts question canonical_scope execution_boundary (chunk ∷ chunks) =
    let ids = request_identity digest question canonical_scope execution_boundary in
    record {
      request_id = ids.0;
      trace_id = ids.1;
      status = completed;
      answer = texts.answer_prefix ++ parts_from 1 (chunk ∷ chunks);
      evidence = evidence_from 1 (chunk ∷ chunks);
      citations = citations_from 1 (chunk ∷ chunks);
      warnings = texts.completed_warning ∷ [];
    }
