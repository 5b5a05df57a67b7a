-- ===== src/Tests/Answers.antt =====
-- An answer from two chunks.
use zhiyan_personal_academic.Prelude.{refl, [], ◌∷◌, ◌≡◌, List, String, codes}
use zhiyan_personal_academic.Answers.Builder.{
  Text, RetrievedChunk, AnswerTexts, build_answer, parts_from, decimal,
}
use zhiyan_personal_academic.Answers.Evidence.{Aligned, build_answer-Aligned}

abbrev retrieved : String → String → RetrievedChunk
retrieved id text = record {
  chunk_id = id;
  document_id = "doc";
  version_id = "v1";
  section_path = codes "1. Intro";
  page_start = 1;
  page_end = 2;
  text = codes text;
}

abbrev two_retrieved : List RetrievedChunk
two_retrieved = retrieved "c1" "one" ∷ retrieved "c2" "two" ∷ []

abbrev answer_texts : AnswerTexts
answer_texts = record {
  completed_warning = codes "w";
  no_evidence_warning = codes "n";
  answer_prefix = codes "Found: ";
}

abbrev digest : Text → Text
digest t = codes "d"

answer_text :
    (build_answer digest answer_texts (codes "q") (codes "s") (codes "b") two_retrieved).answer
    ≡ codes "Found: one [1] two [2]"
unfolding build_answer parts_from decimal
answer_text = refl

build_answer-Aligned_example :
    Aligned 1 two_retrieved
      (build_answer digest answer_texts (codes "q") (codes "s") (codes "b") two_retrieved).evidence
      (build_answer digest answer_texts (codes "q") (codes "s") (codes "b") two_retrieved).citations
build_answer-Aligned_example =
    build_answer-Aligned digest answer_texts (codes "q") (codes "s") (codes "b") two_retrieved
