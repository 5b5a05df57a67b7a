-- ===== src/Tests/Retrieval.antt =====
-- Rankings fused, with natural numbers for scores, and the properties of the fusion at them.
use zhiyan_personal_academic.Prelude.{
  refl, [], ◌∷◌, ◌≡◌, ◌++◌, ◌⊎◌, true, false, ℕ, ◌+◌, ◌/◌, Bool, List, String, ltb, none, arith,
  All, ◌=ᵗ◌, has_duplicates, find_where, update_where, sort_by, insert_by, codes_before,
  text_before,
}
use zhiyan_personal_academic.Retrieval.Results.{
  Chunk, RankedChunk, candidate_error, matches_backend, validate_ranking, ranks_from, chunks_only,
}
use zhiyan_personal_academic.Retrieval.Fusion.{
  Scores, found, failed, fuse_remote, own_backend_error, payloads_disagree, fuse_local,
  note_candidates, disagrees, note, first_error, fused_candidates, fused_before,
}
use zhiyan_personal_academic.Retrieval.Fusion.Contract.{IsFusion, IsCandidate, chunks_of}
use zhiyan_personal_academic.Retrieval.Fusion.Remote.{
  fuse_remote-IsFusion, fuse_remote-cases, agree,
}
use zhiyan_personal_academic.Retrieval.Fusion.Local.{fuse_remote-fuse_local}
use zhiyan_personal_academic.Storage.Identifiers.{is_alphanumeric, is_identifier_code}

below_asymm : (a b : ℕ) → ltb b a ≡ true → ltb a b ≡ false
below_asymm a b h = ground arith

below_cotrans : (a b c : ℕ) → ltb c a ≡ true → (ltb b a ≡ true) ⊎ (ltb c b ≡ true)
below_cotrans a b c h = ground arith

-- Millionths, which add and compare as the floats do.
abbrev millionths : Scores
millionths = record {
  Score = ℕ;
  zero_score = 0;
  plus = λ a b. a + b;
  reciprocal = λ n. 1000000 / n;
  above = λ a b. ltb b a;
  is_finite = λ a. true;
  above_asymm = below_asymm;
  above_cotrans = below_cotrans;
  zero_is_finite = refl;
  plus_is_finite = λ a n h k. refl;
}

abbrev chunk : String → String → Chunk String
chunk id text = record { chunk_id = id; document_id = "d"; payload = text }

abbrev candidate : String → ℕ → Chunk String → RankedChunk ℕ String
candidate backend rank c = record { backend = backend; rank = rank; score = 7; chunk = c }

abbrev lexical_ranking : List (RankedChunk ℕ String)
lexical_ranking = candidate "bm25" 1 (chunk "a" "x") ∷ candidate "bm25" 2 (chunk "b" "y") ∷ []

abbrev vector_ranking : List (RankedChunk ℕ String)
vector_ranking = candidate "dense" 1 (chunk "b" "y") ∷ candidate "dense" 2 (chunk "c" "z") ∷ []

abbrev texts_equal : String → String → Bool
texts_equal s t = s =ᵗ t

candidates-IsCandidate : All (IsCandidate millionths) (lexical_ranking ++ vector_ranking)
unfolding candidate_error matches_backend is_alphanumeric is_identifier_code
candidates-IsCandidate = (refl, (refl, (refl, (refl, tt))))

lexical_valid : own_backend_error millionths lexical_ranking ≡ none
unfolding own_backend_error validate_ranking ranks_from has_duplicates
lexical_valid = refl

vector_valid : own_backend_error millionths vector_ranking ≡ none
unfolding own_backend_error validate_ranking ranks_from has_duplicates
vector_valid = refl

texts_agree : agree texts_equal (chunks_of (lexical_ranking ++ vector_ranking)) ≡ true
texts_agree = refl

fuse_remote-IsFusion_example :
    (r : List (RankedChunk ℕ String)) × (fuse_remote millionths texts_equal 60 2 lexical_ranking
        vector_ranking
      ≡ found r)
    × IsFusion millionths 60 2 (lexical_ranking ++ vector_ranking) r
fuse_remote-IsFusion_example =
    fuse_remote-IsFusion millionths texts_equal 60 2 lexical_ranking vector_ranking
      candidates-IsCandidate lexical_valid vector_valid texts_agree

fuse_remote-cases_example :
    (fuse_remote millionths texts_equal 60 2 lexical_ranking vector_ranking
      ≡ failed payloads_disagree)
    ⊎ ((r : List (RankedChunk ℕ String)) × (fuse_remote millionths texts_equal 60 2 lexical_ranking
            vector_ranking
          ≡ found r)
        × IsFusion millionths 60 2 (lexical_ranking ++ vector_ranking) r)
fuse_remote-cases_example =
    fuse_remote-cases millionths texts_equal 60 2 lexical_ranking vector_ranking
      candidates-IsCandidate lexical_valid vector_valid

-- `b` is in both rankings.
abbrev fused_ranking : List (RankedChunk ℕ String)
fused_ranking =
    record {
      backend = "remote_rrf_elasticsearch_milvus_v1";
      rank = 1;
      score = 32522;
      chunk = chunk "b" "y";
    }
    ∷ record {
      backend = "remote_rrf_elasticsearch_milvus_v1";
      rank = 2;
      score = 16393;
      chunk = chunk "a" "x";
    }
    ∷ []

fused : fuse_remote millionths texts_equal 60 2 lexical_ranking vector_ranking ≡ found fused_ranking
unfolding fuse_remote own_backend_error validate_ranking ranks_from has_duplicates note_candidates
    disagrees find_where note update_where first_error fused_candidates sort_by insert_by
    fused_before candidate_error matches_backend is_alphanumeric is_identifier_code codes_before
    text_before
fused = refl

fuse_remote-fuse_local_example :
    chunks_only fused_ranking
    ≡ fuse_local millionths 60 2 (chunks_of lexical_ranking) (chunks_of vector_ranking)
fuse_remote-fuse_local_example =
    fuse_remote-fuse_local millionths texts_equal 60 2 lexical_ranking vector_ranking
      candidates-IsCandidate lexical_valid vector_valid texts_agree fused_ranking fused
