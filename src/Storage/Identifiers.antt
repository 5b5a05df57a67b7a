-- ===== src/Storage/Identifiers.antt =====
-- backend/storage/postgres.py: the pattern of a contract identifier, over the code points of a text.
use zhiyan_personal_academic.Prelude.{
  codes, ℕ, String, Bool, false, ◌&&◌, ◌||◌, List, [], ◌∷◌, leb, ◌==◌, all, length,
}

-- [A-Za-z0-9]
unfoldable pub is_alphanumeric : ℕ → Bool
is_alphanumeric c =
    (leb b'A' c && leb c b'Z') || (leb b'a' c && leb c b'z') || (leb b'0' c && leb c b'9')

-- [A-Za-z0-9._:-]
unfoldable pub is_identifier_code : ℕ → Bool
is_identifier_code c = is_alphanumeric c || c == b'.' || c == b'_' || c == b':' || c == b'-'

-- ^[A-Za-z0-9][A-Za-z0-9._:-]{0,127}$ as a full match.
unfoldable pub matches_identifier : List ℕ → Bool
matches_identifier [] = false
matches_identifier (c ∷ cs) = is_alphanumeric c && all is_identifier_code cs && leb (length cs) 127

unfoldable pub is_contract_id : String → Bool
is_contract_id s = matches_identifier (codes s)
