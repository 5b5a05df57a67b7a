-- ===== src/Ingestion/Splitter.antt =====
-- backend/ingestion/splitter.py: the grouping of atomic spans into chunks. The units from the index
-- on are a list, so an index is a number of units from its first one. Ends are not before starts,
-- where lengths are subtracted.
pub mod Atomic
pub mod Laws
pub mod Units
pub mod Sections
pub mod Fixed
pub mod Packing
use zhiyan_personal_academic.Prelude.{
  ℕ, zero, suc, ◌+◌, ◌-◌, Bool, true, false, ◌&&◌, List, [], ◌∷◌, if◌then◌else◌, ltb, leb, max,
  length,
}

pub record Span : Type 0 where
  pub start : ℕ
  pub end : ℕ

abbrev pub span_length : Span → ℕ
span_length s = s.end - s.start

pub record SplitConfig : Type 0 where
  pub target_chars : ℕ
  pub max_chars : ℕ
  pub overlap_target_chars : ℕ

-- `abs(a - b)`.
abbrev pub distance : ℕ → ℕ → ℕ
distance a b = (a - b) + (b - a)

abbrev pub drop : {A : Type 0} → ℕ → List A → List A
drop zero xs = xs
drop (suc n) [] = []
drop (suc n) (x ∷ xs) = drop n xs

-- The unit `n` places after `u`.
abbrev pub unit_at : Span → ℕ → List Span → Span
unit_at u zero rest = u
unit_at u (suc n) [] = u
unit_at u (suc n) (v ∷ vs) = unit_at v n vs

-- The first loop: how many units after the first one end within the target.
unfoldable pub reach : ℕ → ℕ → List Span → ℕ
reach start target [] = 0
reach start target (v ∷ vs) =
    let more = reach start target vs in if leb (v.end - start) target then suc more else 0

-- One more unit, if that is allowed and brings the end no further from the target.
unfoldable pub one_more : SplitConfig → ℕ → ℕ → ℕ → List Span → ℕ
one_more config start end n [] = n
one_more config start end n (v ∷ vs) =
    if leb (v.end - start) config.max_chars
      && leb (distance (v.end - start) config.target_chars)
          (distance (end - start) config.target_chars)
    then suc n
    else n

-- `stop - 1`, from the index on.
unfoldable pub last_place : SplitConfig → Span → List Span → ℕ
last_place config u rest =
    let n = reach u.start config.target_chars rest in
    one_more config u.start (unit_at u n rest).end n (drop n rest)

-- The last loop: back from `stop - 1` while the overlap is too short.
unfoldable pub overlap_place : ℕ → ℕ → Span → List Span → ℕ → ℕ
overlap_place end overlap u rest zero = zero
overlap_place end overlap u rest (suc k) =
    let back = overlap_place end overlap u rest k in
    if ltb (end - (unit_at u (suc k) rest).start) overlap then back else suc k

-- The next index, from this one on, where `v` is the unit at `stop`.
unfoldable pub next_place : SplitConfig → Span → List Span → ℕ → Span → ℕ
next_place config u rest n v =
    if ltb config.max_chars (span_length v + config.overlap_target_chars)
    then suc n
    else max 1 (overlap_place (unit_at u n rest).end config.overlap_target_chars u rest n)

abbrev pub first_chunk : SplitConfig → Span → List Span → Span
first_chunk config u rest = record {
  start = u.start;
  end = (unit_at u (last_place config u rest) rest).end;
}

-- What is left after the chunk that starts at `u`: nothing, if it ends with the last unit.
unfoldable pub after_chunk : SplitConfig → Span → List Span → ℕ → List Span → List Span
after_chunk config u rest n [] = []
after_chunk config u rest n (v ∷ vs) = drop (next_place config u rest n v) (u ∷ rest)

-- `_group_units`, with fuel for the rounds of its loop.
unfoldable pub group_units : SplitConfig → ℕ → List Span → List Span
group_units config zero units = []
group_units config (suc fuel) [] = []
group_units config (suc fuel) (u ∷ rest) =
    let n = last_place config u rest in
    first_chunk config u rest ∷ group_units config fuel (after_chunk config u rest n (drop n rest))
