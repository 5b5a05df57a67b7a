-- ===== src/Ingestion/Splitter/Laws.antt =====
-- The chunks of `_group_units` leave no unit out, and are not too long.
use zhiyan_personal_academic.Prelude.{
  refl, [], ◌∷◌, ◌≡◌, sym, ap, subst, ℕ, zero, suc, ◌+◌, ◌-◌, ◌≤◌, List, All, In, take, length, inl,
  inr, arith, ltb, leb, All-map, Bool-cases, ◌&&◌,
}
use zhiyan_personal_academic.Ingestion.Splitter.{
  Span, SplitConfig, span_length, drop, unit_at, reach, one_more, last_place, overlap_place,
  next_place, first_chunk, after_chunk, group_units, distance,
}

-- The units are in the order of the text, and do not overlap.
abbrev pub InOrder : List Span → Type 0
InOrder [] = Unit
InOrder (u ∷ us) = (u.start ≤ u.end) × All (λ v. u.end ≤ v.start) us × InOrder us

abbrev pub Within : Span → Span → Type 0
Within c w = (c.start ≤ w.start) × (w.end ≤ c.end)

abbrev pub IsCovered : List Span → Span → Type 0
IsCovered chunks w = (c : Span) × In c chunks × Within c w

module _ {A : Type 0} where
  pub length-drop : (n : ℕ) (xs : List A) → length (drop n xs) ≤ length xs - n
  length-drop zero xs = omega arith
  length-drop (suc n) [] = omega arith
  length-drop (suc n) (x ∷ xs) = omega (arith, length-drop n xs)

  take-drop-All {κ} :
      (P : A → Type κ) (n : ℕ) (xs : List A) → All P (take n xs) → All P (drop n xs) → All P xs
  take-drop-All P zero xs a b = b
  take-drop-All P (suc n) [] a b = tt
  take-drop-All P (suc n) (x ∷ xs) a b = (a.0, take-drop-All P n xs a.1 b)

  take-All_less {κ} :
      (P : A → Type κ) (m n : ℕ) (xs : List A) → m ≤ n → All P (take n xs) → All P (take m xs)
  take-All_less P zero n xs h a = tt
  take-All_less P (suc m) zero xs h a = absurd (omega arith)
  take-All_less P (suc m) (suc n) [] h a = tt
  take-All_less P (suc m) (suc n) (x ∷ xs) h a = (a.0, take-All_less P m n xs (omega arith) a.1)

InOrder-drop : (n : ℕ) (us : List Span) → InOrder us → InOrder (drop n us)
InOrder-drop zero us o = o
InOrder-drop (suc n) [] o = tt
InOrder-drop (suc n) (u ∷ us) o = InOrder-drop n us o.2

-- The units up to a place are within the span that ends with that place's unit.
Within-first_chunk :
    (n : ℕ) (u : Span) (rest : List Span)
    → InOrder (u ∷ rest)
    → All
        (Within (record { start = u.start; end = (unit_at u n rest).end }))
        (take (suc n) (u ∷ rest))
Within-first_chunk zero u rest o = ((omega arith, omega arith), tt)
Within-first_chunk (suc n) u [] o = ((omega arith, omega arith), tt)
Within-first_chunk (suc n) u (v ∷ vs) o =
    let ih = Within-first_chunk n v vs o.2 in
    let first : u.start ≤ u.end = o.0 in
    let second : u.end ≤ v.start = o.1.0 in
    let third : v.start ≤ v.end = o.2.0 in
    let fourth : v.end ≤ (unit_at v n vs).end = ih.0.1 in
    (
      (omega arith, omega (arith, first, second, third, fourth)),
      All-map (Within (record { start = v.start; end = (unit_at v n vs).end }))
          (Within (record { start = u.start; end = (unit_at v n vs).end })) (take (suc n) (v ∷ vs))
          (λ w i. (omega (arith, first, second, i.0), i.1)) ih,
    )

overlap_place_bound :
    (end overlap : ℕ) (u : Span) (rest : List Span) (k : ℕ) → overlap_place end overlap u rest k ≤ k
unfolding overlap_place
overlap_place_bound end overlap u rest zero = omega arith
overlap_place_bound end overlap u rest (suc k) =
    let ih = overlap_place_bound end overlap u rest k in
    elim (Bool-cases (ltb (end - (unit_at u (suc k) rest).start) overlap)) [
      | inl short ↦ rw short (omega (arith, ih))
      | inr long ↦ rw long (omega arith)
    ]

next_place_bounds :
    (config : SplitConfig) (u : Span) (rest : List Span) (n : ℕ) (v : Span)
    → (1 ≤ next_place config u rest n v) × (next_place config u rest n v ≤ suc n)
unfolding next_place
next_place_bounds config u rest n v =
    let back = overlap_place_bound (unit_at u n rest).end config.overlap_target_chars u rest n in
    elim (Bool-cases (ltb config.max_chars (span_length v + config.overlap_target_chars))) [
      | inl wide ↦ rw wide (omega arith, omega arith)
      | inr fits ↦ rw fits (omega (arith, back), omega (arith, back))
    ]

-- The next round starts after the first unit, and no later than after the chunk.
after_chunk-drop :
    (config : SplitConfig) (u : Span) (rest : List Span) (n : ℕ) (left : List Span)
    → drop n rest ≡ left
    → (m : ℕ) × (1 ≤ m) × (m ≤ suc n) × (after_chunk config u rest n left ≡ drop m (u ∷ rest))
unfolding after_chunk
after_chunk-drop config u rest n [] h = (suc n, omega arith, omega arith, sym h)
after_chunk-drop config u rest n (v ∷ vs) h =
    let (low, high) = next_place_bounds config u rest n v in
    (next_place config u rest n v, low, high, refl)

abbrev further : (c : Span) (cs : List Span) (w : Span) → IsCovered cs w → IsCovered (c ∷ cs) w
further c cs w (d, i, within) = (d, inr i, within)

-- The grouping ends: where the units are in order, as many rounds of its loop as there are units
-- leave no unit out, and every unit lies within one of the chunks.
pub group_units-IsCovered :
    (config : SplitConfig) (fuel : ℕ) (units : List Span)
    → length units ≤ fuel
    → InOrder units
    → All (IsCovered (group_units config fuel units)) units
unfolding group_units
group_units-IsCovered config zero [] h o = tt
group_units-IsCovered config zero (u ∷ rest) h o = absurd (omega (arith, h))
group_units-IsCovered config (suc fuel) [] h o = tt
group_units-IsCovered config (suc fuel) (u ∷ rest) h o =
    let n : ℕ = last_place config u rest in
    let (m, low, high, e) = after_chunk-drop config u rest n (drop n rest) refl in
    let chunks : List Span = group_units config fuel (after_chunk config u rest n (drop n rest)) in
    let same : group_units config fuel (drop m (u ∷ rest)) ≡ chunks =
      ap (group_units config fuel) (sym e) in
    let ih =
      group_units-IsCovered config fuel (drop m (u ∷ rest))
        (omega (arith, length-drop m (u ∷ rest), h, low)) (InOrder-drop m (u ∷ rest) o) in
    take-drop-All (IsCovered (first_chunk config u rest ∷ chunks)) m (u ∷ rest)
      (take-All_less (IsCovered (first_chunk config u rest ∷ chunks)) m (suc n) (u ∷ rest) high (
        All-map (Within (first_chunk config u rest))
          (IsCovered (first_chunk config u rest ∷ chunks)) (take (suc n) (u ∷ rest))
          (λ w i. (first_chunk config u rest, inl refl, i)) (Within-first_chunk n u rest o)))
      (All-map (IsCovered (group_units config fuel (drop m (u ∷ rest))))
        (IsCovered (first_chunk config u rest ∷ chunks)) (drop m (u ∷ rest))
        (λ w i. further (first_chunk config u rest) chunks w (subst (λ cs. IsCovered cs w) same i))
        ih)

abbrev pub Fits : ℕ → Span → Type 0
Fits n s = span_length s ≤ n

-- The first loop ends within the target, unless it takes no unit.
reach_bound :
    (start target : ℕ) (u : Span) (rest : List Span) (bound : ℕ)
    → u.end - start ≤ bound
    → target ≤ bound
    → (unit_at u (reach start target rest) rest).end - start ≤ bound
unfolding reach
reach_bound start target u [] bound h k = h
reach_bound start target u (v ∷ vs) bound h k = elim (Bool-cases (leb (v.end - start) target)) [
  | inl fits ↦ rw fits (reach_bound start target v vs bound (ground arith) k)
  | inr far ↦ rw far h
]

unit_at-drop :
    (n : ℕ) (u v : Span) (rest vs : List Span) → drop n rest ≡ v ∷ vs → unit_at u (suc n) rest ≡ v
unit_at-drop zero u v [] vs h = absurd (cc)
unit_at-drop zero u v (w ∷ ws) vs h = cc
unit_at-drop (suc n) u v [] vs h = absurd (cc)
unit_at-drop (suc n) u v (w ∷ ws) vs h = unit_at-drop n w v ws vs h

one_more_bound :
    (config : SplitConfig) (u : Span) (rest : List Span) (n : ℕ) (left : List Span)
    → drop n rest ≡ left
    → (unit_at u n rest).end - u.start ≤ config.max_chars
    → (unit_at u (one_more config u.start (unit_at u n rest).end n left) rest).end - u.start
      ≤ config.max_chars
unfolding one_more
one_more_bound config u rest n [] h k = k
one_more_bound config u rest n (v ∷ vs) h k =
    elim (Bool-cases (
      leb (v.end - u.start) config.max_chars
      && leb (distance (v.end - u.start) config.target_chars)
          (distance ((unit_at u n rest).end - u.start) config.target_chars))) [
            | inl more ↦ rw more (
                subst (λ (w : Span). w.end - u.start ≤ config.max_chars)
                  (sym (unit_at-drop n u v rest vs h)) (ground arith))
            | inr no' ↦ rw no' k
          ]

first_chunk-Fits :
    (config : SplitConfig) (u : Span) (rest : List Span)
    → config.target_chars ≤ config.max_chars
    → Fits config.max_chars u
    → Fits config.max_chars (first_chunk config u rest)
unfolding last_place
first_chunk-Fits config u rest h k =
    let n : ℕ = reach u.start config.target_chars rest in
    one_more_bound config u rest n (drop n rest) refl
      (reach_bound u.start config.target_chars u rest config.max_chars k h)

All-drop {κ} : {A : Type 0} (P : A → Type κ) (n : ℕ) (xs : List A) → All P xs → All P (drop n xs)
All-drop P zero xs a = a
All-drop P (suc n) [] a = tt
All-drop P (suc n) (x ∷ xs) a = All-drop P n xs a.1

-- Where the target is at most the maximum, and no unit is longer than the maximum, no chunk is.
pub group_units-Fits :
    (config : SplitConfig) (fuel : ℕ) (units : List Span)
    → config.target_chars ≤ config.max_chars
    → All (Fits config.max_chars) units
    → All (Fits config.max_chars) (group_units config fuel units)
unfolding group_units
group_units-Fits config zero units h a = tt
group_units-Fits config (suc fuel) [] h a = tt
group_units-Fits config (suc fuel) (u ∷ rest) h a =
    let n : ℕ = last_place config u rest in
    let (m, low, high, e) = after_chunk-drop config u rest n (drop n rest) refl in
    (
      first_chunk-Fits config u rest h a.0,
      subst (λ us. All (Fits config.max_chars) (group_units config fuel us)) (sym e)
          (group_units-Fits config fuel (drop m (u ∷ rest)) h
            (All-drop (Fits config.max_chars) m (u ∷ rest) a)),
    )
