-- ===== src/Retrieval/Coverage/Names.antt =====
-- The dictionary by route and the set of names, as lists: what they hold.
use zhiyan_personal_academic.Prelude.{
  refl, [], ◌∷◌, ◌≡◌, inl, inr, sym, ap, subst, true, Bool, ◌++◌, String, List, Option, none, some,
  map, any, In, arith, Bool-cases, contains, find_where, eq_iff, ◌=ᵗ◌, eq_refl, if◌then◌else◌,
  found_where, any-snoc,
}
use zhiyan_personal_academic.Retrieval.Coverage.Plan.{set_default, add_name, name_set}

-- The first of two, for a dictionary's `setdefault`.
abbrev pub first_of : {A : Type 0} → Option A → Option A → Option A
first_of (some a) later = some a
first_of none later = later

pub first_of-none : {A : Type 0} (o : Option A) → first_of o none ≡ o
first_of-none none = refl
first_of-none (some a) = refl

find_where-append :
    {A : Type 0} (p : A → Bool) (xs ys : List A)
    → find_where p (xs ++ ys) ≡ first_of (find_where p xs) (find_where p ys)
unfolding find_where
find_where-append p [] ys = refl
find_where-append p (x ∷ xs) ys = elim (Bool-cases (p x)) [
  | inl hit ↦ rw hit refl
  | inr miss ↦ rw miss (find_where-append p xs ys)
]

find_where-one :
    {A : Type 0} (p : A → Bool) (x : A) → find_where p (x ∷ []) ≡ (if p x then some x else none)
unfolding find_where
find_where-one p x = refl

abbrev pub has_route : String → (String × String) → Bool
has_route r entry = entry.0 =ᵗ r

pub set_default-find :
    (d i r : String) (es : List (String × String))
    → find_where (has_route r) (set_default d i es)
      ≡ first_of (find_where (has_route r) es) (if d =ᵗ r then some (d, i) else none)
unfolding set_default
set_default-find d i r es = elim (Bool-cases (any (has_route d) es)) [
  | inl there ↦ elim (Bool-cases (d =ᵗ r)) [
    | inl same ↦
        let at_r =
          found_where (has_route r) es
            (subst (λ x. any (has_route x) es ≡ true) ((eq_iff d r).0 same) there) in
        rw (there, at_r.1) refl
    | inr other ↦ rw (there, other) (sym (first_of-none (find_where (has_route r) es)))
  ]
  | inr absent ↦
      rw (absent, find_where-append (has_route r) es ((d, i) ∷ []))
        (ap (first_of (find_where (has_route r) es)) (find_where-one (has_route r) (d, i)))
]

pub contains-add_name :
    (n name : String) (names : List String)
    → contains names n ≡ true
    → contains (add_name name names) n ≡ true
unfolding add_name
contains-add_name n name names h = elim (Bool-cases (contains names name)) [
  | inl there ↦ rw there h
  | inr absent ↦ rw (absent, any-snoc (λ o. o =ᵗ n) names name) (ground arith)
]

contains_added : (name : String) (names : List String) → contains (add_name name names) name ≡ true
unfolding add_name
contains_added name names = elim (Bool-cases (contains names name)) [
  | inl there ↦ rw there there
  | inr absent ↦ rw (absent, any-snoc (λ o. o =ᵗ name) names name, eq_refl name) (ground arith)
]

pub name_set-keeps :
    (n : String) (more names : List String)
    → contains names n ≡ true
    → contains (name_set more names) n ≡ true
unfolding name_set
name_set-keeps n [] names h = h
name_set-keeps n (m ∷ more) names h =
    name_set-keeps n more (add_name m names) (contains-add_name n m names h)

pub contains-name_set :
    (n : String) (more names : List String)
    → contains more n ≡ true
    → contains (name_set more names) n ≡ true
unfolding name_set
contains-name_set n [] names h = absurd (ground arith)
contains-name_set n (m ∷ more) names h = elim (Bool-cases (m =ᵗ n)) [
  | inl same ↦ name_set-keeps n more (add_name m names) (
      subst (λ x. contains (add_name m names) x ≡ true) ((eq_iff m n).0 same)
        (contains_added m names))
  | inr other ↦ contains-name_set n more (add_name m names) (ground arith)
]

pub keys_any :
    (r : String) (es : List (String × String))
    → contains (map (λ e. e.0) es) r ≡ any (has_route r) es
keys_any r [] = refl
keys_any r (e ∷ es) = rw (keys_any r es) refl

pub values-contain :
    (e : String × String) (es : List (String × String))
    → In e es
    → contains (map (λ x. x.1) es) e.1 ≡ true
values-contain e [] i = absurd i
values-contain e (x ∷ es) (inl same) = rw (ap (λ y. y.1) same, eq_refl x.1) refl
values-contain e (x ∷ es) (inr i) = let rest = values-contain e es i in ground arith
