-- ===== src/Prelude/Tables.antt =====
-- A database table as a list of rows: the first row that a condition selects, and the UPDATE of
-- every row that it selects.
use mathlib.Core.Path.{◌≡◌, refl, subst, sym, ap}
use mathlib.Core.Bool.{Bool, true, false}
use mathlib.Core.Option.{Option, none, some}
use mathlib.Core.List.{List, [], ◌∷◌}
use mathlib.Core.Logic.{inl, inr}
use native.Mathlib.Omega.{arith}
use zhiyan_personal_academic.Prelude.Tests.{if◌then◌else◌, Bool-cases, map_option}
use zhiyan_personal_academic.Prelude.Lists.{All}

module _ {ℓ} {A : Type ℓ} where
  unfoldable pub find_where : (A → Bool) → List A → Option A
  find_where p [] = none
  find_where p (x ∷ xs) = if p x then some x else find_where p xs

  unfoldable pub select_where : (A → Bool) → List A → List A
  select_where p [] = []
  select_where p (x ∷ xs) = let rest = select_where p xs in if p x then x ∷ rest else rest

  unfoldable pub update_where : (A → Bool) → (A → A) → List A → List A
  update_where p f [] = []
  update_where p f (x ∷ xs) = (if p x then f x else x) ∷ update_where p f xs

  pub find_where_sound :
      (p : A → Bool) (xs : List A) (x : A) → find_where p xs ≡ some x → p x ≡ true
  unfolding find_where
  find_where_sound p [] x h = ground arith
  find_where_sound p (y ∷ xs) x h = ground (arith, find_where_sound p xs x)

  pub find_where-All {κ} :
      (P : A → Type κ) (p : A → Bool) (xs : List A) (x : A)
      → find_where p xs ≡ some x
      → All P xs
      → P x
  unfolding find_where
  find_where-All P p [] x h a = cc
  find_where-All P p (y ∷ xs) x h a = elim (Bool-cases (p y)) [
    | inl hit ↦ let e : y ≡ x = ground arith in subst P e a.0
    | inr miss ↦ find_where-All P p xs x (ground arith) a.1
  ]

  pub update_where-All {κ} :
      (P : A → Type κ) (p : A → Bool) (f : A → A) (xs : List A)
      → ((x : A) → p x ≡ true → P x → P (f x))
      → All P xs
      → All P (update_where p f xs)
  unfolding update_where
  update_where-All P p f [] keep a = tt
  update_where-All P p f (x ∷ xs) keep a = elim (Bool-cases (p x)) [
    | inl hit ↦ rw hit (keep x hit a.0, update_where-All P p f xs keep a.1)
    | inr miss ↦ rw miss (a.0, update_where-All P p f xs keep a.1)
  ]

  pub select_where-All {κ} :
      (P : A → Type κ) (p : A → Bool) (xs : List A) → All P xs → All P (select_where p xs)
  unfolding select_where
  select_where-All P p [] a = tt
  select_where-All P p (x ∷ xs) a = elim (Bool-cases (p x)) [
    | inl hit ↦ rw hit (a.0, select_where-All P p xs a.1)
    | inr miss ↦ rw miss (select_where-All P p xs a.1)
  ]

  pub select_where_sound : (p : A → Bool) (xs : List A) → All (λ x. p x ≡ true) (select_where p xs)
  unfolding select_where
  select_where_sound p [] = tt
  select_where_sound p (x ∷ xs) = elim (Bool-cases (p x)) [
    | inl hit ↦ rw hit (hit, select_where_sound p xs)
    | inr miss ↦ rw miss (select_where_sound p xs)
  ]

  -- Where the update leaves the selection alone, the first selected row is the updated one.
  pub find-update_where :
      (p : A → Bool) (f : A → A) (xs : List A)
      → ((x : A) → p x ≡ true → p (f x) ≡ true)
      → find_where p (update_where p f xs) ≡ map_option f (find_where p xs)
  unfolding find_where update_where
  find-update_where p f [] keep = refl
  find-update_where p f (x ∷ xs) keep = elim (Bool-cases (p x)) [
    | inl hit ↦ rw (hit, keep x hit) refl
    | inr miss ↦ rw (miss, miss) (find-update_where p f xs keep)
  ]

module _ {ℓ} {A : Type ℓ} (p q : A → Bool) where
  -- The first row of a wider selection, if the narrower one selects it, is the narrower one's first.
  pub find_where-refine :
      (xs : List A) (x : A)
      → ((y : A) → p y ≡ true → q y ≡ true)
      → find_where q xs ≡ some x
      → p x ≡ true
      → find_where p xs ≡ some x
  unfolding find_where
  find_where-refine [] x sub e h = cc
  find_where-refine (y ∷ xs) x sub e h = elim (Bool-cases (q y)) [
    | inl hit ↦
        let here : y ≡ x = ground arith in
        let found : p y ≡ true = subst (λ z. p z ≡ true) (sym here) h in rw found (ap some here)
    | inr miss ↦ elim (Bool-cases (p y)) [
      | inl bad ↦ absurd (ground (arith, sub y bad))
      | inr out ↦ rw out (find_where-refine xs x sub (ground arith) h)
    ]
  ]

  -- A row that a key finds is found again by the key, updated, if the update keeps the key.
  pub find_where-update_hit :
      (f : A → A) (xs : List A) (x : A)
      → ((y : A) → q (f y) ≡ q y)
      → find_where q xs ≡ some x
      → p x ≡ true
      → find_where q (update_where p f xs) ≡ some (f x)
  unfolding find_where update_where
  find_where-update_hit f [] x keep e h = cc
  find_where-update_hit f (y ∷ xs) x keep e h = elim (Bool-cases (q y)) [
    | inl hit ↦
        let here : y ≡ x = ground arith in
        let found : p y ≡ true = subst (λ z. p z ≡ true) (sym here) h in
        rw (found, keep y, hit) (ap (λ z. some (f z)) here)
    | inr miss ↦ elim (Bool-cases (p y)) [
      | inl upd ↦ rw (upd, keep y, miss) (find_where-update_hit f xs x keep (ground arith) h)
      | inr out ↦ rw (out, miss) (find_where-update_hit f xs x keep (ground arith) h)
    ]
  ]

  -- Rows of another key are left alone.
  pub find_where-update_miss :
      (f : A → A) (xs : List A)
      → ((y : A) → q (f y) ≡ q y)
      → ((y : A) → p y ≡ true → q y ≡ false)
      → find_where q (update_where p f xs) ≡ find_where q xs
  unfolding find_where update_where
  find_where-update_miss f [] keep apart = refl
  find_where-update_miss f (y ∷ xs) keep apart = elim (Bool-cases (p y)) [
    | inl upd ↦ rw (upd, keep y, apart y upd) (find_where-update_miss f xs keep apart)
    | inr out ↦
        rw out (
          ap (λ (r : Option A). if q y then some y else r) (find_where-update_miss f xs keep apart))
  ]

-- As `update_where-All`, where the rows that are selected and those that are not have what is
-- wanted from different facts.
pub update_where-All' {ℓ κ μ} :
    {A : Type ℓ} (P : A → Type κ) (Q : A → Type μ) (p : A → Bool) (f : A → A) (xs : List A)
    → ((x : A) → p x ≡ true → P x → Q (f x))
    → ((x : A) → p x ≡ false → P x → Q x)
    → All P xs
    → All Q (update_where p f xs)
unfolding update_where
update_where-All' P Q p f [] hit miss a = tt
update_where-All' P Q p f (x ∷ xs) hit miss a = elim (Bool-cases (p x)) [
  | inl h ↦ rw h (hit x h a.0, update_where-All' P Q p f xs hit miss a.1)
  | inr h ↦ rw h (miss x h a.0, update_where-All' P Q p f xs hit miss a.1)
]

-- Nothing is found where no row is selected.
pub find_where-none {ℓ} :
    {A : Type ℓ} (p : A → Bool) (xs : List A) → All (λ x. p x ≡ false) xs → find_where p xs ≡ none
unfolding find_where
find_where-none p [] a = refl
find_where-none p (x ∷ xs) a = rw a.0 (find_where-none p xs a.1)

-- A selection is sound: no row that an update selected is selected again, if the update ends that.
pub update_where-ends {ℓ} :
    {A : Type ℓ} (p : A → Bool) (f : A → A) (xs : List A)
    → ((x : A) → p (f x) ≡ false)
    → All (λ x. p x ≡ false) (update_where p f xs)
unfolding update_where
update_where-ends p f [] h = tt
update_where-ends p f (x ∷ xs) h = elim (Bool-cases (p x)) [
  | inl hit ↦ rw hit (h x, update_where-ends p f xs h)
  | inr miss ↦ rw miss (miss, update_where-ends p f xs h)
]
