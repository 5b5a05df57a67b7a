-- ===== src/Prelude/Sorting.antt =====
-- Python's `sorted` by a strict order of keys: a stable insertion sort.
use mathlib.Core.Path.{◌≡◌, refl, ◌∙◌, ap}
use mathlib.Core.Bool.{Bool, true, false, ◌||◌}
use mathlib.Core.Logic.{◌⊎◌, inl, inr}
use mathlib.Core.List.{List, [], ◌∷◌}
use native.Mathlib.Omega.{arith}
use zhiyan_personal_academic.Prelude.Tests.{if◌then◌else◌, Bool-cases}
use zhiyan_personal_academic.Prelude.Lists.{All, any, length}
use zhiyan_personal_academic.Prelude.Keys.{In, Unique, All-map}
use Prim.Native.Nat.{suc}

module _ {A : Type 0} where
  -- The same entries.
  abbrev pub SameEntries : A → List A → List A → Type 0
  SameEntries v xs ys = (In v xs → In v ys) × (In v ys → In v xs)

  -- `v` moves behind the head, and back.
  behind :
      (v x y : A) (ys zs : List A) → (In v zs → In v (x ∷ ys)) → In v (y ∷ zs) → In v (x ∷ y ∷ ys)
  behind v x y ys zs f (inl e) = inr (inl e)
  behind v x y ys zs f (inr i) = elim (f i) [ inl e ↦ inl e | inr j ↦ inr (inr j) ]

  ahead :
      (v x y : A) (ys zs : List A) → (In v (x ∷ ys) → In v zs) → In v (x ∷ y ∷ ys) → In v (y ∷ zs)
  ahead v x y ys zs f (inl e) = inr (f (inl e))
  ahead v x y ys zs f (inr (inl e)) = inl e
  ahead v x y ys zs f (inr (inr j)) = inr (f (inr j))

  under : (v x : A) (xs ys : List A) → (In v xs → In v ys) → In v (x ∷ xs) → In v (x ∷ ys)
  under v x xs ys f (inl e) = inl e
  under v x xs ys f (inr i) = inr (f i)

module _ {A : Type 0} (before : A → A → Bool) where
  unfoldable pub insert_by : A → List A → List A
  insert_by x [] = x ∷ []
  insert_by x (y ∷ ys) = let rest = insert_by x ys in if before y x then y ∷ rest else x ∷ y ∷ ys

  unfoldable pub sort_by : List A → List A
  sort_by [] = []
  sort_by (x ∷ xs) = insert_by x (sort_by xs)

  -- No entry comes after one that its key puts it before.
  abbrev pub Ordered : List A → Type 0
  Ordered [] = Unit
  Ordered (x ∷ xs) = All (λ y. before y x ≡ false) xs × Ordered xs

  any-insert_by : (p : A → Bool) (x : A) (xs : List A) → any p (insert_by x xs) ≡ (p x || any p xs)
  unfolding insert_by
  any-insert_by p x [] = refl
  any-insert_by p x (y ∷ ys) = elim (Bool-cases (before y x)) [
    | inl later ↦ rw later (ground (arith, any-insert_by p x ys))
    | inr here ↦ rw here
  ]

  pub any-sort_by : (p : A → Bool) (xs : List A) → any p (sort_by xs) ≡ any p xs
  unfolding sort_by
  any-sort_by p [] = refl
  any-sort_by p (x ∷ xs) = any-insert_by p x (sort_by xs) ∙ rw (any-sort_by p xs)

  All-insert_by {κ} :
      (P : A → Type κ) (x : A) (xs : List A) → P x → All P xs → All P (insert_by x xs)
  unfolding insert_by
  All-insert_by P x [] h a = (h, tt)
  All-insert_by P x (y ∷ ys) h a = elim (Bool-cases (before y x)) [
    | inl later ↦ rw later (a.0, All-insert_by P x ys h a.1)
    | inr here ↦ rw here (h, a)
  ]

  pub All-sort_by {κ} : (P : A → Type κ) (xs : List A) → All P xs → All P (sort_by xs)
  unfolding sort_by
  All-sort_by P [] a = tt
  All-sort_by P (x ∷ xs) a = All-insert_by P x (sort_by xs) a.0 (All-sort_by P xs a.1)

  In-insert_by : (v x : A) (xs : List A) → SameEntries v (insert_by x xs) (x ∷ xs)
  unfolding insert_by
  In-insert_by v x [] = (λ i. i, λ i. i)
  In-insert_by v x (y ∷ ys) = elim (Bool-cases (before y x)) [
    | inl later ↦
        let rest = In-insert_by v x ys in
        rw later (behind v x y ys (insert_by x ys) rest.0, ahead v x y ys (insert_by x ys) rest.1)
    | inr here ↦ rw here (λ i. i, λ i. i)
  ]

  pub In-sort_by : (v : A) (xs : List A) → SameEntries v (sort_by xs) xs
  unfolding sort_by
  In-sort_by v [] = (λ i. i, λ i. i)
  In-sort_by v (x ∷ xs) =
      let rest = In-sort_by v xs in
      let new = In-insert_by v x (sort_by xs) in
      (
        λ i. under v x (sort_by xs) xs rest.0 (new.0 i),
        λ i. new.1 (under v x xs (sort_by xs) rest.1 i),
      )

  length-insert_by : (x : A) (xs : List A) → length (insert_by x xs) ≡ suc (length xs)
  unfolding insert_by
  length-insert_by x [] = refl
  length-insert_by x (y ∷ ys) = elim (Bool-cases (before y x)) [
    | inl later ↦ rw later (ap (λ n. suc n) (length-insert_by x ys))
    | inr here ↦ rw here
  ]

  pub length-sort_by : (xs : List A) → length (sort_by xs) ≡ length xs
  unfolding sort_by
  length-sort_by [] = refl
  length-sort_by (x ∷ xs) = length-insert_by x (sort_by xs) ∙ ap (λ n. suc n) (length-sort_by xs)

  Unique-insert_by :
      (same : A → A → Bool) (x : A) (xs : List A)
      → ((y z : A) → same y z ≡ same z y)
      → any (same x) xs ≡ false
      → Unique same xs
      → Unique same (insert_by x xs)
  unfolding insert_by
  Unique-insert_by same x [] comm fresh u = (refl, tt)
  Unique-insert_by same x (y ∷ ys) comm fresh u = elim (Bool-cases (before y x)) [
    | inl later ↦ rw later (
      any-insert_by (same y) x ys ∙ ground (arith, comm x y),
      Unique-insert_by same x ys comm (ground arith) u.1,
    )
    | inr here ↦ rw here (fresh, u)
  ]

  pub Unique-sort_by :
      (same : A → A → Bool) (xs : List A)
      → ((y z : A) → same y z ≡ same z y)
      → Unique same xs
      → Unique same (sort_by xs)
  unfolding sort_by
  Unique-sort_by same [] comm u = tt
  Unique-sort_by same (x ∷ xs) comm u =
      Unique-insert_by same x (sort_by xs) comm (any-sort_by (same x) xs ∙ u.0)
        (Unique-sort_by same xs comm u.1)

  module _ (asymm : (x y : A) → before x y ≡ true → before y x ≡ false)
      (cotrans : (x y z : A) → before x z ≡ true → (before x y ≡ true) ⊎ (before y z ≡ true)) where
    -- What is not before `y`, which is not before `x`, is not before `x`.
    not_before_trans : (x y z : A) → before y x ≡ false → before z y ≡ false → before z x ≡ false
    not_before_trans x y z h k = elim (Bool-cases (before z x)) [
      | inl bad ↦ elim (cotrans z y x bad) [ inl e ↦ cc | inr e ↦ cc ]
      | inr good ↦ good
    ]

    insert_by-Ordered : (x : A) (xs : List A) → Ordered xs → Ordered (insert_by x xs)
    unfolding insert_by
    insert_by-Ordered x [] o = (tt, tt)
    insert_by-Ordered x (y ∷ ys) o = elim (Bool-cases (before y x)) [
      | inl later ↦ rw later (
        All-insert_by (λ z. before z y ≡ false) x ys (asymm y x later) o.0,
        insert_by-Ordered x ys o.1,
      )
      | inr here ↦ rw here (
        (
          here,
          All-map (λ z. before z y ≡ false) (λ z. before z x ≡ false) ys
              (λ z k. not_before_trans x y z here k) o.0,
        ),
        o,
      )
    ]

    pub sort_by-Ordered : (xs : List A) → Ordered (sort_by xs)
    unfolding sort_by
    sort_by-Ordered [] = tt
    sort_by-Ordered (x ∷ xs) = insert_by-Ordered x (sort_by xs) (sort_by-Ordered xs)
