-- ===== src/Prelude/Keys.antt =====
-- Membership in a table and uniqueness of a key, by recursion, and how updates keep them.
use mathlib.Core.Path.{◌≡◌, refl, sym, ap, subst, ◌∙◌, fun_ext}
use mathlib.Core.Bool.{Bool, true, false}
use mathlib.Core.Option.{some}
use mathlib.Core.List.{List, [], ◌∷◌, ◌++◌}
use mathlib.Core.Logic.{◌⊎◌, inl, inr}
use native.Mathlib.Omega.{arith}
use zhiyan_personal_academic.Prelude.Tests.{Bool-cases}
use zhiyan_personal_academic.Prelude.Lists.{All, any}
use zhiyan_personal_academic.Prelude.Tables.{
  select_where, update_where, find_where, find_where_sound,
}

module _ {A : Type 0} where
  abbrev pub In : A → List A → Type 0
  In x [] = ⊥
  In x (y ∷ ys) = (x ≡ y) ⊎ In x ys

  pub All-In {κ} : (P : A → Type κ) (x : A) (xs : List A) → All P xs → In x xs → P x
  All-In P x [] a i = absurd i
  All-In P x (y ∷ ys) a (inl e) = subst P (sym e) a.0
  All-In P x (y ∷ ys) a (inr i) = All-In P x ys a.1 i

  pub All-map {κ μ} :
      (P : A → Type κ) (Q : A → Type μ) (xs : List A) → ((x : A) → P x → Q x) → All P xs → All Q xs
  All-map P Q [] f a = tt
  All-map P Q (x ∷ xs) f a = (f x a.0, All-map P Q xs f a.1)

  pub All-both {κ μ} :
      (P : A → Type κ) (Q : A → Type μ) (xs : List A)
      → All P xs
      → All Q xs
      → All (λ x. P x × Q x) xs
  All-both P Q [] a b = tt
  All-both P Q (x ∷ xs) a b = ((a.0, b.0), All-both P Q xs a.1 b.1)

  pub any-In : (p : A → Bool) (x : A) (xs : List A) → any p xs ≡ false → In x xs → p x ≡ false
  any-In p x [] h i = absurd i
  any-In p x (y ∷ ys) h (inl e) =
      let here : p y ≡ false = ground arith in subst (λ z. p z ≡ false) (sym e) here
  any-In p x (y ∷ ys) h (inr i) = any-In p x ys (ground arith) i

  In-cons :
      (p : A → Bool) (x y : A) (ys zs : List A)
      → (In x zs → In x ys × (p x ≡ true))
      → p y ≡ true
      → In x (y ∷ zs)
      → In x (y ∷ ys) × (p x ≡ true)
  In-cons p x y ys zs f hit (inl e) = (inl e, subst (λ z. p z ≡ true) (sym e) hit)
  In-cons p x y ys zs f hit (inr j) = (inr (f j).0, (f j).1)

  pub select_where-In :
      (p : A → Bool) (x : A) (xs : List A) → In x (select_where p xs) → In x xs × (p x ≡ true)
  unfolding select_where
  select_where-In p x [] i = absurd i
  select_where-In p x (y ∷ ys) i = elim (Bool-cases (p y)) [
    | inl hit ↦ In-cons p x y ys (select_where p ys) (select_where-In p x ys) hit (rw hit at i)
    | inr miss ↦ let (j, h) = select_where-In p x ys (rw miss at i) in (inr j, h)
  ]

  -- Every row is unlike every later one.
  abbrev pub Unique : (A → A → Bool) → List A → Type 0
  Unique same [] = Unit
  Unique same (x ∷ xs) = (any (same x) xs ≡ false) × Unique same xs

  pub any-update_where :
      (p q : A → Bool) (f : A → A) (xs : List A)
      → ((x : A) → q (f x) ≡ q x)
      → any q (update_where p f xs) ≡ any q xs
  unfolding update_where
  any-update_where p q f [] keep = refl
  any-update_where p q f (x ∷ xs) keep = elim (Bool-cases (p x)) [
    | inl hit ↦ rw (hit, keep x, any-update_where p q f xs keep)
    | inr miss ↦ rw (miss, any-update_where p q f xs keep)
  ]

  pub Unique-update_where :
      (same : A → A → Bool) (p : A → Bool) (f : A → A) (xs : List A)
      → ((x y : A) → same (f x) y ≡ same x y)
      → ((x y : A) → same x (f y) ≡ same x y)
      → Unique same xs
      → Unique same (update_where p f xs)
  unfolding update_where
  Unique-update_where same p f [] left right u = tt
  Unique-update_where same p f (x ∷ xs) left right u = elim (Bool-cases (p x)) [
    | inl hit ↦ rw hit (
      any-update_where p (same (f x)) f xs (λ y. right (f x) y) ∙ rw (fun_ext (λ y. left x y)) u.0,
      Unique-update_where same p f xs left right u.1,
    )
    | inr miss ↦ rw miss (
      any-update_where p (same x) f xs (λ y. right x y) ∙ u.0,
      Unique-update_where same p f xs left right u.1,
    )
  ]

  any-append :
      (q : A → Bool) (xs ys : List A)
      → any q xs ≡ false
      → any q ys ≡ false
      → any q (xs ++ ys) ≡ false
  any-append q [] ys hx hy = hy
  any-append q (x ∷ xs) ys hx hy = ground (arith, any-append q xs ys)

  -- A row that no present one is like may be added at the end.
  pub Unique-snoc :
      (same : A → A → Bool) (xs : List A) (x : A)
      → ((y z : A) → same y z ≡ same z y)
      → any (same x) xs ≡ false
      → Unique same xs
      → Unique same (xs ++ x ∷ [])
  Unique-snoc same [] x symm h u = (refl, tt)
  Unique-snoc same (y ∷ ys) x symm h u = (
    any-append (same y) ys (x ∷ []) u.0 (ground (arith, symm x y)),
    Unique-snoc same ys x symm (ground arith) u.1,
  )

  -- Under a unique key, the only row like a given one is that row.
  pub Unique-In :
      (same : A → A → Bool) (x : A) (xs : List A)
      → ((y z : A) → same y z ≡ same z y)
      → Unique same xs
      → In x xs
      → All (λ y. same x y ≡ true → y ≡ x) xs
  Unique-In same x [] symm u i = tt
  Unique-In same x (y ∷ ys) symm u (inl e) =
      (λ h. sym e, later ys (subst (λ z. any (same z) ys ≡ false) (sym e) u.0))
    where
      later : (zs : List A) → any (same x) zs ≡ false → All (λ z. same x z ≡ true → z ≡ x) zs
      later [] h = tt
      later (z ∷ zs) h = (λ k. ground arith, later zs (ground arith))
  Unique-In same x (y ∷ ys) symm u (inr i) = (
    λ h. absurd (ground (arith, any-In (same y) x ys u.0 i, symm x y)),
    Unique-In same x ys symm u.1 i,
  )

  pub In-update_where :
      (p : A → Bool) (f : A → A) (x : A) (xs : List A)
      → In x xs
      → p x ≡ true
      → In (f x) (update_where p f xs)
  unfolding update_where
  In-update_where p f x [] i h = absurd i
  In-update_where p f x (y ∷ ys) (inl e) h =
      let hit : p y ≡ true = subst (λ z. p z ≡ true) e h in rw hit (inl (ap f e))
  In-update_where p f x (y ∷ ys) (inr i) h = inr (In-update_where p f x ys i h)

  In-other :
      (p : A → Bool) (x y : A) (ys : List A)
      → p y ≡ false
      → p x ≡ true
      → (x ≡ y) ⊎ In x ys
      → In x ys
  In-other p x y ys miss h (inl e) =
      let hit : p y ≡ true = subst (λ z. p z ≡ true) e h in absurd (ground arith)
  In-other p x y ys miss h (inr j) = j

  -- A selected row that every selected row equals is the one that is found.
  pub find_where_unique :
      (p : A → Bool) (x : A) (xs : List A)
      → In x xs
      → p x ≡ true
      → All (λ y. p y ≡ true → y ≡ x) xs
      → find_where p xs ≡ some x
  unfolding find_where
  find_where_unique p x [] i h a = absurd i
  find_where_unique p x (y ∷ ys) i h a = elim (Bool-cases (p y)) [
    | inl hit ↦ rw hit (ap some (a.0 hit))
    | inr miss ↦ rw miss (find_where_unique p x ys (In-other p x y ys miss h i) h a.1)
  ]

  pub find_where-In : (p : A → Bool) (x : A) (xs : List A) → find_where p xs ≡ some x → In x xs
  unfolding find_where
  find_where-In p x [] e = cc
  find_where-In p x (y ∷ ys) e = elim (Bool-cases (p y)) [
    | inl hit ↦ inl (ground arith)
    | inr miss ↦ inr (find_where-In p x ys (ground arith))
  ]

  -- What an update makes of the row that its selection finds is in the table afterwards.
  pub update_found-In :
      (p : A → Bool) (f : A → A) (x : A) (xs : List A)
      → find_where p xs ≡ some x
      → In (f x) (update_where p f xs)
  update_found-In p f x xs e =
      In-update_where p f x xs (find_where-In p x xs e) (find_where_sound p xs x e)

module _ {A : Type 0} where
  -- A row that an update does not select stays.
  pub In-update_miss :
      (p : A → Bool) (f : A → A) (x : A) (xs : List A)
      → In x xs
      → p x ≡ false
      → In x (update_where p f xs)
  unfolding update_where
  In-update_miss p f x [] i h = absurd i
  In-update_miss p f x (y ∷ ys) (inl e) h =
      let miss : p y ≡ false = subst (λ z. p z ≡ false) e h in rw miss (inl e)
  In-update_miss p f x (y ∷ ys) (inr i) h = inr (In-update_miss p f x ys i h)

  -- A row of an updated table was there, or is what the update made of a selected row.
  pub In-update_back :
      (p : A → Bool) (f : A → A) (x : A) (xs : List A)
      → In x (update_where p f xs)
      → In x xs ⊎ ((y : A) × (p y ≡ true) × (x ≡ f y))
  unfolding update_where
  In-update_back p f x [] i = absurd i
  In-update_back p f x (y ∷ ys) (inr i) = elim (In-update_back p f x ys i) [
    | inl j ↦ inl (inr j)
    | inr found ↦ inr found
  ]
  In-update_back p f x (y ∷ ys) (inl e) = elim (Bool-cases (p y)) [
    | inl hit ↦ inr (y, hit, rw hit at e)
    | inr miss ↦ inl (inl (rw miss at e))
  ]

  -- A row that a query selects is in its result.
  pub In-select_where :
      (p : A → Bool) (x : A) (xs : List A) → In x xs → p x ≡ true → In x (select_where p xs)
  unfolding select_where
  In-select_where p x [] i h = absurd i
  In-select_where p x (y ∷ ys) (inl e) h =
      let hit : p y ≡ true = subst (λ z. p z ≡ true) e h in rw hit (inl e)
  In-select_where p x (y ∷ ys) (inr i) h = elim (Bool-cases (p y)) [
    | inl hit ↦ rw hit (inr (In-select_where p x ys i h))
    | inr miss ↦ rw miss (In-select_where p x ys i h)
  ]

  -- A row that is added at the end is there, and the others stay.
  pub In-snoc : (x : A) (xs : List A) → In x (xs ++ x ∷ [])
  In-snoc x [] = inl refl
  In-snoc x (y ∷ ys) = inr (In-snoc x ys)

  pub In-append : (x : A) (xs ys : List A) → In x xs → In x (xs ++ ys)
  In-append x [] ys i = absurd i
  In-append x (y ∷ xs) ys (inl e) = inl e
  In-append x (y ∷ xs) ys (inr i) = inr (In-append x xs ys i)
