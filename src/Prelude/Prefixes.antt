-- ===== src/Prelude/Prefixes.antt =====
-- The first entries of a list, what they keep, and tests and predicates of entries that are in it.
use Prim.Native.Nat.{ℕ, zero, suc, ◌≤◌}
use mathlib.Core.Path.{◌≡◌, refl, sym, ap, subst}
use mathlib.Core.Bool.{Bool, true, false, ◌||◌}
use mathlib.Core.Logic.{◌⊎◌, inl, inr}
use mathlib.Core.Option.{some}
use mathlib.Core.List.{List, [], ◌∷◌, ◌++◌}
use native.Mathlib.Omega.{arith}
use zhiyan_personal_academic.Prelude.Tests.{Bool-cases}
use zhiyan_personal_academic.Prelude.Lists.{All, any, all, take, length}
use zhiyan_personal_academic.Prelude.Tables.{find_where}
use zhiyan_personal_academic.Prelude.Keys.{In, Unique}
use zhiyan_personal_academic.Prelude.Sorting.{Ordered}

module _ {A : Type 0} where
  pub take-All {κ} : (P : A → Type κ) (n : ℕ) (xs : List A) → All P xs → All P (take n xs)
  take-All P zero xs a = tt
  take-All P (suc n) [] a = tt
  take-All P (suc n) (x ∷ xs) a = (a.0, take-All P n xs a.1)

  pub length-take : (n : ℕ) (xs : List A) → length (take n xs) ≤ n
  length-take zero xs = omega arith
  length-take (suc n) [] = omega arith
  length-take (suc n) (x ∷ xs) = omega (arith, length-take n xs)

  any-take : (p : A → Bool) (n : ℕ) (xs : List A) → any p xs ≡ false → any p (take n xs) ≡ false
  any-take p zero xs h = refl
  any-take p (suc n) [] h = refl
  any-take p (suc n) (x ∷ xs) h = ground (arith, any-take p n xs)

  pub take-Unique :
      (same : A → A → Bool) (n : ℕ) (xs : List A) → Unique same xs → Unique same (take n xs)
  take-Unique same zero xs u = tt
  take-Unique same (suc n) [] u = tt
  take-Unique same (suc n) (x ∷ xs) u = (any-take (same x) n xs u.0, take-Unique same n xs u.1)

  pub take-Ordered :
      (before : A → A → Bool) (n : ℕ) (xs : List A) → Ordered before xs → Ordered before (take n xs)
  take-Ordered before zero xs o = tt
  take-Ordered before (suc n) [] o = tt
  take-Ordered before (suc n) (x ∷ xs) o =
      (take-All (λ y. before y x ≡ false) n xs o.0, take-Ordered before n xs o.1)

  -- An entry that the first `n` leave out is before none of them, and they are `n`.
  abbrev pub LeftOut : (A → A → Bool) → ℕ → A → List A → Type 0
  LeftOut before n e xs = (length (take n xs) ≡ n) × All (λ x. before e x ≡ false) (take n xs)

  at_head :
      (before : A → A → Bool) (e x : A) (xs : List A)
      → All (λ y. before y x ≡ false) xs
      → In e xs
      → before e x ≡ false
  at_head before e x [] a i = absurd i
  at_head before e x (y ∷ ys) a (inl h) = subst (λ z. before z x ≡ false) (sym h) a.0
  at_head before e x (y ∷ ys) a (inr i) = at_head before e x ys a.1 i

  pub taken_or_left :
      (before : A → A → Bool) (n : ℕ) (e : A) (xs : List A)
      → Ordered before xs
      → In e xs
      → In e (take n xs) ⊎ LeftOut before n e xs
  taken_or_left before zero e xs o i = inr (refl, tt)
  taken_or_left before (suc n) e [] o i = absurd i
  taken_or_left before (suc n) e (x ∷ xs) o (inl h) = inl (inl h)
  taken_or_left before (suc n) e (x ∷ xs) o (inr i) = elim (taken_or_left before n e xs o.1 i) [
    | inl j ↦ inl (inr j)
    | inr (full, below) ↦ inr (ap suc full, (at_head before e x xs o.0 i, below))
  ]

  pub any-snoc : (q : A → Bool) (xs : List A) (x : A) → any q (xs ++ x ∷ []) ≡ (any q xs || q x)
  any-snoc q [] x = ground arith
  any-snoc q (y ∷ ys) x = ground (arith, any-snoc q ys x)

  pub any_witness :
      (p : A → Bool) (xs : List A) → any p xs ≡ true → (e : A) × In e xs × (p e ≡ true)
  any_witness p [] h = absurd (ground arith)
  any_witness p (x ∷ xs) h = elim (Bool-cases (p x)) [
    | inl hit ↦ (x, inl refl, hit)
    | inr miss ↦ let (e, i, hit) = any_witness p xs (ground arith) in (e, inr i, hit)
  ]

  pub In-any : (p : A → Bool) (e : A) (xs : List A) → In e xs → p e ≡ true → any p xs ≡ true
  In-any p e [] i h = absurd i
  In-any p e (x ∷ xs) (inl same) h =
      let here : p x ≡ true = subst (λ z. p z ≡ true) same h in ground arith
  In-any p e (x ∷ xs) (inr i) h = let rest = In-any p e xs i h in ground arith

  pub In-All {κ} : (P : A → Type κ) (xs : List A) → ((e : A) → In e xs → P e) → All P xs
  In-All P [] f = tt
  In-All P (x ∷ xs) f = (f x (inl refl), In-All P xs (λ e i. f e (inr i)))

  pub All-left {κ} : (P : A → Type κ) (xs ys : List A) → All P (xs ++ ys) → All P xs
  All-left P [] ys a = tt
  All-left P (x ∷ xs) ys a = (a.0, All-left P xs ys a.1)

  pub All-right {κ} : (P : A → Type κ) (xs ys : List A) → All P (xs ++ ys) → All P ys
  All-right P [] ys a = a
  All-right P (x ∷ xs) ys a = All-right P xs ys a.1

  pub all-In : (p : A → Bool) (e : A) (xs : List A) → all p xs ≡ true → In e xs → p e ≡ true
  all-In p e [] h i = absurd i
  all-In p e (x ∷ xs) h (inl same) =
      let here : p x ≡ true = ground arith in subst (λ z. p z ≡ true) (sym same) here
  all-In p e (x ∷ xs) h (inr i) = all-In p e xs (ground arith) i

  pub found_where :
      (p : A → Bool) (xs : List A) → any p xs ≡ true → (x : A) × (find_where p xs ≡ some x)
  unfolding find_where
  found_where p [] h = absurd (ground arith)
  found_where p (x ∷ xs) h = elim (Bool-cases (p x)) [
    | inl hit ↦ (x, rw hit refl)
    | inr miss ↦ let (y, at) = found_where p xs (ground arith) in (y, rw miss at)
  ]
