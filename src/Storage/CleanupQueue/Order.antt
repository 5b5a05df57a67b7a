-- ===== src/Storage/CleanupQueue/Order.antt =====
-- The order of the claims: the row that a claim locks comes first among those due and free. The
-- order of texts is a strict order, which is what the database promises of it.
use zhiyan_personal_academic.Prelude.{
  ℕ, ◌≡◌, refl, String, Bool, true, false, not, ◌&&◌, none, some, List, [], ◌∷◌, ◌⊎◌, inl, inr, In,
  All, All-In, All-map, arith, update_where, select_where, sym, ap, subst, ◌∙◌, Bool-cases,
  Option-cases, In-update_where, In-update_miss, In-update_back, In-select_where,
}
use zhiyan_personal_academic.Storage.Records.{CleanupJob}
use zhiyan_personal_academic.Storage.CleanupQueue.{is_due, due_before, first_due, claim_candidate}
use zhiyan_personal_academic.Storage.CleanupQueue.Contract.{
  IsDue, Precedes, Replaces, IsDue-is_due, Precedes-due_before,
}

-- A strict order of texts, in which texts that neither precede each other are alike.
pub record IsTextOrder (before : String → String → Bool) : Type 0 where
  pub asymm : (s t : String) → before s t ≡ true → before t s ≡ false
  pub cotrans : (s t u : String) → before s u ≡ true → (before s t ≡ true) ⊎ (before t u ≡ true)

module _ (before : String → String → Bool) (o : IsTextOrder before) where
  due_before_asymm :
      (a b : CleanupJob) → due_before before a b ≡ true → due_before before b a ≡ false
  unfolding due_before
  due_before_asymm a b h = ground (arith, o.asymm a.cleanup_id b.cleanup_id)

  due_before_cotrans :
      (a b c : CleanupJob)
      → due_before before a c ≡ true
      → (due_before before a b ≡ true) ⊎ (due_before before b c ≡ true)
  unfolding due_before
  due_before_cotrans a b c h = ground (arith, o.cotrans a.cleanup_id b.cleanup_id c.cleanup_id)

  -- What does not precede `b`, which does not precede `a`, does not precede `a`.
  not_before_trans :
      (a b c : CleanupJob)
      → due_before before b a ≡ false
      → due_before before c b ≡ false
      → due_before before c a ≡ false
  not_before_trans a b c h k = elim (Bool-cases (due_before before c a)) [
    | inl bad ↦ elim (due_before_cotrans c b a bad) [ inl e ↦ cc | inr e ↦ cc ]
    | inr good ↦ good
  ]

  -- Nothing precedes the row of `k` and `j` that comes first.
  first_of_both :
      (j k : CleanupJob) (js : List CleanupJob)
      → All (λ x. due_before before x k ≡ false) js
      → due_before before k j ≡ false
      → All (λ x. due_before before x j ≡ false) js
  first_of_both j k js a h =
      All-map (λ x. due_before before x k ≡ false) (λ x. due_before before x j ≡ false) js
        (λ x e. not_before_trans j k x h e) a

  not_before_self : (j : CleanupJob) → due_before before j j ≡ false
  not_before_self j = elim (Bool-cases (due_before before j j)) [
    | inl bad ↦ due_before_asymm j j bad
    | inr good ↦ good
  ]

  none_due : (js : List CleanupJob) → first_due before js ≡ none → js ≡ []
  unfolding first_due
  none_due [] h = refl
  none_due (j ∷ js) h = elim (Option-cases (first_due before js)) [
    | inl e ↦ absurd (ground arith)
    | inr (k, e) ↦ absurd (ground arith)
  ]

  first_due-first :
      (js : List CleanupJob) (j : CleanupJob)
      → first_due before js ≡ some j
      → All (λ k. due_before before k j ≡ false) js
  unfolding first_due
  first_due-first [] j h = tt
  first_due-first (k ∷ ks) j h = elim (Option-cases (first_due before ks)) [
    | inl e ↦
        let here : k ≡ j = ground arith in
        subst (λ x. All (λ y. due_before before y x ≡ false) (k ∷ ks)) here
          (
            not_before_self k,
            subst (All (λ y. due_before before y k ≡ false)) (sym (none_due ks e)) tt,
          )
    | inr (m, e) ↦ elim (Bool-cases (due_before before m k)) [
      | inl earlier ↦
          let here : m ≡ j = ground arith in
          subst (λ x. All (λ y. due_before before y x ≡ false) (k ∷ ks)) here
            (due_before_asymm m k earlier, first_due-first ks m e)
      | inr later ↦
          let here : k ≡ j = ground arith in
          subst (λ x. All (λ y. due_before before y x ≡ false) (k ∷ ks)) here
            (not_before_self k, first_of_both k m ks (first_due-first ks m e) later)
    ]
  ]

  -- No row that is due and free precedes the row that a claim locks.
  pub claim_candidate_first :
      (locked : CleanupJob → Bool) (now : ℕ) (js : List CleanupJob) (j k : CleanupJob)
      → claim_candidate before locked now js ≡ some j
      → In k js
      → IsDue now k
      → locked k ≡ false
      → Precedes before k j
      → ⊥
  unfolding claim_candidate
  claim_candidate_first locked now js j k h i due free earlier =
      let p : CleanupJob → Bool = λ x. is_due now x && not (locked x) in
      let is_due' = IsDue-is_due now k due in
      let chosen : p k ≡ true = ground arith in
      let no_earlier =
        All-In (λ x. due_before before x j ≡ false) k (select_where p js)
          (first_due-first (select_where p js) j h) (In-select_where p k js i chosen) in
      let e = Precedes-due_before before k j earlier in ground arith

  -- Where a claim locks no row, no row is due and free.
  pub claim_candidate-none :
      (locked : CleanupJob → Bool) (now : ℕ) (js : List CleanupJob) (k : CleanupJob)
      → claim_candidate before locked now js ≡ none
      → In k js
      → IsDue now k
      → locked k ≡ false
      → ⊥
  unfolding claim_candidate
  claim_candidate-none locked now js k h i due free =
      let p : CleanupJob → Bool = λ x. is_due now x && not (locked x) in
      let is_due' = IsDue-is_due now k due in
      let chosen : p k ≡ true = ground arith in
      subst (In k) (none_due (select_where p js) h) (In-select_where p k js i chosen)

-- An UPDATE that selects only rows of one key replaces the row of that key.
pub update_where-Replaces :
    (p : CleanupJob → Bool) (f : CleanupJob → CleanupJob) (js : List CleanupJob) (old : CleanupJob)
    → In old js
    → p old ≡ true
    → ((k : CleanupJob) → p k ≡ true → k.cleanup_id ≡ old.cleanup_id)
    → ((k : CleanupJob) → (f k).cleanup_id ≡ k.cleanup_id)
    → Replaces js (update_where p f js) old (f old)
update_where-Replaces p f js old i hit only keeps = record {
  was_there = i;
  stored = In-update_where p f old js i hit;
  others_kept = λ k ne. (
    λ j. elim (Bool-cases (p k)) [
      | inl bad ↦ absurd (ne (only k bad))
      | inr miss ↦ In-update_miss p f k js j miss
    ],
    λ j. elim (In-update_back p f k js j) [
      | inl there ↦ there
      | inr (y, selected, e) ↦
          absurd (ne (ap (λ (x : CleanupJob). x.cleanup_id) e ∙ keeps y ∙ only y selected))
    ],
  );
}
