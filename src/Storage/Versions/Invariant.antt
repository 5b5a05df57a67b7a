-- ===== src/Storage/Versions/Invariant.antt =====
-- What holds of the table of versions after every transition.
use zhiyan_personal_academic.Storage.Versions.Patch.{SameIdentity}
use zhiyan_personal_academic.Prelude.{
  eq_iff, ℕ, ◌+◌, ◌≡◌, refl, String, true, List, [], ◌∷◌, All, arith, subst, sym, ap,
  update_where-All, find_where, some, some-cancel, ◌∙◌,
}
use mathlib.Core.Path.{subst₂}
use zhiyan_personal_academic.Storage.Lifecycle.{
  LifecycleStatus, DocumentVersion, Update, version_is_valid, allowed_transition,
  lifecycle_fails_closed,
}
use zhiyan_personal_academic.Storage.Database.{
  Database, Connection, Result, ok, err, IsSettled, IsAtomic,
}
use zhiyan_personal_academic.Storage.Versions.{
  version_key, revision_key, set_lifecycle, may_transition, is_processing_progress,
  transition_candidate, one_active_per_document, transition_version, transition_guard, sql_allowed,
  same_identity,
}
use zhiyan_personal_academic.Storage.Versions.Outcome.{Transitioned}
use zhiyan_personal_academic.Storage.Versions.Transition.{
  transition_version-Swapped, transition_version-IsAtomic, transition_version_in_ok,
}

-- Every row passes the validator, and no document of an owner has two active versions.
pub record IsTable (vs : List DocumentVersion) : Type 0 where
  pub valid : All (λ v. version_is_valid v ≡ true) vs
  pub one_active : one_active_per_document vs ≡ true

set_lifecycle-valid :
    (candidate row : DocumentVersion)
    → version_is_valid (set_lifecycle candidate row) ≡ version_is_valid candidate
unfolding version_is_valid lifecycle_fails_closed set_lifecycle
set_lifecycle-valid candidate row = refl

Transitioned-IsTable :
    (o v : String) (n : ℕ) (target : LifecycleStatus) (us : List Update) (now : ℕ)
    (before after : Database) (r : DocumentVersion)
    → Transitioned o v n target us now before after r
    → IsTable before.versions
    → IsTable after.versions
Transitioned-IsTable o v n target us now before after r t table =
    let candidate = transition_candidate t.current target us now in
    record {
      valid =
          subst (λ (d : Database). All (λ w. version_is_valid w ≡ true) d.versions) (sym t.written)
            (update_where-All (λ w. version_is_valid w ≡ true) (revision_key o v n)
              (set_lifecycle candidate) before.versions
              (λ w h k. set_lifecycle-valid candidate w ∙ t.candidate_valid) table.valid);
      one_active = t.one_active;
    }

transition-IsTable :
    (o v : String) (n : ℕ) (target : LifecycleStatus) (us : List Update) (now : ℕ) (c : Connection)
    (r : Result DocumentVersion × Connection)
    → r ≡ transition_version o v n target us now c
    → IsAtomic r c
    → IsSettled c
    → IsTable c.committed.versions
    → IsTable r.1.committed.versions
unfolding transition_version
transition-IsTable o v n target us now c (err e, c') q a s table = rw a.0 table
transition-IsTable o v n target us now c (ok w, c') q a s table =
    let (d, _, e, t) = transition_version_in_ok true o v n target us now c c' w (sym q) in
    rw e (Transitioned-IsTable o v n target us now c.working d.working w t (rw s table))

-- Every transition on a settled connection, whatever its arguments and whether it returns or raises,
-- keeps the committed rows valid and each document of an owner with at most one active version.
pub transition_version-IsTable :
    (o v : String) (n : ℕ) (target : LifecycleStatus) (us : List Update) (now : ℕ) (c : Connection)
    → IsSettled c
    → IsTable c.committed.versions
    → IsTable (transition_version o v n target us now c).1.committed.versions
transition_version-IsTable o v n target us now c s table =
    transition-IsTable o v n target us now c (transition_version o v n target us now c) refl
      (transition_version-IsAtomic o v n target us now c s) s table

same_identity_lem :
    (old new : DocumentVersion) → SameIdentity old new → same_identity old new ≡ true
unfolding same_identity
same_identity_lem old new (a, b, c, d, e, f, g) =
    let ha = (eq_iff _ _).1 a in
    let hb = (eq_iff _ _).1 b in
    let hc = (eq_iff _ _).1 c in
    let hd = (eq_iff _ _).1 d in
    let he = (eq_iff _ _).1 e in
    let hf = (eq_iff _ _).1 f in let hg = (eq_iff _ _).1 g in ground arith

guard_of_permitted :
    (old new : DocumentVersion) (us : List Update)
    → same_identity old new ≡ true
    → may_transition old.lifecycle_status new.lifecycle_status us ≡ true
    → new.lifecycle_revision ≡ old.lifecycle_revision + 1
    → transition_guard old new ≡ true
unfolding may_transition allowed_transition is_processing_progress transition_guard sql_allowed
guard_of_permitted old new [] i h e = ground arith
guard_of_permitted old new (u ∷ us) i h e = ground arith

-- An update that the repository makes is never refused by the trigger of the database: it keeps the
-- identity columns, raises the revision by one, and makes a transition that the trigger allows.
pub transition_version-passes_guard :
    (o v : String) (n : ℕ) (target : LifecycleStatus) (us : List Update) (now : ℕ)
    (c c' : Connection) (current result : DocumentVersion)
    → find_where (version_key o v) c.working.versions ≡ some current
    → transition_version o v n target us now c ≡ (ok result, c')
    → transition_guard current result ≡ true
transition_version-passes_guard o v n target us now c c' current result found h =
    let w = transition_version-Swapped o v n target us now c c' result h in
    let same : w.current ≡ current = some-cancel (sym w.found ∙ found) in
    guard_of_permitted current result us
      (same_identity_lem current result (subst (λ x. SameIdentity x result) same w.identity_kept))
      (subst₂ (λ (x : DocumentVersion) t. may_transition x.lifecycle_status t us ≡ true) same
        (sym w.has_target) w.permitted)
      (w.next_revision
        ∙ ap (λ (k : ℕ). k + 1) (sym w.at_revision)
        ∙ ap (λ (x : DocumentVersion). x.lifecycle_revision + 1) same)
