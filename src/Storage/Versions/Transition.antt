-- ===== src/Storage/Versions/Transition.antt =====
-- The contract of `transition_version`: a compare-and-swap on one row.
use zhiyan_personal_academic.Storage.Versions.Patch.{
  HasRequested, SameIdentity, apply_updates-HasRequested,
}
use zhiyan_personal_academic.Prelude.{
  subst, some-cancel, ℕ, ◌+◌, ◌≡◌, ◌≢◌, refl, String, Bool, true, false, List, arith, Bool-cases,
  inl, inr, find_where_sound, find_where, eq_iff, find_where-refine, some, any, Option-cases, sym,
  ◌∙◌, ◌∷◌, ap, find_where-update_hit, find_where-update_miss, if◌then◌else◌, [],
}
use zhiyan_personal_academic.Storage.Lifecycle.{
  LifecycleStatus, DocumentVersion, Update, is_unsupported, version_is_valid, allowed_transition,
  is_inactive,
}
use zhiyan_personal_academic.Storage.Database.{
  Database, Connection, Result, ok, err, KeepsCommitted, IsSettled, IsAtomic, concurrent_update,
  in_transaction-IsAtomic, commit, in_transaction-KeepsCommitted, if_raise-ok, value_error,
  in_transaction, in_transaction-ok,
}
use zhiyan_personal_academic.Storage.Versions.{
  version_key, revision_key, set_lifecycle, may_transition, transition_candidate, write_candidate,
  transition_body, transition_version_in, transition_version, update_lifecycle, version_from_row,
  is_processing_progress,
}
use zhiyan_personal_academic.Storage.Versions.Outcome.{Transitioned, transition_body_ok}

set_lifecycle-key :
    (o v : String) (candidate row : DocumentVersion)
    → version_key o v (set_lifecycle candidate row) ≡ version_key o v row
unfolding version_key set_lifecycle
set_lifecycle-key o v candidate row = refl

revision_key-key :
    (o v : String) (n : ℕ) (row : DocumentVersion)
    → revision_key o v n row ≡ true
    → version_key o v row ≡ true
unfolding revision_key
revision_key-key o v n row h = ground arith

revision_key-hit :
    (o v : String) (n : ℕ) (row : DocumentVersion)
    → version_key o v row ≡ true
    → row.lifecycle_revision ≡ n
    → revision_key o v n row ≡ true
unfolding revision_key
revision_key-hit o v n row h e = ground arith

version_key-apart :
    (o v o' v' : String) (row : DocumentVersion)
    → v ≢ v'
    → version_key o v row ≡ true
    → version_key o' v' row ≡ false
unfolding version_key
version_key-apart o v o' v' row ne h =
    ground (arith, eq_iff row.document_version_id v, eq_iff row.document_version_id v')

-- What `transition_version` guarantees of the tables when it returns `result`.
pub record Swapped (o v : String) (n : ℕ) (target : LifecycleStatus) (us : List Update) (now : ℕ)
    (before after : Database) (result : DocumentVersion) : Type 0 where
  pub current : DocumentVersion
  pub found : find_where (version_key o v) before.versions ≡ some current
  pub at_revision : current.lifecycle_revision ≡ n
  pub permitted : may_transition current.lifecycle_status target us ≡ true
  pub next_revision : result.lifecycle_revision ≡ n + 1
  pub has_target : result.lifecycle_status ≡ target
  pub identity_kept : SameIdentity current result
  pub updates_made : HasRequested us current result
  pub stamped : result.updated_at ≡ now
  pub valid : version_is_valid result ≡ true
  pub stored : find_where (version_key o v) after.versions ≡ some result
  pub others_kept :
      (o' v' : String)
      → v ≢ v'
      → find_where (version_key o' v') after.versions
        ≡ find_where (version_key o' v') before.versions
  pub rest_kept : after ≡ record before { versions = after.versions }

pub Transitioned-Swapped :
    (o v : String) (n : ℕ) (target : LifecycleStatus) (us : List Update) (now : ℕ)
    (before after : Database) (r : DocumentVersion)
    → Transitioned o v n target us now before after r
    → Swapped o v n target us now before after r
unfolding transition_candidate set_lifecycle
Transitioned-Swapped o v n target us now before after r t =
    let candidate = transition_candidate t.current target us now in
    let key = version_key o v in
    let hit = find_where_sound key before.versions t.current t.found in
    let selected = revision_key-hit o v n t.current hit t.at_revision in
    let first =
      find_where-refine (revision_key o v n) key before.versions t.current (revision_key-key o v n)
        t.found selected in
    let row_is : t.result_set.0 ≡ t.current = some-cancel (sym t.result_set.1 ∙ first) in
    let result_is : r ≡ set_lifecycle candidate t.current =
      t.result_set.2 ∙ ap (set_lifecycle candidate) row_is in
    record {
      current = t.current;
      found = t.found;
      at_revision = t.at_revision;
      permitted = t.permitted;
      next_revision =
          ap (λ (w : DocumentVersion). w.lifecycle_revision) result_is
          ∙ ap (λ (k : ℕ). k + 1) t.at_revision;
      has_target = ap (λ (w : DocumentVersion). w.lifecycle_status) result_is;
      identity_kept =
          subst (SameIdentity t.current) (sym result_is) (refl, refl, refl, refl, refl, refl, refl);
      updates_made =
          subst (HasRequested us t.current) (sym result_is)
            (apply_updates-HasRequested us t.current);
      stamped = ap (λ (w : DocumentVersion). w.updated_at) result_is;
      valid = t.result_valid;
      stored = rw t.written (
          find_where-update_hit (revision_key o v n) key (set_lifecycle candidate) before.versions
            t.current (set_lifecycle-key o v candidate) t.found selected
          ∙ ap some (sym result_is));
      others_kept = λ o' v' ne. rw t.written (
          find_where-update_miss (revision_key o v n) (version_key o' v') (set_lifecycle candidate)
            before.versions (set_lifecycle-key o' v' candidate)
            (λ y h. version_key-apart o v o' v' y ne (revision_key-key o v n y h)));
      rest_kept = rw t.written refl;
    }

write_candidate-KeepsCommitted :
    (o v : String) (n : ℕ) (candidate : DocumentVersion)
    → KeepsCommitted (write_candidate o v n candidate)
unfolding write_candidate update_lifecycle version_from_row
write_candidate-KeepsCommitted o v n candidate c =
    elim (Option-cases (find_where (revision_key o v n) c.working.versions)) [
      | inl e ↦ ground arith
      | inr (row, e) ↦ ground arith
    ]

transition_body-KeepsCommitted :
    (o v : String) (n : ℕ) (target : LifecycleStatus) (us : List Update) (now : ℕ)
    → KeepsCommitted (transition_body o v n target us now)
unfolding transition_body version_from_row
transition_body-KeepsCommitted o v n target us now c =
    elim (Option-cases (find_where (version_key o v) c.working.versions)) [
      | inl e ↦ ground arith
      | inr (row, e) ↦
          ground
            (arith, write_candidate-KeepsCommitted o v n (transition_candidate row target us now) c)
    ]

pub transition_version_in-KeepsCommitted :
    (o v : String) (n : ℕ) (target : LifecycleStatus) (us : List Update) (now : ℕ)
    → KeepsCommitted (transition_version_in false o v n target us now)
unfolding transition_version_in
transition_version_in-KeepsCommitted o v n target us now c =
    elim (Bool-cases (any is_unsupported us)) [
      | inl bad ↦ rw bad
      | inr good ↦ rw good (
          in_transaction-KeepsCommitted (transition_body o v n target us now)
            (transition_body-KeepsCommitted o v n target us now) c)
    ]

-- On an error the tables are as they were, and no transaction is left open.
pub transition_version-IsAtomic :
    (o v : String) (n : ℕ) (target : LifecycleStatus) (us : List Update) (now : ℕ) (c : Connection)
    → IsSettled c
    → IsAtomic (transition_version o v n target us now c) c
unfolding transition_version transition_version_in
transition_version-IsAtomic o v n target us now c s = elim (Bool-cases (any is_unsupported us)) [
  | inl bad ↦ rw bad (refl, s)
  | inr good ↦ rw good (
      in_transaction-IsAtomic (transition_body o v n target us now) c
        (transition_body-KeepsCommitted o v n target us now))
]

pub transition_version_in_ok :
    (t : Bool) (o v : String) (n : ℕ) (target : LifecycleStatus) (us : List Update) (now : ℕ)
    (c c' : Connection) (r : DocumentVersion)
    → transition_version_in t o v n target us now c ≡ (ok r, c')
    → (d : Connection) × Swapped o v n target us now c.working d.working r
      × (c' ≡ (if t then commit d else d))
      × Transitioned o v n target us now c.working d.working r
unfolding transition_version_in
transition_version_in_ok t o v n target us now c c' r h =
    let (_, h1) =
      if_raise-ok (any is_unsupported us) value_error
        (in_transaction t (transition_body o v n target us now)) h in
    let (d, h2, e) = in_transaction-ok t (transition_body o v n target us now) h1 in
    let w = transition_body_ok o v n target us now c d r h2 in
    (d, Transitioned-Swapped o v n target us now c.working d.working r w, e, w)

-- A transition that returns has made exactly the swap that was asked for, on committed tables: the
-- version was found in the owner's scope at the expected revision in a state that may move to the
-- target; what is returned and committed is that version with the requested updates (the last entry
-- that names a field gives it, and the other fields stay), with the target state, the next revision
-- and the time of the call, and is valid; every other version and every other table is as it was.
pub transition_version-Swapped :
    (o v : String) (n : ℕ) (target : LifecycleStatus) (us : List Update) (now : ℕ)
    (c c' : Connection) (r : DocumentVersion)
    → transition_version o v n target us now c ≡ (ok r, c')
    → Swapped o v n target us now c.working c'.committed r
unfolding transition_version
transition_version-Swapped o v n target us now c c' r h =
    let (d, w, e, _) = transition_version_in_ok true o v n target us now c c' r h in rw e w

-- What a transition from the tables `before` leaves, by whether it returns.
abbrev pub SwappedOrKept :
    String
    → String
    → ℕ
    → LifecycleStatus
    → List Update
    → ℕ
    → Database
    → Result DocumentVersion × Connection
    → Type 0
SwappedOrKept o v n target us now before (ok r, c') =
    Swapped o v n target us now before c'.committed r × IsSettled c'
SwappedOrKept o v n target us now before (err e, c') = (c'.committed ≡ before) × IsSettled c'

transition-SwappedOrKept :
    (o v : String) (n : ℕ) (target : LifecycleStatus) (us : List Update) (now : ℕ) (c : Connection)
    (r : Result DocumentVersion × Connection)
    → transition_version o v n target us now c ≡ r
    → IsSettled c
    → IsAtomic r c
    → SwappedOrKept o v n target us now c.committed r
transition-SwappedOrKept o v n target us now c (err e, c') h s a = a
transition-SwappedOrKept o v n target us now c (ok r, c') h s a = (
  subst (λ d. Swapped o v n target us now d c'.committed r) s
      (transition_version-Swapped o v n target us now c c' r h),
  a,
)

-- A transition on a settled connection is all or nothing: one that raises leaves the committed
-- tables as they were, and one that returns has committed exactly its swap of the one version; no
-- transaction is left open.
pub transition_version-cases :
    (o v : String) (n : ℕ) (target : LifecycleStatus) (us : List Update) (now : ℕ) (c : Connection)
    → IsSettled c
    → SwappedOrKept o v n target us now c.committed (transition_version o v n target us now c)
transition_version-cases o v n target us now c s =
    transition-SwappedOrKept o v n target us now c (transition_version o v n target us now c) refl s
      (transition_version-IsAtomic o v n target us now c s)

stale_body :
    (o v : String) (n : ℕ) (target : LifecycleStatus) (us : List Update) (now : ℕ) (c : Connection)
    (current : DocumentVersion)
    → find_where (version_key o v) c.working.versions ≡ some current
    → version_is_valid current ≡ true
    → current.lifecycle_revision ≢ n
    → transition_body o v n target us now c ≡ (err concurrent_update, c)
unfolding transition_body version_from_row
stale_body o v n target us now c current e valid ne = ground arith

-- Of two transitions that expect one revision of a version, once the first has returned the second
-- raises ConcurrentLifecycleUpdateError and changes nothing, whatever its target, if its updates are
-- supported.
pub transition_version_twice :
    (o v : String) (n : ℕ) (target target' : LifecycleStatus) (us us' : List Update) (now now' : ℕ)
    (c c' : Connection) (r : DocumentVersion)
    → transition_version o v n target us now c ≡ (ok r, c')
    → any is_unsupported us' ≡ false
    → transition_version o v n target' us' now' c' ≡ (err concurrent_update, c')
unfolding transition_version transition_version_in
transition_version_twice o v n target target' us us' now now' c c' r h good =
    let (d, w, e, _) = transition_version_in_ok true o v n target us now c c' r h in
    rw good (
      rw e (
        rw
          (stale_body o v n target' us' now' (commit d) r w.stored w.valid
            (λ q. omega (arith, w.next_revision, q)))
          refl))

inactive_is_stuck :
    (current target : LifecycleStatus) (us : List Update)
    → is_inactive current ≡ true
    → may_transition current target us ≡ true
    → ⊥
unfolding may_transition allowed_transition is_processing_progress
inactive_is_stuck current target [] gone h = ground arith
inactive_is_stuck current target (u ∷ us) gone h = ground arith

-- INACTIVE is final: no transition of an inactive version returns.
pub inactive_is_final :
    (o v : String) (n : ℕ) (target : LifecycleStatus) (us : List Update) (now : ℕ)
    (c c' : Connection) (current r : DocumentVersion)
    → find_where (version_key o v) c.working.versions ≡ some current
    → is_inactive current.lifecycle_status ≡ true
    → transition_version o v n target us now c ≢ (ok r, c')
inactive_is_final o v n target us now c c' current r found gone h =
    let w = transition_version-Swapped o v n target us now c c' r h in
    let same : current ≡ w.current = some-cancel (sym found ∙ w.found) in
    inactive_is_stuck w.current.lifecycle_status target us (rw same at gone) w.permitted
