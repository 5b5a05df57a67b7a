-- ===== src/Ingestion/Inactivation/Laws.antt =====
-- Inactivation hides the version first, and reports every step after that which failed.
use zhiyan_personal_academic.Prelude.{
  ◌≡◌, refl, arith, inl, inr, [], true, find_where, ◌≤◌, Bool-cases, ◌∷◌, ◌==◌,
}
use zhiyan_personal_academic.Storage.Database.{ok, err, Connection, IsSettled}
use zhiyan_personal_academic.Ingestion.Inactivation.{
  inactivated, cleanup_pending, invalid_writers, refused, String, commit_inactive, IndexWriter,
  List, InactivationClock, ℕ, length, Service, Result, DocumentVersion, after_commit, Inactivation,
  InactivationReason, System, is_inactive, some,
}
use zhiyan_personal_academic.Storage.Versions.{version_key}

-- The version is stored as INACTIVE in the committed tables, and no transaction is open.
pub record IsWithdrawn (o v : String) (c : Connection) : Type 0 where
  pub settled : IsSettled c
  pub stored : DocumentVersion
  pub found : find_where (version_key o v) c.committed.versions ≡ some stored
  pub is_gone : is_inactive stored.lifecycle_status ≡ true

-- Withdrawn unless the repository refused the transition, and pending only with failures to report.
abbrev pub IsClosed : {W : Type 0} → String → String → Connection → Inactivation × System W → Type 0
IsClosed o v before (inactivated r, s) = (r.failures ≡ []) × IsWithdrawn o v s.connection
IsClosed o v before (cleanup_pending r, s) = (1 ≤ length r.failures) × IsWithdrawn o v s.connection
IsClosed o v before (refused e, s) =
    (s.connection.committed ≡ before.committed) × IsSettled s.connection
IsClosed o v before (invalid_writers, s) = s.connection ≡ before

pub no_failures : (names : List String) → (length names == 0) ≡ true → names ≡ []
no_failures [] h = refl
no_failures (n ∷ ns) h = absurd (ground arith)

-- What the first statement leaves.
abbrev Committed :
    {W : Type 0} → String → String → Connection → Result DocumentVersion × System W → Type 0
Committed o v before (ok r, s) = IsWithdrawn o v s.connection
Committed o v before (err e, s) =
    (s.connection.committed ≡ before.committed) × IsSettled s.connection

-- The first statement calls no service.
pub commit_inactive_world :
    {W : Type 0} (clock : InactivationClock) (version : DocumentVersion)
    (reason : InactivationReason) (s : System W)
    → (commit_inactive clock version reason s).1.world ≡ s.world
unfolding commit_inactive
commit_inactive_world clock version reason s =
    elim (Bool-cases (is_inactive version.lifecycle_status)) [
      | inl gone ↦ rw gone refl
      | inr here ↦ rw here refl
    ]

module _ {W : Type 0} (es mv : IndexWriter W)
    (invalidate : String → String → String → Service W (Unit {0})) (max_attempts : ℕ) where
  -- What follows the commit starts from here: INACTIVE is committed, and no service was called yet.
  pub record FollowsCommit (clock : InactivationClock) (reason : InactivationReason) (o v : String)
      (before : System W) (r : Inactivation × System W) : Type 0 where
    pub start : System W
    pub version : DocumentVersion
    pub withdrawn : IsWithdrawn o v start.connection
    pub no_service_yet : start.world ≡ before.world
    pub rest : r ≡ after_commit es mv invalidate max_attempts clock reason (ok version, start)

  -- No service is called before the commit, nor when the transition is refused; and on wrong writers
  -- nothing happens.
  abbrev pub CommitsFirst :
      InactivationClock
      → InactivationReason
      → String
      → String
      → System W
      → Inactivation × System W
      → Type 0
  CommitsFirst clock reason o v before (inactivated q, s) =
      FollowsCommit clock reason o v before (inactivated q, s)
  CommitsFirst clock reason o v before (cleanup_pending q, s) =
      FollowsCommit clock reason o v before (cleanup_pending q, s)
  CommitsFirst clock reason o v before (refused e, s) = s.world ≡ before.world
  CommitsFirst clock reason o v before (invalid_writers, s) = s ≡ before
