-- ===== src/Storage/Snapshots/Laws.antt =====
-- What the snapshot operations leave alone.
use zhiyan_personal_academic.Prelude.{
  ◌≡◌, refl, String, any, Bool-cases, ◌&&◌, not, inl, inr, ap, sym,
}
use zhiyan_personal_academic.Storage.Database.{Connection, IsSettled, Database}
use zhiyan_personal_academic.Storage.Snapshots.{
  purge_body, delete_snapshot, purge_inactive_runtime_snapshot, version_key, is_inactive, is_active,
}

-- A purge of a settled connection settles it again, and leaves the cleanup queue alone.
pub purge-keeps_queue :
    (o v : String) (c : Connection)
    → IsSettled c
    → IsSettled (purge_inactive_runtime_snapshot o v c).1
      × ((purge_inactive_runtime_snapshot o v c).1.working.cleanups ≡ c.working.cleanups)
unfolding purge_inactive_runtime_snapshot purge_body delete_snapshot
purge-keeps_queue o v c s =
    elim (Bool-cases (
      any (λ w. version_key o v w && is_inactive w.lifecycle_status && not (is_active w))
        c.working.versions)) [
          | inl yes' ↦ rw yes' (refl, refl)
          | inr no' ↦ rw no' (refl, ap (λ (d : Database). d.cleanups) (sym s))
        ]
