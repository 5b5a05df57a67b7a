-- ===== src/Tests/Registration.antt =====
-- The registration of one paper's version, with its job and again.
use zhiyan_personal_academic.Storage.Database.{ok}
use zhiyan_personal_academic.Storage.Registration.{
  register_version, register_version_and_ingestion_job, register_version_in, insert_version,
  reread_version, new_version, owned_document, source_key, owned_source_key,
}
use zhiyan_personal_academic.Storage.Versions.{version_from_row}
use zhiyan_personal_academic.Tests.Data.{source, settled, registered_version}
use zhiyan_personal_academic.Storage.Registration.Registered.{
  RegisteredOrKept, register_version_and_ingestion_job-cases,
}
use zhiyan_personal_academic.Storage.Lifecycle.{version_is_valid, lifecycle_fails_closed}
use zhiyan_personal_academic.Prelude.{refl, [], ◌∷◌, ◌≡◌, find_where}
use zhiyan_personal_academic.Storage.Registration.Idempotence.{register_version_twice}

registered :
    register_version "v1" "owner" source 10 (settled [] [] [])
    ≡ (ok registered_version, settled (registered_version ∷ []) [] [])
unfolding register_version register_version_in insert_version reread_version new_version
    owned_document source_key owned_source_key version_from_row version_is_valid
    lifecycle_fails_closed find_where
registered = refl

register_version_twice_example :
    register_version "v2" "owner" source 11 (settled (registered_version ∷ []) [] [])
    ≡ (ok registered_version, settled (registered_version ∷ []) [] [])
register_version_twice_example =
    register_version_twice "v1" "v2" "owner" source 10 11 (settled [] [] [])
      (settled (registered_version ∷ []) [] []) registered_version registered

register_version_and_ingestion_job-cases_example :
    RegisteredOrKept "owner" source "k1"
      (settled [] [] [])
      (register_version_and_ingestion_job "v1" "j1" "owner" source "k1" (10, 11) (settled [] [] []))
register_version_and_ingestion_job-cases_example =
    register_version_and_ingestion_job-cases "v1" "j1" "owner" source "k1" (10, 11)
      (settled [] [] [])
