-- ===== src/Tests/Online.antt =====
-- The resolution of one READY version.
use zhiyan_personal_academic.Storage.Database.{ok}
use zhiyan_personal_academic.Prelude.{
  sort_by, insert_by, has_duplicates, refl, [], ◌∷◌, In, ◌≡◌, select_where, false,
}
use zhiyan_personal_academic.Tests.Data.{ready_version, any_order, settled}
use zhiyan_personal_academic.Storage.Online.{
  resolve_online_versions, resolve_body, is_online, version_before,
}
use zhiyan_personal_academic.Storage.Online.Laws.{IsVisible, resolve_online_versions-IsVisible}
use zhiyan_personal_academic.Storage.Lifecycle.{is_active, version_is_valid, lifecycle_fails_closed}
use zhiyan_personal_academic.Storage.Identifiers.{
  is_contract_id, matches_identifier, is_identifier_code, is_alphanumeric,
}

resolved :
    resolve_online_versions any_order "owner" ("doc" ∷ []) (settled (ready_version ∷ []) [] [])
    ≡ (ok (ready_version ∷ []), settled (ready_version ∷ []) [] [])
unfolding resolve_online_versions resolve_body version_before sort_by insert_by is_online is_active
    version_is_valid lifecycle_fails_closed has_duplicates select_where is_contract_id
    matches_identifier is_identifier_code is_alphanumeric
resolved = refl

resolve_online_versions-IsVisible_example :
    (In ready_version (ready_version ∷ [])
      → In ready_version (ready_version ∷ []) × IsVisible "owner" ("doc" ∷ []) ready_version)
    × (In ready_version (ready_version ∷ []) × IsVisible "owner" ("doc" ∷ []) ready_version
        → In ready_version (ready_version ∷ []))
    × (has_duplicates ("doc" ∷ []) ≡ false)
resolve_online_versions-IsVisible_example =
    resolve_online_versions-IsVisible any_order "owner" ("doc" ∷ [])
      (settled (ready_version ∷ []) [] []) (settled (ready_version ∷ []) [] []) (ready_version ∷ [])
      ready_version resolved
