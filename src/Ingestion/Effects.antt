-- ===== src/Ingestion/Effects.antt =====
-- The state of a call that uses both the fact source and what lies outside the repository: the
-- indexes, the object store and caches are a world `W`, of which nothing is assumed.
use zhiyan_personal_academic.Prelude.{Option}
use zhiyan_personal_academic.Storage.Database.{Connection, Result, Repo}

pub record System (W : Type 0) : Type 0 where
  pub world : W
  pub connection : Connection

-- What a call of an outside service gives: `none` when it raises.
abbrev pub Service : Type 0 → Type 0 → Type 0
Service W A = W → Option A × W

module _ {W : Type 0} where
  abbrev resumed : {A : Type 0} → System W → Result A × Connection → Result A × System W
  resumed s (r, c) = (r, record s { connection = c })

  -- A repository call within the system.
  abbrev pub on_repository : {A : Type 0} → Repo A → System W → Result A × System W
  on_repository m s = resumed s (m s.connection)

  abbrev answered : {A : Type 0} → System W → Option A × W → Option A × System W
  answered s (r, w) = (r, record s { world = w })

  -- A service call within the system.
  abbrev pub on_service : {A : Type 0} → Service W A → System W → Option A × System W
  on_service m s = answered s (m s.world)
