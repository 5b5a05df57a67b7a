-- ===== src/Storage/Registration/Idempotence.antt =====
-- register_version: a source is registered once.
use zhiyan_personal_academic.Storage.Registration.{
  insert_version, reread_version, DocumentVersion, String, Source, Connection, Option, ℕ,
  register_version_in, owned_document, owned_source_key, source_key, new_version, DocumentIdentity,
  with_versions, register_version,
}
use zhiyan_personal_academic.Storage.Versions.{version_from_row}
use zhiyan_personal_academic.Prelude.{
  refl, ◌≡◌, arith, some, none, Bool, find_where, false, List, true, any, ◌++◌, ◌∷◌, [], Bool-cases,
  inl, inr, eq_refl, Option-cases, ◌=ᵗ◌, subst, sym, find_where_sound, ◌∙◌, ap, if◌then◌else◌,
}
use zhiyan_personal_academic.Storage.Database.{
  ◌>>=◌, or_raise, identity_conflict, ok, commit, in_transaction-ok, >>=-ok,
}
use zhiyan_personal_academic.Storage.Lifecycle.{version_is_valid}

inserted_found :
    (p q : DocumentVersion → Bool) (row : DocumentVersion) (vs : List DocumentVersion)
    → ((v : DocumentVersion) → p v ≡ true → q v ≡ true)
    → any q vs ≡ false
    → p row ≡ true
    → find_where p (vs ++ row ∷ []) ≡ some row
unfolding find_where
inserted_found p q row [] below none_there hit = rw hit refl
inserted_found p q row (v ∷ vs) below none_there hit =
    let absent : p v ≡ false = elim (Bool-cases (p v)) [
      | inl hit_v ↦ let there = below v hit_v in ground arith
      | inr miss ↦ miss
    ] in
    rw absent (inserted_found p q row vs below (ground arith) hit)

any-snoc :
    (q : DocumentVersion → Bool) (row : DocumentVersion) (vs : List DocumentVersion)
    → q row ≡ true
    → any q (vs ++ row ∷ []) ≡ true
any-snoc q row [] hit = ground arith
any-snoc q row (v ∷ vs) hit = ground (arith, any-snoc q row vs hit)

-- What the first statement of a registration leaves, where the row that it finds is valid.
pub new_version-found :
    (id owner_id : String) (s : Source) (now : ℕ) (d : DocumentIdentity)
    → owned_document owner_id s.document_id d ≡ true
    → owned_source_key owner_id s (new_version id s d now) ≡ true
unfolding owned_document owned_source_key source_key new_version
new_version-found id owner_id s now d h = grind (arith, eq_refl)

-- How the first statement of a registration finds the version that it returns.
data Inserted (id owner_id : String) (s : Source) (now : ℕ) (c c' : Connection)
    (v : DocumentVersion) : Type 0 where
  kept :
      c' ≡ c
      → ((id' : String) (now' : ℕ)
          → insert_version id' owner_id s now' (commit c) ≡ (ok (some v), commit c))
      → Inserted id owner_id s now c c' v
  added :
      (d : DocumentIdentity)
      → find_where (owned_document owner_id s.document_id) c.working.documents ≡ some d
      → any (source_key s) c.working.versions ≡ false
      → v ≡ new_version id s d now
      → c' ≡ with_versions (c.working.versions ++ v ∷ []) c
      → Inserted id owner_id s now c c' v

insert_version-Inserted :
    (id owner_id : String) (s : Source) (now : ℕ) (c c' : Connection) (v : DocumentVersion)
    → insert_version id owner_id s now c ≡ (ok (some v), c')
    → Inserted id owner_id s now c c' v
unfolding insert_version
insert_version-Inserted id owner_id s now c c' v h =
    elim (Option-cases (find_where (owned_document owner_id s.document_id) c.working.documents)) [
      | inl absent ↦ kept (ground arith) λ id' now'. ground arith
      | inr (d, there) ↦ elim (Bool-cases (any (source_key s) c.working.versions)) [
        | inl known ↦ kept (ground arith) λ id' now'. ground arith
        | inr fresh ↦
            elim (Bool-cases (any (λ w. w.document_version_id =ᵗ id) c.working.versions)) [
              | inl taken ↦ ground arith
              | inr free ↦ added d there fresh (ground arith) (ground arith)
            ]
      ]
    ]

below_owned :
    (owner_id : String) (s : Source) (v : DocumentVersion)
    → owned_source_key owner_id s v ≡ true
    → source_key s v ≡ true
unfolding owned_source_key
below_owned owner_id s v h = ground arith

-- The statement, run again on what it left, inserts nothing and finds the same version.
insert_version_again :
    (id id' owner_id : String) (s : Source) (now now' : ℕ) (c c' : Connection) (v : DocumentVersion)
    → insert_version id owner_id s now c ≡ (ok (some v), c')
    → insert_version id' owner_id s now' (commit c') ≡ (ok (some v), commit c')
unfolding insert_version
insert_version_again id id' owner_id s now now' c c' v h =
    elim (insert_version-Inserted id owner_id s now c c' v h) [
      | kept same again ↦ rw same (again id' now')
      | added d there fresh new after ↦
          let mine : owned_source_key owner_id s v ≡ true =
            subst (λ w. owned_source_key owner_id s w ≡ true) (sym new)
              (new_version-found id owner_id s now d (find_where_sound _ _ _ there)) in
          let found =
            inserted_found (owned_source_key owner_id s) (source_key s) v c.working.versions
              (below_owned owner_id s) fresh mine in
          let known =
            any-snoc (source_key s) v c.working.versions (below_owned owner_id s v mine) in
          rw after (ground (arith, there, known, found))
    ]

nothing_inserted :
    (id owner_id : String) (s : Source) (now : ℕ) (c c' : Connection)
    → insert_version id owner_id s now c ≡ (ok none, c')
    → find_where (owned_source_key owner_id s) c'.working.versions ≡ none
unfolding insert_version
nothing_inserted id owner_id s now c c' h = ground arith

valid_row :
    (o : Option DocumentVersion) (c c' : Connection) (v : DocumentVersion)
    → (or_raise o identity_conflict >>= version_from_row) c ≡ (ok v, c')
    → (o ≡ some v) × (version_is_valid v ≡ true) × (c' ≡ c)
unfolding version_from_row
valid_row none c c' v h = cc
valid_row (some w) c c' v h = elim (Bool-cases (version_is_valid w)) [
  | inl good ↦ ground arith
  | inr bad ↦ ground arith
]

some-is_not-none : (v : DocumentVersion) → some v ≡ none → ⊥
some-is_not-none v h = cc

read_back :
    (owner_id : String) (s : Source) (o : Option DocumentVersion) (c c' : Connection)
    (v : DocumentVersion)
    → (o ≡ none → find_where (owned_source_key owner_id s) c.working.versions ≡ none)
    → (reread_version owner_id s o >>= λ row. or_raise row identity_conflict >>= version_from_row) c
      ≡ (ok v, c')
    → (o ≡ some v) × (version_is_valid v ≡ true) × (c' ≡ c)
unfolding reread_version
read_back owner_id s (some w) c c' v absent h = valid_row (some w) c c' v h
read_back owner_id s none c c' v absent h =
    let found = valid_row (find_where (owned_source_key owner_id s) c.working.versions) c c' v h in
    absurd (some-is_not-none v (sym found.0 ∙ absent refl))

-- A registration that returns has run its first statement, and read what that left.
pub register_version_in-ok :
    (t : Bool) (id owner_id : String) (s : Source) (now : ℕ) (c c' : Connection)
    (v : DocumentVersion)
    → register_version_in t id owner_id s now c ≡ (ok v, c')
    → (e : Connection) × (insert_version id owner_id s now c ≡ (ok (some v), e))
      × (version_is_valid v ≡ true)
      × (c' ≡ (if t then commit e else e))
unfolding register_version_in
register_version_in-ok t id owner_id s now c c' v h =
    let (d, body, after) =
      in_transaction-ok t
        (insert_version id owner_id s now >>= λ inserted.
          reread_version owner_id s inserted >>= λ row.
          or_raise row identity_conflict >>= version_from_row)
        h in
    let (o, e, first, later) =
      >>=-ok (insert_version id owner_id s now)
        (λ inserted. reread_version owner_id s inserted >>= λ row.
          or_raise row identity_conflict >>= version_from_row)
        body in
    let (row, valid, same) =
      read_back owner_id s o e d v
        (λ none_in.
          nothing_inserted id owner_id s now c e
            (subst (λ z. insert_version id owner_id s now c ≡ (ok z, e)) none_in first))
        later in
    (
      e,
      subst (λ z. insert_version id owner_id s now c ≡ (ok z, e)) row first,
      valid,
      after ∙ ap (λ (x : Connection). if t then commit x else x) same,
    )

register_version_from :
    (id owner_id : String) (s : Source) (now : ℕ) (c e : Connection) (v : DocumentVersion)
    → insert_version id owner_id s now c ≡ (ok (some v), e)
    → version_is_valid v ≡ true
    → register_version id owner_id s now c ≡ (ok v, commit e)
unfolding register_version register_version_in reread_version version_from_row
register_version_from id owner_id s now c e v h valid = rw h (rw valid refl)

-- Registering the same source again, with any new id and at any later time, returns the version
-- that the first registration returned and leaves the tables as that left them.
pub register_version_twice :
    (id id' owner_id : String) (s : Source) (now now' : ℕ) (c c' : Connection) (v : DocumentVersion)
    → register_version id owner_id s now c ≡ (ok v, c')
    → register_version id' owner_id s now' c' ≡ (ok v, c')
unfolding register_version
register_version_twice id id' owner_id s now now' c c' v h =
    let (e, first, valid, after) = register_version_in-ok true id owner_id s now c c' v h in
    rw after (
      register_version_from id' owner_id s now' (commit e) (commit e) v
        (insert_version_again id id' owner_id s now now' c e v first) valid)
