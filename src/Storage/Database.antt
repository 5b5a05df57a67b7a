-- ===== src/Storage/Database.antt =====
-- backend/storage/postgres.py: the connection, its transactions and its errors. A connection holds
-- the committed tables and the tables that the open transaction sees. The SQL of the source is
-- written as operations on the latter.
use zhiyan_personal_academic.Prelude.{
  ℕ, ◌≡◌, refl, ◌∙◌, Bool, true, false, Option, none, some, List, if◌then◌else◌,
}
use zhiyan_personal_academic.Storage.Lifecycle.{DocumentVersion}
use zhiyan_personal_academic.Storage.Records.{
  DocumentIdentity, IngestionJob, CleanupJob, PdfObject, ChunkRecord,
}

-- A row of rag_chunks: the record with its place in the snapshot.
pub record ChunkRow : Type 0 where
  pub chunk_ordinal : ℕ
  pub chunk : ChunkRecord

pub record Database : Type 0 where
  pub documents : List DocumentIdentity
  pub versions : List DocumentVersion
  pub jobs : List IngestionJob
  pub pdf_objects : List PdfObject
  pub chunks : List ChunkRow
  pub cleanups : List CleanupJob

pub record Connection : Type 0 where
  pub committed : Database
  pub working : Database

pub data Error : Type 0 where
  value_error validation_error fact_source identity_conflict : Error
  concurrent_update lifecycle_transition database_error : Error

pub data Result {ℓ} (A : Type ℓ) : Type ℓ where
  ok : A → Result A
  err : Error → Result A

-- A repository call: the new connection, and what the call returns or raises.
abbrev pub Repo : Type 0 → Type 0
Repo A = Connection → Result A × Connection

abbrev pub and_then : {A B : Type 0} → Result A × Connection → (A → Repo B) → Result B × Connection
and_then (ok a, c) f = f a c
and_then (err e, c) f = (err e, c)

infixl 5 ◌>>=◌ ◌>>◌
abbrev pub ◌>>=◌ : {A B : Type 0} → Repo A → (A → Repo B) → Repo B
◌>>=◌ m f c = and_then (m c) f

abbrev pub ◌>>◌ : {A : Type 0} → Repo (Unit {0}) → Repo A → Repo A
m >> k = m >>= λ _. k

abbrev pub return : {A : Type 0} → A → Repo A
return a c = (ok a, c)

abbrev pub raise : {A : Type 0} → Error → Repo A
raise e c = (err e, c)

abbrev pub require : Bool → Error → Repo (Unit {0})
require test e c = if test then (ok tt, c) else (err e, c)

-- `if row is None: raise`.
abbrev pub or_raise : {A : Type 0} → Option A → Error → Repo A
or_raise none e c = (err e, c)
or_raise (some a) e c = (ok a, c)

abbrev pub commit : Connection → Connection
commit c = record { committed = c.working; working = c.working }

abbrev pub rollback : Connection → Connection
rollback c = record { committed = c.committed; working = c.committed }

-- What `try: ...; commit; return` with `except: rollback; raise` makes of its body. With
-- `commit_transaction` false the body's changes stay in the open transaction.
abbrev pub settle : {A : Type 0} → Bool → Result A × Connection → Result A × Connection
settle commit_transaction (ok a, c) = (ok a, if commit_transaction then commit c else c)
settle commit_transaction (err e, c) = (err e, rollback c)

abbrev pub in_transaction : {A : Type 0} → Bool → Repo A → Repo A
in_transaction commit_transaction body c = settle commit_transaction (body c)

abbrev pub read : {A : Type 0} → (Database → A) → Repo A
read f c = (ok (f c.working), c)

-- No transaction is open: what the next statement sees is what is committed.
abbrev pub IsSettled : Connection → Type 0
IsSettled c = c.working ≡ c.committed

-- A call that leaves the committed tables alone.
abbrev pub KeepsCommitted : {A : Type 0} → Repo A → Type 0
KeepsCommitted m = (c : Connection) → (m c).1.committed ≡ c.committed

-- All or nothing: on an error the tables are as they were, and no transaction is left open.
abbrev pub IsAtomic : {A : Type 0} → Result A × Connection → Connection → Type 0
IsAtomic (ok a, c') c = IsSettled c'
IsAtomic (err e, c') c = (c'.committed ≡ c.committed) × IsSettled c'

settle-IsAtomic :
    {A : Type 0} (r : Result A × Connection) (c : Connection)
    → r.1.committed ≡ c.committed
    → IsAtomic (settle true r) c
settle-IsAtomic (ok a, c') c h = refl
settle-IsAtomic (err e, c') c h = (h, refl)

pub in_transaction-IsAtomic :
    {A : Type 0} (m : Repo A) (c : Connection)
    → KeepsCommitted m
    → IsAtomic (in_transaction true m c) c
in_transaction-IsAtomic m c h = settle-IsAtomic (m c) c (h c)

and_then-committed :
    {A B : Type 0} (r : Result A × Connection) (f : A → Repo B) (d : Database)
    → r.1.committed ≡ d
    → ((a : A) → KeepsCommitted (f a))
    → (and_then r f).1.committed ≡ d
and_then-committed (ok a, c) f d h k = k a c ∙ h
and_then-committed (err e, c) f d h k = h

pub >>=-KeepsCommitted :
    {A B : Type 0} (m : Repo A) (f : A → Repo B)
    → KeepsCommitted m
    → ((a : A) → KeepsCommitted (f a))
    → KeepsCommitted (m >>= f)
>>=-KeepsCommitted m f h k c = and_then-committed (m c) f c.committed (h c) k

settle-committed :
    {A : Type 0} (r : Result A × Connection) (d : Database)
    → r.1.committed ≡ d
    → (settle false r).1.committed ≡ d
settle-committed (ok a, c) d h = h
settle-committed (err e, c) d h = h

pub in_transaction-KeepsCommitted :
    {A : Type 0} (m : Repo A) → KeepsCommitted m → KeepsCommitted (in_transaction false m)
in_transaction-KeepsCommitted m h c = settle-committed (m c) c.committed (h c)

-- Inversion of a call that returns.
module _ {B : Type 0} {c' : Connection} {b : B} where
  pub require-ok :
      {c : Connection} (test : Bool) (e : Error) (k : Repo B)
      → (require test e >> k) c ≡ (ok b, c')
      → (test ≡ true) × (k c ≡ (ok b, c'))
  require-ok true e k h = (refl, h)
  require-ok false e k h = cc

  pub if_raise-ok :
      {c : Connection} (test : Bool) (e : Error) (k : Repo B)
      → (if test then raise e else k) c ≡ (ok b, c')
      → (test ≡ false) × (k c ≡ (ok b, c'))
  if_raise-ok true e k h = cc
  if_raise-ok false e k h = (refl, h)

  pub or_raise-ok :
      {A : Type 0} {c : Connection} (o : Option A) (e : Error) (f : A → Repo B)
      → (or_raise o e >>= f) c ≡ (ok b, c')
      → (a : A) × (o ≡ some a) × (f a c ≡ (ok b, c'))
  or_raise-ok none e f h = cc
  or_raise-ok (some a) e f h = (a, refl, h)

  and_then-ok :
      {A : Type 0} (r : Result A × Connection) (f : A → Repo B)
      → and_then r f ≡ (ok b, c')
      → (a : A) × (d : Connection) × (r ≡ (ok a, d)) × (f a d ≡ (ok b, c'))
  and_then-ok (ok a, d) f h = (a, d, refl, h)
  and_then-ok (err e, d) f h = cc

  pub >>=-ok :
      {A : Type 0} {c : Connection} (m : Repo A) (f : A → Repo B)
      → (m >>= f) c ≡ (ok b, c')
      → (a : A) × (d : Connection) × (m c ≡ (ok a, d)) × (f a d ≡ (ok b, c'))
  >>=-ok {c = c} m f h = and_then-ok (m c) f h

  settle-ok :
      (t : Bool) (r : Result B × Connection)
      → settle t r ≡ (ok b, c')
      → (d : Connection) × (r ≡ (ok b, d)) × (c' ≡ (if t then commit d else d))
  settle-ok t (ok a, d) h = (d, cc, cc)
  settle-ok t (err e, d) h = cc

  pub in_transaction-ok :
      {c : Connection} (t : Bool) (m : Repo B)
      → in_transaction t m c ≡ (ok b, c')
      → (d : Connection) × (m c ≡ (ok b, d)) × (c' ≡ (if t then commit d else d))
  in_transaction-ok {c = c} t m h = settle-ok t (m c) h
