-- ===== src/TenantPurge/Acyclic/Contract.antt =====
-- What it takes of a database that Purge succeeds.
use shared_events.Prelude.{
  ℕ-Eq, Text-Eq, Bool, List, Result, Text, all_of, any_of, err, false, if◌then◌else◌, leb, ltb,
  none, not, ok, true, ℕ, ◌&&◌, ◌==◌, ◌||◌, ◌≡◌,
}
use shared_events.TenantPurge.Sql.{is_foreign_key_violation, delete_by_tenant, delete_by_id}
use shared_events.TenantPurge.{TenantColumn, Exec, ran, failed, committed, Db}
use shared_events.TenantPurge.Contract.{Target, rows_of}

abbrev pub has_run : {S : Type 0} → Exec S → Bool
has_run (ran n s) = true
has_run (failed e s) = false

-- It has run, or a foreign key blocks it.
abbrev pub is_retried : {S : Type 0} → Exec S → Bool
is_retried (ran n s) = true
is_retried (failed e s) = is_foreign_key_violation e

abbrev pub succeeds {ℓ} : {A : Type ℓ} → Result A → Bool
succeeds (ok a) = true
succeeds (err e) = false

-- The columns of a lower rank are purged.
abbrev pub is_ready :
    {S : Type 0} → (Target → S → Bool) → List TenantColumn → (Text → ℕ) → ℕ → S → Bool
is_ready gone cols rank j s = all_of (λ x. leb j (rank x.table) || gone (rows_of x.table) s) cols

abbrev pub all_gone : {S : Type 0} → (Target → S → Bool) → List TenantColumn → S → Bool
all_gone gone cols s = all_of (λ x. gone (rows_of x.table) s) cols

-- The column is one of those.
abbrev pub is_listed : List TenantColumn → TenantColumn → Bool
is_listed cols c =
    any_of (λ d. c.table == d.table && (if c.is_uuid then d.is_uuid else not d.is_uuid)) cols

-- A database whose statements on the given columns and on the tenants' tables that it has fail only
-- by foreign keys, and whose foreign keys have no cycle: a table has a rank, below thirty, and what
-- can block it are tables of lower ranks. Of a statement on another table nothing is said.
pub record IsAcyclic {S : Type 0} (db : Db S) (tenant : Text) (gone : Target → S → Bool)
    (cols : List TenantColumn) (rank : Text → ℕ) : Type 0 where
  pub begins : (s : S) → db.begin s ≡ none
  pub savepoints : (s : S) → db.savepoint s ≡ none
  pub releases : (s : S) → db.release s ≡ none
  pub rolls_back : (s : S) → db.rollback_to s ≡ none
  pub commits : (s : S) → db.commit s ≡ committed
  pub exists_known : (t : Text) (s : S) → succeeds (db.table_exists t s) ≡ true
  -- the tenant's own row goes once the columns are purged
  pub own_runs :
      (t : Text) (s : S)
      → db.table_exists t s ≡ ok true
      → all_gone gone cols s ≡ true
      → has_run (db.exec (delete_by_id t) tenant s) ≡ true
  pub retried :
      (c : TenantColumn) (s : S)
      → is_listed cols c ≡ true
      → is_retried (db.exec (delete_by_tenant c.table c.is_uuid) tenant s) ≡ true
  pub runs :
      (c : TenantColumn) (s : S)
      → is_listed cols c ≡ true
      → is_ready gone cols rank (rank c.table) s ≡ true
      → has_run (db.exec (delete_by_tenant c.table c.is_uuid) tenant s) ≡ true
  pub ranked : all_of (λ c. ltb (rank c.table) 30) cols ≡ true
