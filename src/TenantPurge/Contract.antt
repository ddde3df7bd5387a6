-- ===== src/TenantPurge/Contract.antt =====
-- What Purge relies on the database for, and the statements in their savepoint.
use shared_events.Prelude.{
  ℕ-Eq, Text-Eq, Bool, Option, Text, arith, false, none, not, ok, refl, some, text_eq_iff, true, ℕ,
  ◌==◌, ◌||◌, ◌≡◌,
}
use shared_events.TenantPurge.Sql.{DbError, delete_by_tenant, delete_by_id}
use shared_events.TenantPurge.{
  TenantColumn, Exec, ran, failed, Db, released, rolled_back, executed, with_savepoint,
}

-- What should be gone: the rows of a table with a tenant_id column, or the row of the tenant itself.
pub data Target : Type 0 where
  rows_of : Text → Target
  row_in : Text → Target

abbrev pub names : Target → TenantColumn → Bool
names (rows_of t) c = c.table == t
names (row_in t) c = false

abbrev pub names_own : Target → Text → Bool
names_own (rows_of t) own = false
names_own (row_in t) own = own == t

abbrev pub state_of : {S : Type 0} → Exec S → S
state_of (ran n s) = s
state_of (failed e s) = s

-- Holds of the state that a statement which succeeded leaves.
abbrev pub on_ran : {S : Type 0} → (S → Bool) → Exec S → Bool
on_ran p (ran n s) = p s
on_ran p (failed e s) = true

-- A database's contract with Purge, for one tenant.
pub record IsPurgeable {S : Type 0} (db : Db S) (tenant : Text) (gone : Target → S → Bool)
    : Type 0 where
  -- a DELETE that succeeds removes the rows that it names
  pub deletes_rows :
      (t : Text) (is_uuid : Bool) (s : S)
      → on_ran (gone (rows_of t)) (db.exec (delete_by_tenant t is_uuid) tenant s) ≡ true
  pub deletes_row :
      (t : Text) (s : S) → on_ran (gone (row_in t)) (db.exec (delete_by_id t) tenant s) ≡ true
  -- no statement brings rows of the tenant back
  pub keeps :
      (u : Target) (query : Text) (s : S)
      → gone u s ≡ true
      → gone u (state_of (db.exec query tenant s)) ≡ true
  -- a table that is not there holds no row
  pub absent : (t : Text) (s : S) → db.table_exists t s ≡ ok false → gone (row_in t) s ≡ true

module _ {S : Type 0} (db : Db S) (tenant : Text) (gone : Target → S → Bool)
    (k : IsPurgeable db tenant gone) where
  released-on_ran :
      (p : S → Bool) (o : Option DbError) (n : ℕ) (s : S)
      → p s ≡ true
      → on_ran p (released db o n s) ≡ true
  released-on_ran p none n s h = h
  released-on_ran p (some e) n s h = refl

  rolled_back-on_ran :
      (p : S → Bool) (o : Option DbError) (e : DbError) (before s : S)
      → on_ran p (rolled_back db o e before s) ≡ true
  rolled_back-on_ran p none e before s = refl
  rolled_back-on_ran p (some r) e before s = refl

  executed-on_ran :
      (p : S → Bool) (before : S) (x : Exec S)
      → on_ran p x ≡ true
      → on_ran p (executed db before x) ≡ true
  executed-on_ran p before (ran n s) h = released-on_ran p (db.release s) n s h
  executed-on_ran p before (failed e s) h = rolled_back-on_ran p (db.rollback_to s) e before s

  pub with_savepoint-on_ran :
      (p : S → Bool) (o : Option DbError) (query : Text) (s : S)
      → on_ran p (db.exec query tenant s) ≡ true
      → on_ran p (with_savepoint db o query tenant s) ≡ true
  with_savepoint-on_ran p none query s h = executed-on_ran p s (db.exec query tenant s) h
  with_savepoint-on_ran p (some e) query s h = refl

  released-state_of :
      (p : S → Bool) (o : Option DbError) (n : ℕ) (s : S)
      → p s ≡ true
      → p (state_of (released db o n s)) ≡ true
  released-state_of p none n s h = h
  released-state_of p (some e) n s h = h

  rolled_back-state_of :
      (p : S → Bool) (o : Option DbError) (e : DbError) (before s : S)
      → p before ≡ true
      → p s ≡ true
      → p (state_of (rolled_back db o e before s)) ≡ true
  rolled_back-state_of p none e before s b h = b
  rolled_back-state_of p (some r) e before s b h = h

  executed-state_of :
      (p : S → Bool) (before : S) (x : Exec S)
      → p before ≡ true
      → p (state_of x) ≡ true
      → p (state_of (executed db before x)) ≡ true
  executed-state_of p before (ran n s) b h = released-state_of p (db.release s) n s h
  executed-state_of p before (failed e s) b h =
      rolled_back-state_of p (db.rollback_to s) e before s b h

  pub with_savepoint-state_of :
      (p : S → Bool) (o : Option DbError) (query : Text) (s : S)
      → p s ≡ true
      → p (state_of (db.exec query tenant s)) ≡ true
      → p (state_of (with_savepoint db o query tenant s)) ≡ true
  with_savepoint-state_of p none query s b h = executed-state_of p s (db.exec query tenant s) b h
  with_savepoint-state_of p (some e) query s b h = b

  pub named_gone :
      (u : Target) (c : TenantColumn) (s : S)
      → gone (rows_of c.table) s ≡ true
      → (not (names u c) || gone u s) ≡ true
  named_gone (rows_of t) c s h = ground (arith, text_eq_iff c.table t)
  named_gone (row_in t) c s h = refl

  pub on_ran-weaken :
      (p q : S → Bool) (x : Exec S)
      → ((s : S) → p s ≡ true → q s ≡ true)
      → on_ran p x ≡ true
      → on_ran q x ≡ true
  on_ran-weaken p q (ran n s) w h = w s h
  on_ran-weaken p q (failed e s) w h = refl

  pub own_gone :
      (u : Target) (t : Text) (s : S)
      → gone (row_in t) s ≡ true
      → (not (names_own u t) || gone u s) ≡ true
  own_gone (rows_of v) t s h = refl
  own_gone (row_in v) t s h = ground (arith, text_eq_iff t v)
