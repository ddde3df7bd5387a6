-- ===== src/TenantPurge.antt =====
-- tenantpurge.go: the deletion of a tenant's rows. The database is an
-- argument: a record of what each call answers in a state of it. Logging is left out.
pub mod Sql
pub mod Message
pub mod Confirmed
pub mod Contract
pub mod Gone
pub mod Handler
pub mod Subscription
pub mod Acyclic
mod EndToEnd
mod Tests
use Message.{confirmed_tenant_purge}
use Sql.{DbError, is_foreign_key_violation, delete_by_tenant, delete_by_id}
use shared_events.Prelude.{
  Text-Eq, ℕ-Eq, Bool, Bytes, List, Option, Result, Text, [], codes, contains, decimal, err, false,
  filter_by, has_text, if◌then◌else◌, length, none, not, ok, some, suc, true, zero, ℕ, ◌++◌, ◌+◌,
  ◌==◌, ◌||◌, ◌∷◌,
}
use shared_events.Event.{Uuid, nil_uuid, Event, UuidCodec, JsonCodec, from_json}

-- `tenant_tables` is `none` for the nil slice.
pub record TenantPurger : Type 0 where
  pub has_db : Bool
  pub skip : List Text
  pub tenant_tables : Option (List Text)

pub record TenantColumn : Type 0 where
  pub table : Text
  pub is_uuid : Bool

-- What a statement of the transaction gives.
pub data Exec (S : Type 0) : Type 0 where
  ran : ℕ → S → Exec S
  failed : DbError → S → Exec S

-- The rows of the query for the columns: read, not to be had, or cut short.
pub data Listing : Type 0 where
  listed : List TenantColumn → Listing
  unlisted : Text → Listing
  unread : Text → Listing

pub data Commit : Type 0 where
  committed : Commit
  not_committed : Text → Commit
  commit_lost : Text → Commit

pub record Db (S : Type 0) : Type 0 where
  pub list_columns : S → Listing
  pub begin : S → Option Text
  pub savepoint : S → Option DbError
  pub exec : Text → Text → S → Exec S
  pub rollback_to : S → Option DbError
  pub release : S → Option DbError
  pub table_exists : Text → S → Result Bool
  pub commit : S → Commit

module _ {S : Type 0} (db : Db S) where
  abbrev pub released : Option DbError → ℕ → S → Exec S
  released none n s = ran n s
  released (some e) n s = failed e s

  abbrev pub rolled_back : Option DbError → DbError → S → S → Exec S
  rolled_back none e before s = failed e before
  rolled_back (some e) _ before s = failed e s

  abbrev pub executed : S → Exec S → Exec S
  executed before (ran n s) = released (db.release s) n s
  executed before (failed e s) = rolled_back (db.rollback_to s) e before s

  abbrev pub with_savepoint : Option DbError → Text → Text → S → Exec S
  with_savepoint (some e) query arg s = failed e s
  with_savepoint none query arg s = executed s (db.exec query arg s)

  unfoldable pub exec_in_savepoint : Text → Text → S → Exec S
  exec_in_savepoint query arg s = with_savepoint (db.savepoint s) query arg s

  -- The loop of one pass: the blocked columns and the total, or the error that ends Purge.
  abbrev pub after_delete :
      TenantColumn
      → List TenantColumn
      → ℕ
      → Exec S
      → (List TenantColumn → ℕ → S → Result (List TenantColumn × ℕ) × S)
      → Result (List TenantColumn × ℕ) × S
  after_delete c blocked total (ran n s) rest = rest blocked (total + n) s
  after_delete c blocked total (failed e s) rest =
      if is_foreign_key_violation e
      then rest (blocked ++ c ∷ []) total s
      else (err (codes "tenant purge: " ++ c.table ++ codes ": " ++ e.message), s)

  unfoldable pub one_pass :
      Text → List TenantColumn → List TenantColumn → ℕ → S → Result (List TenantColumn × ℕ) × S
  one_pass tenant [] blocked total s = (ok (blocked, total), s)
  one_pass tenant (c ∷ pending) blocked total s =
      after_delete c blocked total (exec_in_savepoint (delete_by_tenant c.table c.is_uuid) tenant s)
        (one_pass tenant pending)

  abbrev pub after_pass :
      ℕ
      → Result (List TenantColumn × ℕ) × S
      → (List TenantColumn → ℕ → S → Result ℕ × S)
      → Result ℕ × S
  after_pass n (err e, s) rest = (err e, s)
  after_pass n (ok (blocked, total), s) rest =
      if length blocked == n
      then (err (codes "tenant purge: foreign keys block " ++ decimal n ++ codes " tables"), s)
      else rest blocked total s

  -- The passes that are left; no table is tried in a pass after the last.
  unfoldable pub passes : ℕ → Text → List TenantColumn → ℕ → S → Result ℕ × S
  passes left tenant [] total s = (ok total, s)
  passes zero tenant (c ∷ pending) total s = (
    err (
        codes "tenant purge: foreign keys still block "
        ++ decimal (length (c ∷ pending))
        ++ codes " tables"),
    s,
  )
  passes (suc left) tenant (c ∷ pending) total s =
      after_pass (length (c ∷ pending)) (one_pass tenant (c ∷ pending) [] total s)
        (passes left tenant)

  abbrev pub after_own : Text → ℕ → Exec S → (ℕ → S → Result ℕ × S) → Result ℕ × S
  after_own t total (ran n s) rest = rest (total + n) s
  after_own t total (failed e s) rest =
      (err (codes "tenant purge: " ++ t ++ codes ": " ++ e.message), s)

  abbrev pub if_exists : Text → Text → ℕ → Result Bool → S → (ℕ → S → Result ℕ × S) → Result ℕ × S
  if_exists tenant t total (err e) s rest = (err (codes "tenant purge: " ++ e), s)
  if_exists tenant t total (ok false) s rest = rest total s
  if_exists tenant t total (ok true) s rest =
      after_own t total (exec_in_savepoint (delete_by_id t) tenant s) rest

  unfoldable pub own_tables : Text → List Text → ℕ → S → Result ℕ × S
  own_tables tenant [] total s = (ok total, s)
  own_tables tenant (t ∷ ts) total s =
      if_exists tenant t total (db.table_exists t s) s (own_tables tenant ts)

  -- The end of Purge: Commit, and the deferred Rollback that undoes all before it.
  abbrev pub closed : ℕ → S → S → Commit → Result ℕ × S
  closed total before s committed = (ok total, s)
  closed total before s (not_committed e) = (err (codes "tenant purge: commit: " ++ e), before)
  closed total before s (commit_lost e) = (err (codes "tenant purge: commit: " ++ e), s)

  abbrev pub to_commit : S → Result ℕ × S → Result ℕ × S
  to_commit before (err e, s) = (err e, before)
  to_commit before (ok total, s) = closed total before s (db.commit s)

  abbrev pub then_own : Text → List Text → Result ℕ × S → Result ℕ × S
  then_own tenant ts (err e, s) = (err e, s)
  then_own tenant ts (ok total, s) = own_tables tenant ts total s

abbrev tables_or_default : Option (List Text) → List Text
tables_or_default none = codes "tenants" ∷ codes "auth_tenants" ∷ []
tables_or_default (some ts) = ts

abbrev pub is_purged : List Text → TenantColumn → Bool
is_purged skip c = not (
    contains skip c.table
    || has_text c.table (codes "outbox")
    || has_text c.table (codes "processed_event"))

abbrev pub max_passes : ℕ
max_passes = 30

module _ {S : Type 0} (uuid : UuidCodec) (db : Db S) (p : TenantPurger) where
  -- The transaction.
  abbrev pub purge_columns : Text → List TenantColumn → S → Result ℕ × S
  purge_columns tenant cols s = to_commit db s (
      then_own db tenant (tables_or_default p.tenant_tables) (passes db max_passes tenant cols 0 s))

  abbrev pub begun : Option Text → Text → List TenantColumn → S → Result ℕ × S
  begun (some e) tenant cols s = (err (codes "tenant purge: begin: " ++ e), s)
  begun none tenant cols s = purge_columns tenant cols s

  -- tenantColumns, then the rest.
  abbrev pub with_columns : Listing → Text → S → Result ℕ × S
  with_columns (unlisted e) tenant s = (err (codes "tenant purge: list tables: " ++ e), s)
  with_columns (unread e) tenant s = (err e, s)
  with_columns (listed cols) tenant s =
      begun (db.begin s) tenant (filter_by (is_purged p.skip) cols) s

  unfoldable pub purge : Uuid → S → Result ℕ × S
  purge tenant_id s =
      if not p.has_db
      then (err (codes "tenant purge: no database"), s)
      else if tenant_id == nil_uuid
      then (err (codes "tenant purge: refusing a nil tenant id"), s)
      else with_columns (db.list_columns s) (uuid.print tenant_id) s

-- What the handler answers the server.
pub data Reply : Type 0 where
  ack : Reply
  nak : Reply

module _ {S : Type 0} (uuid : UuidCodec) (json : JsonCodec) (db : Db S) (p : TenantPurger) where
  abbrev pub after_purge : Result ℕ × S → Reply × S
  after_purge (err e, s) = (nak, s)
  after_purge (ok n, s) = (ack, s)

  abbrev pub act_on : (Uuid × Text) × Bool → S → Reply × S
  act_on ((tenant_id, reason), false) s = (ack, s)
  act_on ((tenant_id, reason), true) s = after_purge (purge uuid db p tenant_id s)

  abbrev pub decoded : Result Event → S → Reply × S
  decoded (err e) s = (ack, s)
  decoded (ok evt) s = act_on (confirmed_tenant_purge uuid (some evt)) s

  unfoldable pub handle : Bytes → S → Reply × S
  handle body s = decoded (from_json json body) s
