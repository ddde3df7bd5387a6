-- ===== src/TenantPurge/Acyclic/Tests.antt =====
-- A database that reads its statements, with two tables of which one has foreign keys to the other.
use shared_events.Prelude.{
  ℕ-Eq, Text-Eq, Bool, List, Option, Result, Text, [], codes, err, false, if◌then◌else◌, length,
  none, not, ok, some, suc, true, zero, ℕ, ◌&&◌, ◌++◌, ◌==◌, ◌||◌, ◌∷◌,
}
use shared_events.Event.{Uuid, UuidCodec, JsonCodec, Event, new_event, with_tenant_slug}
use shared_events.TenantPurge.Sql.{cond, DbError, read_ident}
use shared_events.TenantPurge.{TenantPurger, TenantColumn, Exec, ran, failed, listed, committed, Db}
use shared_events.TenantPurge.Contract.{Target, rows_of, row_in}
use shared_events.TenantPurge.Message.{new_tenant_purge_event}

abbrev one_rune : Text → Result Uuid
one_rune (u ∷ []) = ok u
one_rune _ = err (codes "invalid UUID")

abbrev uuid : UuidCodec
uuid = record { print = λ u. u ∷ []; parse = one_rune }

abbrev parent : TenantColumn
parent = record { table = codes "orders"; is_uuid = true }

abbrev child : TenantColumn
child = record { table = codes "order_lines"; is_uuid = false }

abbrev fk : DbError
fk = record { sql_state = some (codes "23503"); message = codes "violates" }

abbrev undefined : DbError
undefined = record { sql_state = some (codes "42P01"); message = codes "does not exist" }

abbrev dropped : ℕ → Text → Text
dropped zero s = s
dropped (suc n) [] = []
dropped (suc n) (c ∷ s) = dropped n s

abbrev is_blocked : Option (Text × Text) → Bool → Bool
is_blocked none s = false
is_blocked (some (name, rest)) s =
    (name == codes "orders" && rest == codes " WHERE " ++ cond true
      || name == codes "tenants" && rest == codes " WHERE id::text = $1")
    && not s

-- The tables that the database has, with the types of their columns.
abbrev is_known : Option (Text × Text) → Bool
is_known none = false
is_known (some (name, rest)) =
    name == codes "orders" && rest == codes " WHERE " ++ cond true
    || name == codes "order_lines" && rest == codes " WHERE " ++ cond false
    || name == codes "tenants" && rest == codes " WHERE id::text = $1"

-- The state says whether the tenant's rows are gone. The orders are blocked before the lines go, and
-- the tenant before all. The database reads the name in the statement, and knows three tables.
abbrev exec : Text → Bool → Exec Bool
exec query s =
    let named = read_ident (dropped (length (codes "DELETE FROM ")) query) in
    if not (is_known named)
    then failed undefined s
    else if is_blocked named s
    then failed fk s
    else ran 3 true

abbrev db : Db Bool
db = record {
  list_columns = λ s. listed (parent ∷ child ∷ []);
  begin = λ s. none;
  savepoint = λ s. none;
  exec = λ query arg s. exec query s;
  rollback_to = λ s. none;
  release = λ s. none;
  table_exists = λ t s. ok (t == codes "tenants");
  commit = λ s. committed;
}

abbrev purger : TenantPurger
purger = record { has_db = true; skip = []; tenant_tables = none }

abbrev gone : Target → Bool → Bool
gone (rows_of t) s = s
gone (row_in t) s = s || not (t == codes "tenants")

-- The lines before the orders.
abbrev rank : Text → ℕ
rank t = if t == codes "orders" then 1 else 0

abbrev cols : List TenantColumn
cols = parent ∷ child ∷ []

abbrev sent : Event
sent = new_tenant_purge_event uuid 7 0 (codes "2026") 5 (codes "acme") (codes "dormancy")

-- The event as it is read back: with the nil map for the empty metadata.
abbrev event : Event
unfolding new_tenant_purge_event new_event with_tenant_slug
event = record sent { metadata = none }

abbrev json : JsonCodec
json = record { marshal = λ e. ok []; unmarshal = λ b. (event, none) }
