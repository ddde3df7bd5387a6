-- ===== src/TenantPurge/Tests.antt =====
-- A database of two tables where one has foreign keys to the other, and the theorems at it.
use shared_events.Prelude.{
  ℕ-Eq, Text-Eq, Bool, Result, Text, [], arith, codes, err, false, if◌then◌else◌, none, not, ok,
  refl, some, true, ◌&&◌, ◌++◌, ◌==◌, ◌∷◌, ◌≡◌,
}
use shared_events.Event.{Uuid, Event, UuidCodec, JsonCodec, from_json}
use shared_events.TenantPurge.Sql.{
  DbError, is_foreign_key_violation, delete_by_tenant, delete_by_id, read_ident, quote_ident,
  doubled, read_ident-quote_ident,
}
use shared_events.TenantPurge.Message.{confirmed_tenant_purge, new_tenant_purge_event}
use shared_events.TenantPurge.{
  TenantPurger, TenantColumn, Exec, ran, failed, listed, committed, Db, exec_in_savepoint, one_pass,
  passes, own_tables, purge, handle,
}
use shared_events.TenantPurge.Confirmed.{confirmed-new_tenant_purge_event}
use shared_events.TenantPurge.Contract.{Target, rows_of, IsPurgeable}
use shared_events.TenantPurge.Gone.{purge_gone}
use shared_events.TenantPurge.Handler.{Fate, handle-Fate}

abbrev one_rune : Text → Result Uuid
one_rune (u ∷ []) = ok u
one_rune _ = err (codes "invalid UUID")

abbrev uuid : UuidCodec
uuid = record { print = λ u. u ∷ []; parse = one_rune }

abbrev parent : TenantColumn
parent = record { table = codes "orders"; is_uuid = true }

abbrev child : TenantColumn
child = record { table = codes "order_lines"; is_uuid = false }

abbrev fk : DbError
fk = record { sql_state = some (codes "23503"); message = codes "violates" }

-- The state says whether the tenant's rows are gone. The orders are blocked before the lines go.
abbrev exec : Text → Bool → Exec Bool
exec query s =
    if query == delete_by_tenant (codes "orders") true && not s then failed fk s else ran 3 true

abbrev db : Db Bool
db = record {
  list_columns = λ s. listed (parent ∷ child ∷ []);
  begin = λ s. none;
  savepoint = λ s. none;
  exec = λ query arg s. exec query s;
  rollback_to = λ s. none;
  release = λ s. none;
  table_exists = λ t s. ok true;
  commit = λ s. committed;
}

abbrev purger : TenantPurger
purger = record { has_db = true; skip = []; tenant_tables = none }

abbrev gone : Target → Bool → Bool
gone u s = s

db-IsPurgeable : IsPurgeable db (5 ∷ []) gone
db-IsPurgeable = record {
  deletes_rows = λ t b s. ground arith;
  deletes_row = λ t s. ground arith;
  keeps = λ u query s h. ground arith;
  absent = λ t s h. ground arith;
}

-- The lines in the first pass, the orders in the second, and two tables of tenants.
two_passes : purge uuid db purger 5 false ≡ (ok 12, true)
unfolding purge passes one_pass own_tables exec_in_savepoint is_foreign_key_violation
    delete_by_tenant quote_ident doubled delete_by_id
two_passes = refl

purge_gone_example : gone (rows_of (codes "orders")) true ≡ true
purge_gone_example =
    purge_gone uuid db purger gone (rows_of (codes "orders")) 5 (parent ∷ child ∷ []) 12 false true
      db-IsPurgeable refl refl two_passes

abbrev event : Event
event =
    new_tenant_purge_event uuid 7 0 (codes "2026-11-25T00:00:00Z") 5 (codes "acme")
      (codes "dormancy")

abbrev json : JsonCodec
json = record { marshal = λ e. ok []; unmarshal = λ b. (event, none) }

event_confirmed : confirmed_tenant_purge uuid (some event) ≡ ((5, codes "dormancy"), true)
event_confirmed =
    confirmed-new_tenant_purge_event uuid 7 0 (codes "2026-11-25T00:00:00Z") 5 (codes "acme")
      (codes "dormancy") (λ u. refl) (λ u. refl)

handle-Fate_example :
    Fate gone purger (parent ∷ child ∷ []) false (handle uuid json db purger [] false)
unfolding from_json
handle-Fate_example =
    handle-Fate uuid json db purger gone [] event 5 (codes "dormancy") (parent ∷ child ∷ []) false
      refl event_confirmed db-IsPurgeable refl (λ s. refl)

-- A name with a quote in it.
abbrev odd_name : Text
odd_name = 97 ∷ 34 ∷ 98 ∷ []

read_ident-quote_ident_example :
    read_ident (quote_ident odd_name ++ 32 ∷ codes "WHERE") ≡ some (odd_name, 32 ∷ codes "WHERE")
read_ident-quote_ident_example = read_ident-quote_ident odd_name 32 (codes "WHERE") refl
