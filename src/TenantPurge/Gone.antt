-- ===== src/TenantPurge/Gone.antt =====
-- What Purge leaves: for a database whose DELETE removes the rows it names, none of the tenant's.
pub mod Passes
use Passes.{gone_after, exec_keeps, passes-gone}
use shared_events.Prelude.{
  ℕ-Eq, Text-Eq, Bool, Bool-cases, List, Option, Result, Text, [], any_of, ap, arith, err, false,
  filter_by, inl, inr, none, not, ok, refl, some, sym, true, ℕ, ◌+◌, ◌||◌, ◌∙◌, ◌∷◌, ◌≡◌,
}
use shared_events.Event.{Uuid, UuidCodec}
use shared_events.TenantPurge.Sql.{delete_by_id}
use shared_events.TenantPurge.{
  TenantPurger, TenantColumn, Exec, ran, failed, listed, Commit, committed, not_committed,
  commit_lost, Db, exec_in_savepoint, passes, after_own, if_exists, own_tables, closed, to_commit,
  then_own, tables_or_default, is_purged, max_passes, purge_columns, begun, purge,
}
use shared_events.TenantPurge.Contract.{
  Target, row_in, names, names_own, state_of, on_ran, IsPurgeable, with_savepoint-on_ran,
  on_ran-weaken, own_gone,
}

module _ {S : Type 0} (db : Db S) (tenant : Text) (gone : Target → S → Bool)
    (k : IsPurgeable db tenant gone) where
  module _ (u : Target) where
    own_exec_gone :
        (t : Text) (s : S)
        → on_ran
            (λ s'. not (names_own u t) || gone u s')
            (exec_in_savepoint db (delete_by_id t) tenant s)
          ≡ true
    unfolding exec_in_savepoint
    own_exec_gone t s = with_savepoint-on_ran db tenant gone k _ (db.savepoint s) _ s (
        on_ran-weaken db tenant gone k (gone (row_in t)) _ (db.exec (delete_by_id t) tenant s)
          (λ s'. own_gone db tenant gone k u t s') (k.deletes_row t s))

    after_own-gone :
        (t : Text) (ts : List Text) (total : ℕ) (x : Exec S) (rest : ℕ → S → Result ℕ × S)
        → ((n : ℕ) (s' : S)
            → any_of (names_own u) ts || gone u s' ≡ true
            → gone_after db tenant gone k u (rest n s') ≡ true)
        → on_ran (λ s'. not (names_own u t) || gone u s') x ≡ true
        → any_of (names_own u) (t ∷ ts) || gone u (state_of x) ≡ true
        → gone_after db tenant gone k u (after_own db t total x rest) ≡ true
    after_own-gone t ts total (ran n s) rest r x h = r (total + n) s (ground arith)
    after_own-gone t ts total (failed e s) rest r x h = refl

    if_exists-gone :
        (t : Text) (ts : List Text) (total : ℕ) (o : Result Bool) (s : S)
        (rest : ℕ → S → Result ℕ × S)
        → db.table_exists t s ≡ o
        → ((n : ℕ) (s' : S)
            → any_of (names_own u) ts || gone u s' ≡ true
            → gone_after db tenant gone k u (rest n s') ≡ true)
        → any_of (names_own u) (t ∷ ts) || gone u s ≡ true
        → gone_after db tenant gone k u (if_exists db tenant t total o s rest) ≡ true
    if_exists-gone t ts total (err e) s rest q r h = refl
    if_exists-gone t ts total (ok false) s rest q r h =
        r total s (ground (arith, own_gone db tenant gone k u t s (k.absent t s q)))
    if_exists-gone t ts total (ok true) s rest q r h =
        after_own-gone t ts total (exec_in_savepoint db (delete_by_id t) tenant s) rest r
          (own_exec_gone t s) (ground (arith, exec_keeps db tenant gone k u (delete_by_id t) s))

    own_tables-gone :
        (ts : List Text) (total : ℕ) (s : S)
        → any_of (names_own u) ts || gone u s ≡ true
        → gone_after db tenant gone k u (own_tables db tenant ts total s) ≡ true
    unfolding own_tables
    own_tables-gone [] total s h = h
    own_tables-gone (t ∷ ts) total s h =
        if_exists-gone t ts total (db.table_exists t s) s (own_tables db tenant ts) refl
          (λ n s' h'. own_tables-gone ts n s' h') h

    -- Gone after the columns, or still to be gone by the tables of the tenant.
    abbrev due : List Text → Result ℕ × S → Bool
    due ts (err e, s) = true
    due ts (ok n, s) = any_of (names_own u) ts || gone u s

    then_own-gone :
        (ts : List Text) (r : Result ℕ × S)
        → due ts r ≡ true
        → gone_after db tenant gone k u (then_own db tenant ts r) ≡ true
    then_own-gone ts (err e, s) h = refl
    then_own-gone ts (ok n, s) h = own_tables-gone ts n s h

    gone-due :
        (ts : List Text) (r : Result ℕ × S)
        → gone_after db tenant gone k u r ≡ true
        → due ts r ≡ true
    gone-due ts (err e, s) h = refl
    gone-due ts (ok n, s) h = ground arith

    named-due :
        (ts : List Text) (r : Result ℕ × S) → any_of (names_own u) ts ≡ true → due ts r ≡ true
    named-due ts (err e, s) h = refl
    named-due ts (ok n, s) h = ground arith

    closed-gone :
        (total : ℕ) (before s : S) (c : Commit)
        → gone u s ≡ true
        → gone_after db tenant gone k u (closed db total before s c) ≡ true
    closed-gone total before s committed h = h
    closed-gone total before s (not_committed e) h = refl
    closed-gone total before s (commit_lost e) h = refl

    to_commit-gone :
        (before : S) (r : Result ℕ × S)
        → gone_after db tenant gone k u r ≡ true
        → gone_after db tenant gone k u (to_commit db before r) ≡ true
    to_commit-gone before (err e, s) h = refl
    to_commit-gone before (ok n, s) h = closed-gone n before s (db.commit s) h

-- Whether Purge is to remove the target: it is a table with a tenant_id column that is not skipped,
-- or a table of tenants.
abbrev pub is_due : Target → TenantPurger → List TenantColumn → Bool
is_due u p cols =
    any_of (names u) (filter_by (is_purged p.skip) cols)
    || any_of (names_own u) (tables_or_default p.tenant_tables)

module _ {S : Type 0} (uuid : UuidCodec) (db : Db S) (p : TenantPurger)
    (gone : Target → S → Bool) where
  columns_done :
      (u : Target) (tenant : Text) (cols : List TenantColumn) (s : S)
      (k : IsPurgeable db tenant gone)
      → is_due u p cols ≡ true
      → gone_after db tenant gone k u
          (purge_columns uuid db p tenant (filter_by (is_purged p.skip) cols) s)
        ≡ true
  columns_done u tenant cols s k h =
      let pending = filter_by (is_purged p.skip) cols in
      let ts = tables_or_default p.tenant_tables in
      let r = passes db max_passes tenant pending 0 s in
      to_commit-gone db tenant gone k u s (then_own db tenant ts r) (
        then_own-gone db tenant gone k u ts r (elim (Bool-cases (any_of (names_own u) ts)) [
          | inl own ↦ named-due db tenant gone k u ts r own
          | inr other ↦
              gone-due db tenant gone k u ts r
                (passes-gone db tenant gone k u max_passes pending 0 s (ground (arith, other, h)))
        ]))

  begun_done :
      (u : Target) (o : Option Text) (tenant : Text) (cols : List TenantColumn) (s : S)
      (k : IsPurgeable db tenant gone)
      → is_due u p cols ≡ true
      → gone_after db tenant gone k u
          (begun uuid db p o tenant (filter_by (is_purged p.skip) cols) s)
        ≡ true
  begun_done u none tenant cols s k h = columns_done u tenant cols s k h
  begun_done u (some e) tenant cols s k h = refl

  purge_done :
      (u : Target) (tenant_id : Uuid) (cols : List TenantColumn) (s : S)
      (k : IsPurgeable db (uuid.print tenant_id) gone)
      → db.list_columns s ≡ listed cols
      → is_due u p cols ≡ true
      → gone_after db (uuid.print tenant_id) gone k u (purge uuid db p tenant_id s) ≡ true
  unfolding purge
  purge_done u tenant_id cols s k l h =
      rw l (ground (arith, begun_done u (db.begin s) (uuid.print tenant_id) cols s k h))

-- When Purge reports success, no row of the tenant is left in any table with a tenant_id column
-- that is not skipped, nor the tenant's row in the tables of tenants, whatever the order of the
-- foreign keys: for a database whose DELETE removes the rows that it names and which brings none
-- back in between.
pub purge_gone :
    {S : Type 0} (uuid : UuidCodec) (db : Db S) (p : TenantPurger) (gone : Target → S → Bool)
    (u : Target) (tenant_id : Uuid) (cols : List TenantColumn) (n : ℕ) (s s' : S)
    → IsPurgeable db (uuid.print tenant_id) gone
    → db.list_columns s ≡ listed cols
    → is_due u p cols ≡ true
    → purge uuid db p tenant_id s ≡ (ok n, s')
    → gone u s' ≡ true
purge_gone uuid db p gone u tenant_id cols n s s' k l h e =
    let done = purge_done uuid db p gone u tenant_id cols s k l h in
    sym (ap (gone_after db (uuid.print tenant_id) gone k u) e) ∙ done
