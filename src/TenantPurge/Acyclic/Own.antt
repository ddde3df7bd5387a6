-- ===== src/TenantPurge/Acyclic/Own.antt =====
-- The end of Purge once the columns are purged: the tenant's own rows, and the commit.
use shared_events.Prelude.{
  ℕ-Eq, Text-Eq, Bool, List, Result, Text, [], all_of, all_of-weaken, arith, err, false, ok, refl,
  true, ℕ, ◌+◌, ◌∷◌, ◌≡◌,
}
use shared_events.TenantPurge.Sql.{delete_by_id}
use shared_events.TenantPurge.{
  TenantColumn, Exec, ran, failed, Db, exec_in_savepoint, after_own, if_exists, own_tables,
  to_commit, then_own,
}
use shared_events.TenantPurge.Contract.{Target, rows_of, state_of, IsPurgeable}
use shared_events.TenantPurge.Gone.Passes.{gone_after, exec_keeps}
use shared_events.TenantPurge.Acyclic.Contract.{has_run, succeeds, all_gone, IsAcyclic}
use shared_events.TenantPurge.Acyclic.Pass.{saved-has_run}

module _ {S : Type 0} (db : Db S) (tenant : Text) (gone : Target → S → Bool)
    (cols : List TenantColumn) (rank : Text → ℕ) (k : IsPurgeable db tenant gone)
    (a : IsAcyclic db tenant gone cols rank) where
  exec_all_gone :
      (query : Text) (s : S)
      → all_gone gone cols s ≡ true
      → all_gone gone cols (state_of (exec_in_savepoint db query tenant s)) ≡ true
  exec_all_gone query s =
      all_of-weaken _ _ cols (λ x h. exec_keeps db tenant gone k (rows_of x.table) query s h)

  after_own-succeeds :
      (t : Text) (total : ℕ) (x : Exec S) (rest : ℕ → S → Result ℕ × S)
      → has_run x ≡ true
      → all_gone gone cols (state_of x) ≡ true
      → ((n : ℕ) (s : S) → all_gone gone cols s ≡ true → succeeds (rest n s).0 ≡ true)
      → succeeds (after_own db t total x rest).0 ≡ true
  after_own-succeeds t total (ran n s) rest h g r = r (total + n) s g
  after_own-succeeds t total (failed e s) rest h g r = ground arith

  if_exists-succeeds :
      (t : Text) (total : ℕ) (o : Result Bool) (s : S) (rest : ℕ → S → Result ℕ × S)
      → db.table_exists t s ≡ o
      → succeeds o ≡ true
      → all_gone gone cols s ≡ true
      → ((n : ℕ) (s : S) → all_gone gone cols s ≡ true → succeeds (rest n s).0 ≡ true)
      → succeeds (if_exists db tenant t total o s rest).0 ≡ true
  if_exists-succeeds t total (err e) s rest q h g r = ground arith
  if_exists-succeeds t total (ok false) s rest q h g r = r total s g
  if_exists-succeeds t total (ok true) s rest q h g r =
      after_own-succeeds t total (exec_in_savepoint db (delete_by_id t) tenant s) rest
        (saved-has_run db tenant gone cols rank k a (delete_by_id t) s (a.own_runs t s q g))
        (exec_all_gone (delete_by_id t) s g) r

  own_tables-succeeds :
      (ts : List Text) (total : ℕ) (s : S)
      → all_gone gone cols s ≡ true
      → succeeds (own_tables db tenant ts total s).0 ≡ true
  unfolding own_tables
  own_tables-succeeds [] total s g = refl
  own_tables-succeeds (t ∷ ts) total s g =
      if_exists-succeeds t total (db.table_exists t s) s (own_tables db tenant ts) refl
        (a.exists_known t s) g (λ n s' g'. own_tables-succeeds ts n s' g')

  pub then_own-succeeds :
      (ts : List Text) (r : Result ℕ × S)
      → succeeds r.0 ≡ true
      → all_of (λ x. gone_after db tenant gone k (rows_of x.table) r) cols ≡ true
      → succeeds (then_own db tenant ts r).0 ≡ true
  then_own-succeeds ts (err e, s) h g = h
  then_own-succeeds ts (ok n, s) h g = own_tables-succeeds ts n s g

  pub to_commit-succeeds :
      (before : S) (r : Result ℕ × S)
      → succeeds r.0 ≡ true
      → succeeds (to_commit db before r).0 ≡ true
  to_commit-succeeds before (err e, s) h = h
  to_commit-succeeds before (ok n, s) h = rw (a.commits s) refl
