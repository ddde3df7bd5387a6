-- ===== src/TenantPurge/Acyclic.antt =====
-- Purge finds the order of the foreign keys: it succeeds when they have no cycle.
pub mod Contract
pub mod Ranks
pub mod Pass
pub mod Own
mod Tests
use shared_events.Prelude.{
  ℕ-Eq, Text-Eq, Bool, List, Result, Text, [], all_of, all_of-weaken, any_of, arith, err, false,
  filter_by, leb, length, ltb, ok, refl, suc, text_eq_iff, text_eq_refl, true, zero, ℕ, ◌+◌, ◌==◌,
  ◌∷◌, ◌≡◌, ◌≤◌,
}
use shared_events.TenantPurge.{
  TenantPurger, TenantColumn, listed, Db, one_pass, after_pass, passes, to_commit, then_own,
  tables_or_default, is_purged, max_passes, purge,
}
use shared_events.TenantPurge.Contract.{Target, rows_of, names, IsPurgeable}
use shared_events.TenantPurge.Gone.Passes.{settled, settled_pass, one_pass-settled, passes-gone}
use shared_events.Event.{Uuid, nil_uuid, UuidCodec}
use shared_events.TenantPurge.Gone.{is_due, purge_gone}
use shared_events.TenantPurge.Acyclic.Contract.{succeeds, is_ready, is_listed, IsAcyclic}
use shared_events.TenantPurge.Acyclic.Ranks.{
  above, higher, is_short, least, least-above, least-higher, least_from,
}
use shared_events.TenantPurge.Acyclic.Own.{then_own-succeeds, to_commit-succeeds}
use shared_events.TenantPurge.Acyclic.Pass.{passed, one_pass-passed}

listed_later :
    (c : TenantColumn) (cols pending : List TenantColumn)
    → all_of (is_listed cols) pending ≡ true
    → all_of (is_listed (c ∷ cols)) pending ≡ true
listed_later c cols [] h = refl
listed_later c cols (d ∷ pending) h = ground (arith, listed_later c cols pending)

all_listed : (cols : List TenantColumn) → all_of (is_listed cols) cols ≡ true
all_listed [] = refl
all_listed (c ∷ cols) =
    ground (arith, listed_later c cols cols (all_listed cols), text_eq_refl c.table)

module _ {S : Type 0} (db : Db S) (tenant : Text) (gone : Target → S → Bool)
    (cols : List TenantColumn) (rank : Text → ℕ) (k : IsPurgeable db tenant gone)
    (a : IsAcyclic db tenant gone cols rank) where
  -- Every column is purged or waits.
  abbrev all_settled : List TenantColumn → S → Bool
  all_settled pending s = all_of (λ x. settled db tenant gone k (rows_of x.table) pending s) cols

  not_above :
      (j : ℕ) (x : TenantColumn) (pending : List TenantColumn)
      → above rank j pending ≡ true
      → leb j (rank x.table) ≡ false
      → any_of (names (rows_of x.table)) pending ≡ false
  not_above j x [] h n = refl
  not_above j x (c ∷ pending) h n =
      ground (arith, not_above j x pending, text_eq_iff c.table x.table)

  settled-is_ready :
      (j : ℕ) (pending : List TenantColumn) (s : S)
      → above rank j pending ≡ true
      → all_settled pending s ≡ true
      → is_ready gone cols rank j s ≡ true
  settled-is_ready j pending s h =
      all_of-weaken _ _ cols (λ x g. ground (arith, g, not_above j x pending h))

  abbrev settled_results : Result (List TenantColumn × ℕ) × S → Bool
  settled_results r = all_of (λ x. settled_pass db tenant gone k (rows_of x.table) r) cols

  one_pass-settled_results :
      (pending : List TenantColumn) (total : ℕ) (s : S)
      → all_settled pending s ≡ true
      → settled_results (one_pass db tenant pending [] total s) ≡ true
  one_pass-settled_results pending total s = all_of-weaken _ _ cols (λ x g.
      one_pass-settled db tenant gone k (rows_of x.table) pending [] total s (ground (arith, g)))

  after_pass-succeeds :
      (j m n : ℕ) (r : Result (List TenantColumn × ℕ) × S)
      (rest : List TenantColumn → ℕ → S → Result ℕ × S)
      → m + 1 ≤ n
      → passed rank cols j m r ≡ true
      → settled_results r ≡ true
      → ((b : List TenantColumn) (total : ℕ) (s : S)
          → above rank (j + 1) b ≡ true
          → is_short rank cols b ≡ true
          → all_settled b s ≡ true
          → succeeds (rest b total s).0 ≡ true)
      → succeeds (after_pass db n r rest).0 ≡ true
  after_pass-succeeds j m n (err e, s) rest l p g f = ground arith
  after_pass-succeeds j m n (ok (b, total), s) rest l p g f =
      ground (arith, p, f b total s (ground (arith, p)) (ground (arith, p)) g)

  above_lower :
      (i j : ℕ) (pending : List TenantColumn)
      → i ≤ j
      → above rank j pending ≡ true
      → above rank i pending ≡ true
  above_lower i j pending l = all_of-weaken _ _ pending (λ c h. ground (arith, h, l))

  none_left :
      (j : ℕ) (c : TenantColumn) (pending : List TenantColumn)
      → max_passes ≤ j
      → above rank j (c ∷ pending) ≡ true
      → is_short rank cols (c ∷ pending) ≡ false
  none_left j c pending l h = ground arith

  -- The passes that are left are enough for the ranks that are left.
  passes-succeeds :
      (left j : ℕ) (pending : List TenantColumn) (total : ℕ) (s : S)
      → max_passes ≤ j + left
      → above rank j pending ≡ true
      → is_short rank cols pending ≡ true
      → all_settled pending s ≡ true
      → succeeds (passes db left tenant pending total s).0 ≡ true
  unfolding passes
  passes-succeeds left j [] total s l h sh g = refl
  passes-succeeds zero j (c ∷ pending) total s l h sh g =
      ground (arith, none_left j c pending (omega (arith, l)) h)
  passes-succeeds (suc left) j (c ∷ pending) total s l h sh g =
      let i = least rank c pending in
      let all = least-above rank c pending in
      after_pass-succeeds i (length {A = TenantColumn} [] + higher rank i (c ∷ pending)) _
        (one_pass db tenant (c ∷ pending) [] total s) (passes db left tenant)
        (omega (arith, least-higher rank c pending))
        (one_pass-passed db tenant gone cols rank k a i (c ∷ pending) [] total s
          (settled-is_ready i (c ∷ pending) s all g) all sh refl refl)
        (one_pass-settled_results (c ∷ pending) total s g)
        (λ b n s' h' sh' g'.
          passes-succeeds left (i + 1) b n s' (omega (arith, l, least_from rank j c pending h)) h'
            sh' g')

  all_waiting :
      (pending xs : List TenantColumn) (s : S)
      → ((t : Text)
          → any_of (names (rows_of t)) xs ≡ true
          → any_of (names (rows_of t)) pending ≡ true)
      → all_of (λ x. settled db tenant gone k (rows_of x.table) pending s) xs ≡ true
  all_waiting pending [] s h = refl
  all_waiting pending (x ∷ xs) s h = ground (
    arith,
    h x.table,
    text_eq_refl x.table,
    all_waiting pending xs s (λ t g. h t (ground (arith, g))),
  )

  above_all : (pending : List TenantColumn) → above rank 0 pending ≡ true
  above_all [] = refl
  above_all (c ∷ pending) = ground (arith, above_all pending)

  all_fit :
      (pending : List TenantColumn)
      → all_of (is_listed cols) pending ≡ true
      → all_of (λ c. ltb (rank c.table) 30) pending ≡ true
      → is_short rank cols pending ≡ true
  all_fit [] m h = refl
  all_fit (c ∷ pending) m h = ground (arith, all_fit pending)

  columns-succeed :
      (ts : List Text) (s : S)
      → succeeds (to_commit db s (then_own db tenant ts (passes db max_passes tenant cols 0 s))).0
        ≡ true
  columns-succeed ts s =
      let waiting = all_waiting cols cols s (λ t h. h) in
      let r = passes db max_passes tenant cols 0 s in
      to_commit-succeeds db tenant gone cols rank k a s (then_own db tenant ts r) (
        then_own-succeeds db tenant gone cols rank k a ts r
          (passes-succeeds max_passes 0 cols 0 s (omega arith) (above_all cols)
            (all_fit cols (all_listed cols) a.ranked) waiting)
          (all_of-weaken _ _ cols
            (λ x g. passes-gone db tenant gone k (rows_of x.table) max_passes cols 0 s g) waiting))

of_success :
    {S : Type 0} (r : Result ℕ × S) → succeeds r.0 ≡ true → (n : ℕ) × (s' : S) × (r ≡ (ok n, s'))
of_success (ok n, s) h = (n, s, refl)
of_success (err e, s) h = ground arith

purge_ok :
    {S : Type 0} (uuid : UuidCodec) (db : Db S) (p : TenantPurger) (gone : Target → S → Bool)
    (rank : Text → ℕ) (tenant_id : Uuid) (cols : List TenantColumn) (s : S)
    → p.has_db ≡ true
    → (tenant_id == nil_uuid) ≡ false
    → IsPurgeable db (uuid.print tenant_id) gone
    → db.list_columns s ≡ listed cols
    → IsAcyclic db (uuid.print tenant_id) gone (filter_by (is_purged p.skip) cols) rank
    → succeeds (purge uuid db p tenant_id s).0 ≡ true
unfolding purge
purge_ok uuid db p gone rank tenant_id cols s has known k l a = rw has (
    rw known (
      rw l (
        rw (a.begins s) (
          columns-succeed db (uuid.print tenant_id) gone (filter_by (is_purged p.skip) cols) rank k
            a (tables_or_default p.tenant_tables) s))))

-- Purge succeeds, and leaves no row of the tenant, for a database whose statements on the tables that
-- it lists fail only by foreign keys, and whose foreign keys have no cycle among the tables with a tenant_id column and no
-- chain of more than thirty, and where the tenant's own row can go once those tables are purged:
-- whatever order the database lists the tables in, trying the blocked ones again finds the order of
-- the foreign keys.
pub purge_succeeds :
    {S : Type 0} (uuid : UuidCodec) (db : Db S) (p : TenantPurger) (gone : Target → S → Bool)
    (rank : Text → ℕ) (u : Target) (tenant_id : Uuid) (cols : List TenantColumn) (s : S)
    → p.has_db ≡ true
    → (tenant_id == nil_uuid) ≡ false
    → IsPurgeable db (uuid.print tenant_id) gone
    → db.list_columns s ≡ listed cols
    → IsAcyclic db (uuid.print tenant_id) gone (filter_by (is_purged p.skip) cols) rank
    → is_due u p cols ≡ true
    → (n : ℕ) × (s' : S) × (purge uuid db p tenant_id s ≡ (ok n, s')) × (gone u s' ≡ true)
purge_succeeds uuid db p gone rank u tenant_id cols s has known k l a due =
    let (n, s', e) =
      of_success (purge uuid db p tenant_id s)
        (purge_ok uuid db p gone rank tenant_id cols s has known k l a) in
    (n, s', e, purge_gone uuid db p gone u tenant_id cols n s s' k l due e)
