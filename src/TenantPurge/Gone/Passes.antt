-- ===== src/TenantPurge/Gone/Passes.antt =====
-- The passes over the columns: what is not gone is tried again.
use shared_events.Prelude.{
  ℕ-Eq, Text-Eq, Bool, List, Result, Text, [], any_of, arith, err, not, ok, refl, suc, true, zero,
  ℕ, ◌++◌, ◌+◌, ◌||◌, ◌∷◌, ◌≡◌,
}
use shared_events.TenantPurge.Sql.{delete_by_tenant}
use shared_events.TenantPurge.{
  TenantColumn, Exec, ran, failed, Db, exec_in_savepoint, after_delete, one_pass, after_pass,
  passes,
}
use shared_events.TenantPurge.Contract.{
  Target, rows_of, names, state_of, on_ran, IsPurgeable, with_savepoint-on_ran,
  with_savepoint-state_of, on_ran-weaken, named_gone,
}

module _ {S : Type 0} (db : Db S) (tenant : Text) (gone : Target → S → Bool)
    (k : IsPurgeable db tenant gone) where
  module _ (u : Target) where
    -- Gone, or among the columns that are tried again.
    abbrev pub settled : List TenantColumn → S → Bool
    settled blocked s = any_of (names u) blocked || gone u s

    abbrev pub settled_pass : Result (List TenantColumn × ℕ) × S → Bool
    settled_pass (err e, s) = true
    settled_pass (ok (blocked, total), s) = settled blocked s

    abbrev pub gone_after : Result ℕ × S → Bool
    gone_after (err e, s) = true
    gone_after (ok n, s) = gone u s

    exec_gone :
        (c : TenantColumn) (s : S)
        → on_ran
            (λ s'. not (names u c) || gone u s')
            (exec_in_savepoint db (delete_by_tenant c.table c.is_uuid) tenant s)
          ≡ true
    unfolding exec_in_savepoint
    exec_gone c s = with_savepoint-on_ran db tenant gone k _ (db.savepoint s) _ s (
        on_ran-weaken db tenant gone k (gone (rows_of c.table)) _
          (db.exec (delete_by_tenant c.table c.is_uuid) tenant s)
          (λ s'. named_gone db tenant gone k u c s') (k.deletes_rows c.table c.is_uuid s))

    pub exec_keeps :
        (query : Text) (s : S)
        → gone u s ≡ true
        → gone u (state_of (exec_in_savepoint db query tenant s)) ≡ true
    unfolding exec_in_savepoint
    exec_keeps query s h =
        with_savepoint-state_of db tenant gone k (gone u) (db.savepoint s) query s h
          (k.keeps u query s h)

    any_of-append :
        (xs : List TenantColumn) (c : TenantColumn)
        → any_of (names u) (xs ++ c ∷ []) ≡ (any_of (names u) xs || names u c)
    any_of-append [] c = ground arith
    any_of-append (x ∷ xs) c = ground (arith, any_of-append xs c)

    after_delete-settled :
        (c : TenantColumn) (blocked : List TenantColumn) (total : ℕ) (x : Exec S)
        (rest : List TenantColumn → ℕ → S → Result (List TenantColumn × ℕ) × S)
        (pending : List TenantColumn)
        → ((b : List TenantColumn) (n : ℕ) (s' : S)
            → any_of (names u) pending || settled b s' ≡ true
            → settled_pass (rest b n s') ≡ true)
        → on_ran (λ s'. not (names u c) || gone u s') x ≡ true
        → (any_of (names u) (c ∷ pending) || any_of (names u) blocked || gone u (state_of x)) ≡ true
        → settled_pass (after_delete db c blocked total x rest) ≡ true
    after_delete-settled c blocked total (ran n s) rest pending r x h =
        r blocked (total + n) s (ground arith)
    after_delete-settled c blocked total (failed e s) rest pending r x h =
        ground (arith, r (blocked ++ c ∷ []) total s, any_of-append blocked c)

    pub one_pass-settled :
        (pending blocked : List TenantColumn) (total : ℕ) (s : S)
        → any_of (names u) pending || settled blocked s ≡ true
        → settled_pass (one_pass db tenant pending blocked total s) ≡ true
    unfolding one_pass
    one_pass-settled [] blocked total s h = h
    one_pass-settled (c ∷ pending) blocked total s h =
        let query = delete_by_tenant c.table c.is_uuid in
        let x = exec_in_savepoint db query tenant s in
        after_delete-settled c blocked total x (one_pass db tenant pending) pending
          (λ b n s' h'. one_pass-settled pending b n s' h') (exec_gone c s)
          (ground (arith, exec_keeps query s))

    after_pass-gone :
        (n : ℕ) (r : Result (List TenantColumn × ℕ) × S)
        (rest : List TenantColumn → ℕ → S → Result ℕ × S)
        → ((b : List TenantColumn) (n' : ℕ) (s' : S)
            → settled b s' ≡ true
            → gone_after (rest b n' s') ≡ true)
        → settled_pass r ≡ true
        → gone_after (after_pass db n r rest) ≡ true
    after_pass-gone n (err e, s) rest k' h = refl
    after_pass-gone n (ok (b, n'), s) rest k' h = ground (arith, k' b n' s h)

    pub passes-gone :
        (left : ℕ) (pending : List TenantColumn) (total : ℕ) (s : S)
        → settled pending s ≡ true
        → gone_after (passes db left tenant pending total s) ≡ true
    unfolding passes
    passes-gone left [] total s h = h
    passes-gone zero (c ∷ pending) total s h = refl
    passes-gone (suc left) (c ∷ pending) total s h =
        after_pass-gone _ (one_pass db tenant (c ∷ pending) [] total s) (passes db left tenant)
          (λ b n s' h'. passes-gone left b n s' h')
          (one_pass-settled (c ∷ pending) [] total s (ground arith))
