-- ===== src/TenantPurge/Acyclic/Pass.antt =====
-- One pass of Purge over the columns, at a rank.
use shared_events.Prelude.{
  ℕ-Eq, Text-Eq, Bool, Bool-cases, List, Result, Text, [], all_of-weaken, arith, err, false, inl,
  inr, leb, length, length-append, ok, refl, true, ℕ, ◌&&◌, ◌++◌, ◌+◌, ◌||◌, ◌∷◌, ◌≡◌, ◌≤◌,
}
use shared_events.TenantPurge.Sql.{delete_by_tenant}
use shared_events.TenantPurge.{
  TenantColumn, Exec, ran, failed, Db, executed, exec_in_savepoint, after_delete, one_pass,
}
use shared_events.TenantPurge.Contract.{Target, rows_of, state_of, IsPurgeable}
use shared_events.TenantPurge.Gone.Passes.{exec_keeps}
use shared_events.TenantPurge.Acyclic.Contract.{has_run, is_retried, is_ready, is_listed, IsAcyclic}
use shared_events.TenantPurge.Acyclic.Ranks.{
  above, higher, is_fit, is_short, above-append, is_short-append,
}

module _ (rank : Text → ℕ) (cols : List TenantColumn) {S : Type 0} where
  -- The outcome of a pass at rank j: what is left has higher rank ranks, and is no more than m.
  abbrev pub passed : ℕ → ℕ → Result (List TenantColumn × ℕ) × S → Bool
  passed j m (err e, s) = false
  passed j m (ok (blocked, total), s) =
      above rank (j + 1) blocked && is_short rank cols blocked && leb (length blocked) m

module _ {S : Type 0} (db : Db S) (tenant : Text) (gone : Target → S → Bool)
    (cols : List TenantColumn) (rank : Text → ℕ) (k : IsPurgeable db tenant gone)
    (a : IsAcyclic db tenant gone cols rank) where
  executed-has_run :
      (before : S) (x : Exec S) → has_run x ≡ true → has_run (executed db before x) ≡ true
  executed-has_run before (ran n s) h = rw (a.releases s) refl
  executed-has_run before (failed e s) h = ground arith

  executed-is_retried :
      (before : S) (x : Exec S) → is_retried x ≡ true → is_retried (executed db before x) ≡ true
  executed-is_retried before (ran n s) h = rw (a.releases s) refl
  executed-is_retried before (failed e s) h = rw (a.rolls_back s) h

  pub saved-has_run :
      (query : Text) (s : S)
      → has_run (db.exec query tenant s) ≡ true
      → has_run (exec_in_savepoint db query tenant s) ≡ true
  unfolding exec_in_savepoint
  saved-has_run query s h = rw (a.savepoints s) (executed-has_run s (db.exec query tenant s) h)

  saved-is_retried :
      (c : TenantColumn) (s : S)
      → is_listed cols c ≡ true
      → is_retried (exec_in_savepoint db (delete_by_tenant c.table c.is_uuid) tenant s) ≡ true
  unfolding exec_in_savepoint
  saved-is_retried c s m = rw (a.savepoints s) (executed-is_retried s _ (a.retried c s m))

  ready_keeps :
      (j : ℕ) (query : Text) (s : S)
      → is_ready gone cols rank j s ≡ true
      → is_ready gone cols rank j (state_of (exec_in_savepoint db query tenant s)) ≡ true
  ready_keeps j query s =
      all_of-weaken _ _ cols
        (λ x h. ground (arith, h, exec_keeps db tenant gone k (rows_of x.table) query s))

  passed-weaken :
      (j m n : ℕ) (r : Result (List TenantColumn × ℕ) × S)
      → m ≤ n
      → passed rank cols j m r ≡ true
      → passed rank cols j n r ≡ true
  passed-weaken j m n (err e, s) l h = h
  passed-weaken j m n (ok (b, total), s) l h = ground arith

  after_delete-passed :
      (j : ℕ) (c : TenantColumn) (pending blocked : List TenantColumn) (total : ℕ) (x : Exec S)
      (rest : List TenantColumn → ℕ → S → Result (List TenantColumn × ℕ) × S)
      → ((b : List TenantColumn) (n : ℕ) (s : S)
          → is_ready gone cols rank j s ≡ true
          → above rank (j + 1) b ≡ true
          → is_short rank cols b ≡ true
          → passed rank cols j (length b + higher rank j pending) (rest b n s) ≡ true)
      → is_retried x ≡ true
      → (leb (j + 1) (rank c.table) || has_run x) ≡ true
      → is_ready gone cols rank j (state_of x) ≡ true
      → above rank (j + 1) blocked ≡ true
      → is_short rank cols blocked ≡ true
      → is_fit rank cols c ≡ true
      → passed rank cols j
          (length blocked + higher rank j (c ∷ pending))
          (after_delete db c blocked total x rest)
        ≡ true
  after_delete-passed j c pending blocked total (ran n s) rest r f h d ab sh lt =
      passed-weaken j (length blocked + higher rank j pending) _ (rest blocked (total + n) s)
        (ground arith) (r blocked (total + n) s d ab sh)
  after_delete-passed j c pending blocked total (failed e s) rest r f h d ab sh lt =
      let b = blocked ++ c ∷ [] in
      rw f (
        passed-weaken j (length b + higher rank j pending) _ (rest b total s)
          (ground (arith, length-append blocked (c ∷ [])))
          (r b total s d (ground (arith, above-append rank (j + 1) blocked c))
            (ground (arith, is_short-append rank cols blocked c))))

  same_rank :
      (j : ℕ) (c : TenantColumn) (s : S)
      → rank c.table ≡ j
      → is_ready gone cols rank j s ≡ true
      → is_ready gone cols rank (rank c.table) s ≡ true
  same_rank j c s e h = rw e h

  pub one_pass-passed :
      (j : ℕ) (pending blocked : List TenantColumn) (total : ℕ) (s : S)
      → is_ready gone cols rank j s ≡ true
      → above rank j pending ≡ true
      → is_short rank cols pending ≡ true
      → above rank (j + 1) blocked ≡ true
      → is_short rank cols blocked ≡ true
      → passed rank cols j
          (length blocked + higher rank j pending)
          (one_pass db tenant pending blocked total s)
        ≡ true
  unfolding one_pass
  one_pass-passed j [] blocked total s d p q ab sh = ground arith
  one_pass-passed j (c ∷ pending) blocked total s d p q ab sh =
      let query = delete_by_tenant c.table c.is_uuid in
      let x = exec_in_savepoint db query tenant s in
      after_delete-passed j c pending blocked total x (one_pass db tenant pending)
        (λ b n s' d' ab' sh'.
          one_pass-passed j pending b n s' d' (ground (arith, p)) (ground (arith, q)) ab' sh')
        (saved-is_retried c s (ground (arith, q)))
        (elim (Bool-cases (leb (j + 1) (rank c.table))) [
          | inl late ↦ ground (arith, late)
          | inr now ↦ ground (
            arith,
            now,
            saved-has_run query s
                (a.runs c s (ground (arith, q)) (same_rank j c s (ground (arith, now, p)) d)),
          )
        ])
        (ready_keeps j query s d) ab sh (ground (arith, q))
