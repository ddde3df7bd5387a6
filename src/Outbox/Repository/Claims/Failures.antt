-- ===== src/Outbox/Repository/Claims/Failures.antt =====
-- How often the rows of one id have failed, statement by statement.
use shared_events.Prelude.{
  ℕ-Eq, Bool, List, Text, [], all_of, arith, contains, count_by, false, filter_by, if◌then◌else◌,
  leb, ltb, not, refl, true, ℕ, ◌&&◌, ◌+◌, ◌==◌, ◌||◌, ◌∷◌, ◌≡◌, ◌≤◌, ◌⊎◌,
}
use shared_events.Event.{Uuid, Time}
use shared_events.Outbox.{OutboxRecord, max_outbox_attempts}
use shared_events.Outbox.Repository.{
  Table, ids, is_eligible, candidates, claim_all, delete, fail_all, oldest_first,
}
use shared_events.Outbox.Repository.Selection.{
  contains-take, contains-oldest_first, contains-filter_by,
}
use shared_events.Outbox.Repository.Claims.Attempts.{is_failed, all_parked}

-- How many rows have the id: the primary key allows one.
abbrev pub rows_with : Uuid → Table → ℕ
rows_with id t = count_by (λ r. r.id == id) t

-- Each row of the id has failed this often at least, and is FAILED from the third time on.
abbrev pub has_failed : ℕ → Uuid → Table → Bool
has_failed k id t =
    all_of
      (λ r.
        not (r.id == id)
        || (leb k r.attempts && (ltb r.attempts max_outbox_attempts || is_failed r.status)))
      t

absent_all :
    (id : Uuid) (q : OutboxRecord → Bool) (t : Table)
    → rows_with id t ≡ 0
    → all_of (λ r. not (r.id == id) || q r) t ≡ true
absent_all id q [] h = refl
absent_all id q (r ∷ t) h = ground (arith, absent_all id q t)

-- With one row for the id, a test that picks the id holds of all its rows.
picked_all :
    (id : Uuid) (p : OutboxRecord → Bool) (t : Table)
    → rows_with id t ≤ 1
    → contains (ids (filter_by p t)) id ≡ true
    → all_of (λ r. not (r.id == id) || p r) t ≡ true
picked_all id p [] u h = refl
picked_all id p (r ∷ t) u h = ground (
  arith,
  absent_all id p t,
  absent_all id (λ s. not (p s)) t,
  contains-filter_by p t id,
  picked_all id p t,
)

eligible_all :
    (locked : Uuid → Bool) (id : Uuid) (cutoff : Time) (t : Table)
    → all_of (λ r. not (r.id == id) || (is_eligible cutoff r && not (locked r.id))) t ≡ true
    → all_of (λ r. not (r.id == id) || is_eligible cutoff r) t ≡ true
eligible_all locked id cutoff [] h = refl
eligible_all locked id cutoff (r ∷ t) h = ground (arith, eligible_all locked id cutoff t)

pub candidate_eligible :
    (locked : Uuid → Bool) (id : Uuid) (cutoff : Time) (limit : ℕ) (t : Table)
    → rows_with id t ≤ 1
    → contains (candidates locked cutoff limit t) id ≡ true
    → all_of (λ r. not (r.id == id) || is_eligible cutoff r) t ≡ true
unfolding candidates
candidate_eligible locked id cutoff limit t u h =
    let p = λ (r : OutboxRecord). is_eligible cutoff r && not (locked r.id) in
    let kept = filter_by p t in
    eligible_all locked id cutoff t (
      picked_all id p t u
        (ground (arith, contains-take limit (oldest_first kept) id, contains-oldest_first kept id)))

pub claim_all-has_failed :
    (k : ℕ) (id : Uuid) (cutoff now : Time) (chosen : List Uuid) (t : Table)
    → (contains chosen id ≡ false)
      ⊎ (all_of (λ r. not (r.id == id) || is_eligible cutoff r) t ≡ true)
    → has_failed k id t ≡ true
    → has_failed k id (claim_all now chosen t) ≡ true
unfolding claim_all is_eligible
claim_all-has_failed k id cutoff now chosen [] c h = refl
claim_all-has_failed k id cutoff now chosen (r ∷ t) c h =
    ground (arith, claim_all-has_failed k id cutoff now chosen t)

pub fail_all-has_failed :
    (k : ℕ) (id id' : Uuid) (message : Text) (at : Time) (t : Table)
    → has_failed k id t ≡ true
    → has_failed ((if id' == id then 1 else 0) + k) id (fail_all id' message at t) ≡ true
unfolding fail_all
fail_all-has_failed k id id' message at [] h = refl
fail_all-has_failed k id id' message at (r ∷ t) h =
    ground (arith, fail_all-has_failed k id id' message at t)

pub delete-has_failed :
    (k : ℕ) (id id' : Uuid) (t : Table)
    → has_failed k id t ≡ true
    → has_failed k id (delete id' t) ≡ true
unfolding delete
delete-has_failed k id id' [] h = refl
delete-has_failed k id id' (r ∷ t) h = ground (arith, delete-has_failed k id id' t)

pub rows_with-claim_all :
    (id : Uuid) (now : Time) (chosen : List Uuid) (t : Table)
    → rows_with id (claim_all now chosen t) ≡ rows_with id t
unfolding claim_all
rows_with-claim_all id now chosen [] = refl
rows_with-claim_all id now chosen (r ∷ t) = ground (arith, rows_with-claim_all id now chosen t)

pub rows_with-fail_all :
    (id id' : Uuid) (message : Text) (at : Time) (t : Table)
    → rows_with id (fail_all id' message at t) ≡ rows_with id t
unfolding fail_all
rows_with-fail_all id id' message at [] = refl
rows_with-fail_all id id' message at (r ∷ t) =
    ground (arith, rows_with-fail_all id id' message at t)

pub rows_with-delete : (id id' : Uuid) (t : Table) → rows_with id (delete id' t) ≤ rows_with id t
unfolding delete
rows_with-delete id id' [] = omega arith
rows_with-delete id id' (r ∷ t) = ground (arith, rows_with-delete id id' t)

pub parked_of_failed :
    (k : ℕ) (id : Uuid) (t : Table)
    → max_outbox_attempts ≤ k
    → has_failed k id t ≡ true
    → all_parked id t ≡ true
parked_of_failed k id [] le h = refl
parked_of_failed k id (r ∷ t) le h = ground (arith, parked_of_failed k id t)
