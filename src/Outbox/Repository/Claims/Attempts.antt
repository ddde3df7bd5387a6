-- ===== src/Outbox/Repository/Claims/Attempts.antt =====
-- A record that keeps failing is parked: retries are bounded, and a parked record stays parked.
use shared_events.Prelude.{
  ℕ-Eq, Bool, List, Text, [], all_of, arith, contains, false, filter_by, leb, not, refl, true, ℕ,
  ◌&&◌, ◌-◌, ◌==◌, ◌||◌, ◌∙◌, ◌∷◌, ◌≡◌, ◌≢◌,
}
use shared_events.Event.{Uuid, Time}
use shared_events.Outbox.{OutboxRecord, Status, failed, max_outbox_attempts}
use shared_events.Outbox.Repository.{
  Table, processing_claim_stale_after, is_eligible, candidates, claim_all, delete, fail_all,
  oldest_first, create_outbox_record, get_pending_records, mark_as_published, mark_as_failed,
}
use shared_events.Outbox.Repository.Selection.{
  contains-take, contains-oldest_first, contains-filter_by, contains-returning,
}
use shared_events.Outbox.Repository.Claims.{
  Op, create, claim_batch, publish, give_up, step, handed, run, times_handed,
}

abbrev pub is_failed : Status → Bool
is_failed failed = true
is_failed _ = false

-- Every row of the id is FAILED, with its attempts used up.
abbrev pub all_parked : Uuid → Table → Bool
all_parked id t =
    all_of (λ r. not (r.id == id) || (is_failed r.status && leb max_outbox_attempts r.attempts)) t

-- No statement inserts a record under the id.
abbrev pub NoCreate : Uuid → List Op → Type 0
NoCreate id [] = Unit {0}
NoCreate id (create reply r ∷ ops) = (r.id ≢ id) × NoCreate id ops
NoCreate id (op ∷ ops) = NoCreate id ops

parked-not_eligible :
    (locked : Uuid → Bool) (id : Uuid) (cutoff : Time) (t : Table)
    → all_parked id t ≡ true
    → all_of (λ r. not (r.id == id) || not (is_eligible cutoff r && not (locked r.id))) t ≡ true
unfolding is_eligible
parked-not_eligible locked id cutoff [] h = refl
parked-not_eligible locked id cutoff (r ∷ t) h =
    ground (arith, parked-not_eligible locked id cutoff t)

pub parked-not_candidate :
    (locked : Uuid → Bool) (id : Uuid) (cutoff : Time) (limit : ℕ) (t : Table)
    → all_parked id t ≡ true
    → contains (candidates locked cutoff limit t) id ≡ false
unfolding candidates
parked-not_candidate locked id cutoff limit t h =
    let p = λ (r : OutboxRecord). is_eligible cutoff r && not (locked r.id) in
    contains-take limit (oldest_first (filter_by p t)) id (
      contains-oldest_first (filter_by p t) id
      ∙ contains-filter_by p t id (parked-not_eligible locked id cutoff t h))

claim_all-parked :
    (id : Uuid) (now : Time) (chosen : List Uuid) (t : Table)
    → contains chosen id ≡ false
    → all_parked id t ≡ true
    → all_parked id (claim_all now chosen t) ≡ true
unfolding claim_all
claim_all-parked id now chosen [] n h = refl
claim_all-parked id now chosen (r ∷ t) n h = ground (arith, claim_all-parked id now chosen t)

fail_all-parked :
    (id id' : Uuid) (message : Text) (at : Time) (t : Table)
    → all_parked id t ≡ true
    → all_parked id (fail_all id' message at t) ≡ true
unfolding fail_all
fail_all-parked id id' message at [] h = refl
fail_all-parked id id' message at (r ∷ t) h = ground (arith, fail_all-parked id id' message at t)

delete-parked :
    (id id' : Uuid) (t : Table) → all_parked id t ≡ true → all_parked id (delete id' t) ≡ true
unfolding delete
delete-parked id id' [] h = refl
delete-parked id id' (r ∷ t) h = ground (arith, delete-parked id id' t)

module _ (print : Uuid → Text) (id : Uuid) where
  step-parked :
      (op : Op) (t : Table)
      → NoCreate id (op ∷ [])
      → all_parked id t ≡ true
      → all_parked id (step print op t) ≡ true
  unfolding step create_outbox_record get_pending_records mark_as_published mark_as_failed
  step-parked (create reply r) t q h = ground arith
  step-parked (claim_batch reply locked now limit) t q h =
      let cutoff = now - processing_claim_stale_after in
      let chosen = candidates locked cutoff limit t in
      ground
        (arith, parked-not_candidate locked id cutoff limit t h, claim_all-parked id now chosen t)
  step-parked (publish reply id') t q h = ground (arith, delete-parked id id' t h)
  step-parked (give_up reply id' message at) t q h =
      ground (arith, fail_all-parked id id' message at t h)

  handed-parked : (op : Op) (t : Table) → all_parked id t ≡ true → contains (handed op t) id ≡ false
  unfolding handed get_pending_records
  handed-parked (claim_batch reply locked now limit) t h =
      let cutoff = now - processing_claim_stale_after in
      let chosen = candidates locked cutoff limit t in
      ground (
        arith,
        parked-not_candidate locked id cutoff limit t h,
        contains-returning chosen (claim_all now chosen t) id,
      )
  handed-parked _ t h = refl

  -- A parked record is terminal: whatever statements run, in any number and at any times, as long
  -- as none inserts a record under its id again, no replica is handed it, and its row, if it is not
  -- deleted, stays FAILED.
  pub parked_terminal :
      (ops : List Op) (t : Table)
      → NoCreate id ops
      → all_parked id t ≡ true
      → (times_handed print id ops t ≡ 0) × (all_parked id (run print ops t) ≡ true)
  unfolding times_handed run
  parked_terminal [] t n h = (refl, h)
  parked_terminal (create reply r ∷ ops) t n h = ground (
    arith,
    handed-parked (create reply r) t h,
    parked_terminal ops (step print (create reply r) t) n.1
        (step-parked (create reply r) t (n.0, tt) h),
  )
  parked_terminal (op ∷ ops) t n h =
      ground (
        arith,
        handed-parked op t h,
        parked_terminal ops (step print op t) n (step-parked op t tt h),
      )
