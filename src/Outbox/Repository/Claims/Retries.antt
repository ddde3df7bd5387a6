-- ===== src/Outbox/Repository/Claims/Retries.antt =====
-- Three recorded failures park a record.
use shared_events.Prelude.{
  ℕ-Eq, Bool, List, Text, [], arith, false, if◌then◌else◌, sym, true, ℕ, ◌&&◌, ◌+◌, ◌-◌, ◌==◌, ◌∷◌,
  ◌≡◌, ◌≤◌,
}
use mathlib.Core.Path.{subst}
use native.Mathlib.Nat.{zero-add}
use shared_events.Event.{Uuid}
use shared_events.Outbox.{max_outbox_attempts}
use shared_events.Outbox.Repository.{
  Table, ExecReply, refused, processing_claim_stale_after, candidates, create_outbox_record,
  get_pending_records, mark_as_published, mark_as_failed,
}
use shared_events.Outbox.Repository.Claims.{Op, create, claim_batch, publish, give_up, step, run}
use shared_events.Outbox.Repository.Claims.Attempts.{all_parked, NoCreate}
use shared_events.Outbox.Repository.Claims.Failures.{
  rows_with, has_failed, candidate_eligible, claim_all-has_failed, fail_all-has_failed,
  delete-has_failed, rows_with-claim_all, rows_with-fail_all, rows_with-delete, parked_of_failed,
}

abbrev takes_effect : ExecReply → Bool
takes_effect (refused e) = false
takes_effect _ = true

-- How many statements record a failure of the id, whatever the client was told.
abbrev pub failures : Uuid → List Op → ℕ
failures id [] = 0
failures id (give_up reply id' message at ∷ ops) =
    (if takes_effect reply && (id' == id) then 1 else 0) + failures id ops
failures id (op ∷ ops) = failures id ops

-- What a run keeps of the rows of one id.
record HasFailed (k : ℕ) (id : Uuid) (t : Table) : Type 0 where
  keyed : rows_with id t ≤ 1
  failed_often : has_failed k id t ≡ true

NoCreate-cons :
    (id : Uuid) (op : Op) (ops : List Op)
    → NoCreate id (op ∷ ops)
    → NoCreate id (op ∷ []) × NoCreate id ops
NoCreate-cons id (create reply r) ops n = ((n.0, tt), n.1)
NoCreate-cons id (claim_batch reply locked now limit) ops n = (tt, n)
NoCreate-cons id (publish reply id') ops n = (tt, n)
NoCreate-cons id (give_up reply id' message at) ops n = (tt, n)

failures-cons :
    (id : Uuid) (op : Op) (ops : List Op) (k : ℕ)
    → failures id (op ∷ ops) + k ≡ failures id ops + (failures id (op ∷ []) + k)
failures-cons id (give_up reply id' message at) ops k = omega arith
failures-cons id (create reply r) ops k = omega arith
failures-cons id (claim_batch reply locked now limit) ops k = omega arith
failures-cons id (publish reply id') ops k = omega arith

module _ (print : Uuid → Text) (id : Uuid) where
  step-HasFailed :
      (k : ℕ) (op : Op) (t : Table)
      → NoCreate id (op ∷ [])
      → HasFailed k id t
      → HasFailed (failures id (op ∷ []) + k) id (step print op t)
  unfolding step create_outbox_record get_pending_records mark_as_published mark_as_failed
  step-HasFailed k (create reply r) t n h = ground arith
  step-HasFailed k (claim_batch reply locked now limit) t n h =
      let cutoff = now - processing_claim_stale_after in
      let chosen = candidates locked cutoff limit t in
      ground (
        arith,
        rows_with-claim_all id now chosen t,
        candidate_eligible locked id cutoff limit t h.keyed,
        claim_all-has_failed k id cutoff now chosen t,
      )
  step-HasFailed k (publish reply id') t n h =
      ground (arith, rows_with-delete id id' t, delete-has_failed k id id' t)
  step-HasFailed k (give_up reply id' message at) t n h = ground (
    arith,
    rows_with-fail_all id id' message at t,
    fail_all-has_failed k id id' message at t h.failed_often,
  )

  run-HasFailed :
      (k : ℕ) (ops : List Op) (t : Table)
      → NoCreate id ops
      → HasFailed k id t
      → HasFailed (failures id ops + k) id (run print ops t)
  unfolding run
  run-HasFailed k [] t n h = rw zero-add h
  run-HasFailed k (op ∷ ops) t n h =
      let (n1, ns) = NoCreate-cons id op ops n in
      subst (λ m. HasFailed m id (run print ops (step print op t)))
        (sym (failures-cons id op ops k))
        (run-HasFailed (failures id (op ∷ []) + k) ops (step print op t) ns
          (step-HasFailed k op t n1 h))

-- Retries are bounded across all replicas: in a table where the id has at most one row, FAILED if
-- its attempts are used up, any statements of any replicas in any order of which three or more
-- record a failure of the id (a failure that the database refused does not count), and none inserts
-- a record under it, leave its row FAILED with at least three attempts, if it is not deleted.
pub failures_park :
    (print : Uuid → Text) (id : Uuid) (ops : List Op) (t : Table)
    → rows_with id t ≤ 1
    → has_failed 0 id t ≡ true
    → NoCreate id ops
    → max_outbox_attempts ≤ failures id ops
    → all_parked id (run print ops t) ≡ true
failures_park print id ops t u h n enough =
    parked_of_failed (failures id ops + 0) id (run print ops t) (omega arith)
      (run-HasFailed print id 0 ops t n (record { keyed = u; failed_often = h })).failed_often
