-- ===== src/Outbox/Repository/Claims/Exclusive.antt =====
-- A claimed record stays with the replica that claimed it until it is marked or the claim is stale.
use shared_events.Prelude.{
  ℕ-Eq, Bool, List, Text, [], arith, contains, false, refl, true, ℕ, ◌+◌, ◌-◌, ◌∷◌, ◌≡◌, ◌≢◌, ◌≤◌,
}
use shared_events.Event.{Uuid, Time}
use shared_events.Outbox.Repository.{
  Table, ids, QueryReply, processing_claim_stale_after, candidates, claim_all, delete, fail_all,
  create_outbox_record, get_pending_records, mark_as_published, mark_as_failed,
}
use shared_events.Outbox.Repository.Selection.{
  all_claimed, claimed-not_candidate, contains-returning, ids-claim_all, ids-fail_all,
  contains-delete,
}
use shared_events.Outbox.Repository.Claims.{
  Op, create, claim_batch, publish, give_up, step, handed, times_handed,
}

-- No statement marks the record, and each claim is made before the one at the given time is stale.
abbrev pub IsQuiet : Uuid → Time → Op → Type 0
IsQuiet id at (create reply r) = Unit {0}
IsQuiet id at (claim_batch reply locked now limit) = now ≤ at + processing_claim_stale_after
IsQuiet id at (publish reply id') = id' ≢ id
IsQuiet id at (give_up reply id' message now) = id' ≢ id

abbrev pub AllQuiet : Uuid → Time → List Op → Type 0
AllQuiet id at [] = Unit {0}
AllQuiet id at (op ∷ ops) = IsQuiet id at op × AllQuiet id at ops

-- The record is in the table, claimed.
record IsHeld (id : Uuid) (at : Time) (t : Table) : Type 0 where
  present : contains (ids t) id ≡ true
  claimed : all_claimed id at t ≡ true

module _ (id : Uuid) (at : Time) where
  claim_all-claimed :
      (now : Time) (chosen : List Uuid) (t : Table)
      → contains chosen id ≡ false
      → all_claimed id at t ≡ true
      → all_claimed id at (claim_all now chosen t) ≡ true
  unfolding claim_all
  claim_all-claimed now chosen [] n h = refl
  claim_all-claimed now chosen (r ∷ t) n h = ground (arith, claim_all-claimed now chosen t)

  fail_all-claimed :
      (id' : Uuid) (message : Text) (now : Time) (t : Table)
      → id' ≢ id
      → all_claimed id at t ≡ true
      → all_claimed id at (fail_all id' message now t) ≡ true
  unfolding fail_all
  fail_all-claimed id' message now [] n h = refl
  fail_all-claimed id' message now (r ∷ t) n h = ground (arith, fail_all-claimed id' message now t)

  delete-claimed :
      (id' : Uuid) (t : Table)
      → all_claimed id at t ≡ true
      → all_claimed id at (delete id' t) ≡ true
  unfolding delete
  delete-claimed id' [] h = refl
  delete-claimed id' (r ∷ t) h = ground (arith, delete-claimed id' t)

module _ (print : Uuid → Text) (id : Uuid) (at : Time) where
  abbrev picked : (Uuid → Bool) → Time → ℕ → Table → List Uuid
  picked locked now limit t = candidates locked (now - processing_claim_stale_after) limit t

  not_picked :
      (locked : Uuid → Bool) (now : Time) (limit : ℕ) (t : Table)
      → now ≤ at + processing_claim_stale_after
      → IsHeld id at t
      → contains (picked locked now limit t) id ≡ false
  not_picked locked now limit t le h =
      claimed-not_candidate locked id at _ limit t h.claimed (omega arith)

  step-IsHeld :
      (op : Op) (t : Table) → IsQuiet id at op → IsHeld id at t → IsHeld id at (step print op t)
  unfolding step create_outbox_record get_pending_records mark_as_published mark_as_failed
  step-IsHeld (create reply r) t q h = ground arith
  step-IsHeld (claim_batch reply locked now limit) t q h =
      let chosen = picked locked now limit t in
      ground (
        arith,
        not_picked locked now limit t q h,
        ids-claim_all now chosen t,
        claim_all-claimed id at now chosen t,
      )
  step-IsHeld (publish reply id') t q h =
      ground (arith, contains-delete id id' t q, delete-claimed id at id' t h.claimed)
  step-IsHeld (give_up reply id' message now) t q h =
      ground (
        arith,
        ids-fail_all id' message now t,
        fail_all-claimed id at id' message now t q h.claimed,
      )

  handed-held :
      (op : Op) (t : Table) → IsQuiet id at op → IsHeld id at t → contains (handed op t) id ≡ false
  unfolding handed get_pending_records
  handed-held (claim_batch reply locked now limit) t q h =
      let chosen = picked locked now limit t in
      ground (
        arith,
        not_picked locked now limit t q h,
        contains-returning chosen (claim_all now chosen t) id,
      )
  handed-held _ t q h = refl

  times_handed-held :
      (ops : List Op) (t : Table)
      → AllQuiet id at ops
      → IsHeld id at t
      → times_handed print id ops t ≡ 0
  unfolding times_handed
  times_handed-held [] t q h = refl
  times_handed-held (op ∷ ops) t q h = ground (
    arith,
    handed-held op t q.0 h,
    times_handed-held ops (step print op t) q.1 (step-IsHeld op t q.0 h),
  )

claim_all_chosen :
    (id : Uuid) (now : Time) (chosen : List Uuid) (t : Table)
    → contains chosen id ≡ true
    → all_claimed id now (claim_all now chosen t) ≡ true
unfolding claim_all
claim_all_chosen id now chosen [] h = refl
claim_all_chosen id now chosen (r ∷ t) h = ground (arith, claim_all_chosen id now chosen t)

claim-IsHeld :
    (print : Uuid → Text) (id : Uuid) (reply : QueryReply) (locked : Uuid → Bool) (now : Time)
    (limit : ℕ) (t : Table)
    → contains (handed (claim_batch reply locked now limit) t) id ≡ true
    → IsHeld id now (step print (claim_batch reply locked now limit) t)
unfolding step handed get_pending_records
claim-IsHeld print id reply locked now limit t h =
    let chosen = picked print id now locked now limit t in
    ground (
      arith,
      contains-returning chosen (claim_all now chosen t) id,
      ids-claim_all now chosen t,
      claim_all_chosen id now chosen t,
    )

-- A replica that is handed a record is the only one: whatever statements run after its claim, as
-- long as none marks the record and each claim is made at most two minutes after the first, the
-- record is handed out exactly once.
pub claim_exclusive :
    (print : Uuid → Text) (id : Uuid) (reply : QueryReply) (locked : Uuid → Bool) (now : Time)
    (limit : ℕ) (t : Table) (ops : List Op)
    → contains (handed (claim_batch reply locked now limit) t) id ≡ true
    → AllQuiet id now ops
    → times_handed print id (claim_batch reply locked now limit ∷ ops) t ≡ 1
unfolding times_handed
claim_exclusive print id reply locked now limit t ops h q = ground (
  arith,
  times_handed-held print id now ops (step print (claim_batch reply locked now limit) t) q
      (claim-IsHeld print id reply locked now limit t h),
)
