-- ===== src/Outbox/Repository/Tests.antt =====
-- Runs of the repository's statements, and the theorems at concrete tables.
use shared_events.Prelude.{
  ℕ-Eq, Bool, List, Text, [], all_of, arith, codes, contains, false, inl, leb, length, none, refl,
  true, ℕ, ◌∷◌, ◌≡◌, ◌⊎◌,
}
use shared_events.Event.{Uuid, Time}
use shared_events.Outbox.{OutboxRecord, Status, pending, failed}
use shared_events.Outbox.Repository.{
  Table, done, lost, rows, refused, is_eligible, insert_by_age, oldest_first, picked, candidates,
  claim, claim_all, returning, get_pending_records,
}
use shared_events.Outbox.Repository.Order.{oldest_claimed}
use shared_events.Outbox.Repository.Claims.{
  Op, claim_batch, give_up, step, handed, run, times_handed,
}
use shared_events.Outbox.Repository.Claims.Exclusive.{claim_exclusive}
use shared_events.Outbox.Repository.Claims.Attempts.{all_parked, parked_terminal}
use shared_events.Outbox.Repository.Claims.Retries.{failures_park}

abbrev row : Uuid → Status → ℕ → Time → OutboxRecord
row id status attempts created_at = record {
  id = id;
  tenant_id = 7;
  aggregate_type = codes "order";
  aggregate_id = 8;
  event_type = codes "placed";
  payload = codes "{}";
  status = status;
  attempts = attempts;
  last_attempt_at = none;
  published_at = none;
  error_message = none;
  created_at = created_at;
}

abbrev no_text : Uuid → Text
no_text id = []

abbrev unlocked : Uuid → Bool
unlocked id = false

abbrev two_rows : Table
two_rows = row 1 pending 0 20 ∷ row 2 pending 0 10 ∷ []

-- The older row is taken first.
claim_takes_oldest : handed (claim_batch rows unlocked 500_000_000_000 1) two_rows ≡ 2 ∷ []
unfolding handed get_pending_records candidates oldest_first insert_by_age is_eligible claim_all
    claim returning
claim_takes_oldest = refl

claim_2 : contains (handed (claim_batch rows unlocked 500_000_000_000 1) two_rows) 2 ≡ true
claim_2 = rw claim_takes_oldest

claim_exclusive_example :
    times_handed no_text 2
      (claim_batch rows unlocked 500_000_000_000 1
        ∷ claim_batch rows unlocked 510_000_000_000 5
        ∷ give_up done 1 [] 515_000_000_000
        ∷ claim_batch rows unlocked 620_000_000_000 5
        ∷ [])
      two_rows
    ≡ 1
claim_exclusive_example =
    claim_exclusive no_text 2 rows unlocked 500_000_000_000 1 two_rows
      (claim_batch rows unlocked 510_000_000_000 5
        ∷ give_up done 1 [] 515_000_000_000
        ∷ claim_batch rows unlocked 620_000_000_000 5
        ∷ [])
      claim_2 (omega arith)

-- After two minutes the claim is stale, and the record is handed out again.
stale_claim :
    times_handed no_text 2
      (claim_batch rows unlocked 500_000_000_000 1
        ∷ claim_batch rows unlocked 620_000_000_001 5
        ∷ [])
      two_rows
    ≡ 2
unfolding times_handed handed step get_pending_records candidates oldest_first insert_by_age
    is_eligible claim_all claim returning
stale_claim = refl

abbrev three_failures : List Op
three_failures =
    give_up done 2 (codes "a") 1
    ∷ claim_batch rows unlocked 500_000_000_000 5
    ∷ give_up (lost []) 2 (codes "b") 2
    ∷ give_up (refused []) 2 (codes "c") 3
    ∷ give_up done 2 (codes "d") 4
    ∷ []

failures_park_example : all_parked 2 (run no_text three_failures two_rows) ≡ true
failures_park_example =
    failures_park no_text 2 three_failures two_rows (omega arith) refl tt (omega arith)

parked_terminal_example :
    (times_handed no_text 3 three_failures (row 3 failed 3 5 ∷ two_rows) ≡ 0)
    × (all_parked 3 (run no_text three_failures (row 3 failed 3 5 ∷ two_rows)) ≡ true)
parked_terminal_example =
    parked_terminal no_text 3 three_failures (row 3 failed 3 5 ∷ two_rows) tt refl

oldest_claimed_example :
    (contains (candidates unlocked 0 1 two_rows) 1 ≡ true)
    ⊎ ((length (picked unlocked 0 1 two_rows) ≡ 1)
        × (all_of (λ s. leb s.created_at 20) (picked unlocked 0 1 two_rows) ≡ true))
unfolding is_eligible
oldest_claimed_example =
    oldest_claimed unlocked 0 1 two_rows (row 1 pending 0 20) (inl refl) refl refl
