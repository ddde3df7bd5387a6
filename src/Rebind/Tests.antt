-- ===== src/Rebind/Tests.antt =====
-- Runs of the subscribe loops, and the theorems at concrete answers.
use shared_events.Prelude.{
  Text-Eq, ℕ-Eq, List, Option, Text, [], arith, codes, count_by, decimal, negsuc, none, pos, refl,
  some, suc, zero, ℕ, ◌*◌, ◌+◌, ◌↔◌, ◌∷◌, ◌≡◌, ◌≢◌, ◌≤◌,
}
use shared_events.Rebind.Settle.Range.{settle_exact}
use shared_events.Rebind.{
  active, after_queue_subscribe, after_subscribe, delete_consumer, is_already_bound, loop,
  max_attempts, missing_deliver_group, second, sleep, stream_missing, subscribe,
  subscribe_queue_with_rebind, subscribe_with_rebind, waiting,
}
use shared_events.Rebind.Settle.{atoi, rebind_settle}
use shared_events.Rebind.Schedule.{at_attempt, conflicts_schedule, delay, followed_by, schedule}
use shared_events.Rebind.Waits.{heard, SameBut, stream_waits_free}
use shared_events.Rebind.Bounds.{is_delete, is_missing, is_subscribe, subscribe_queue_ends}

abbrev bound : Text
bound = codes "nats: consumer is already bound to a subscription"

abbrev legacy : Text
legacy = codes "nats: cannot create a queue subscription for a consumer without a deliver group"

abbrev no_stream : Text
no_stream = codes "nats: stream not found"

settle_default : rebind_settle (codes "-1") ≡ pos (25 * second)
unfolding rebind_settle atoi
settle_default = refl

settle_tuned : rebind_settle (codes "+007") ≡ pos (7 * second)
unfolding rebind_settle atoi
settle_tuned = refl

-- The stream comes late, the legacy consumer is deleted, and one conflict is waited out.
migration :
    subscribe_queue_with_rebind
      (pos 0)
      (codes "tenant")
      (codes "q")
      (some no_stream ∷ some legacy ∷ some bound ∷ none ∷ [])
    ≡ (
      sleep 0
          ∷ subscribe
          ∷ sleep (30 * second)
          ∷ subscribe
          ∷ delete_consumer (codes "tenant") (codes "q")
          ∷ subscribe
          ∷ sleep (3 * second)
          ∷ subscribe
          ∷ [],
      active,
    )
unfolding subscribe_queue_with_rebind loop after_queue_subscribe is_already_bound
    missing_deliver_group stream_missing
migration = refl

-- Five conflicts, and a subscription: the last wait is of 48 seconds.
conflicts_schedule_example :
    (subscribe_with_rebind
        (pos 0)
        (some bound ∷ some bound ∷ some bound ∷ some bound ∷ some bound ∷ none ∷ [])
      ≡ followed_by (sleep 0 ∷ schedule 0 5) (loop after_subscribe (none ∷ []) (at_attempt 5)))
    × (subscribe_queue_with_rebind
          (pos 0)
          []
          []
          (some bound ∷ some bound ∷ some bound ∷ some bound ∷ some bound ∷ none ∷ [])
        ≡ followed_by
            (sleep 0 ∷ schedule 0 5)
            (loop (after_queue_subscribe [] []) (none ∷ []) (at_attempt 5)))
unfolding is_already_bound missing_deliver_group stream_missing
conflicts_schedule_example =
    conflicts_schedule (bound ∷ bound ∷ bound ∷ bound ∷ bound ∷ []) (none ∷ []) (pos 0) [] [] refl
      (omega arith)

fifth_wait : delay 4 ≡ 48 * second
unfolding delay
fifth_wait = refl

abbrev conflicts : ℕ → List (Option Text)
conflicts zero = []
conflicts (suc n) = some bound ∷ conflicts n

subscribe_queue_ends_example :
    (subscribe_queue_with_rebind (pos 0) [] [] (some no_stream ∷ conflicts 40)).1 ≢ waiting
unfolding stream_missing
subscribe_queue_ends_example =
    subscribe_queue_ends [] [] (pos 0) (some no_stream ∷ conflicts 40) (omega arith)

-- The stream is missing twice; without those answers the run is the same but for two pauses.
stream_waits_free_example :
    let answers = some no_stream ∷ some legacy ∷ some no_stream ∷ conflicts 50 in
    let run = subscribe_queue_with_rebind (pos 0) (codes "s") [] answers in
    SameBut run (subscribe_queue_with_rebind (pos 0) (codes "s") [] (heard answers))
    × (count_by is_subscribe run.0 ≤ max_attempts + count_by is_missing answers)
    × (count_by is_delete run.0 ≤ 1)
stream_waits_free_example =
    stream_waits_free (codes "s") [] (pos 0)
      (some no_stream ∷ some legacy ∷ some no_stream ∷ conflicts 50)

-- One second more than the range: the delay is negative.
settle_overflows : rebind_settle (codes "9223372037") ≡ negsuc 9_223_372_036_709_551_615
unfolding rebind_settle atoi
settle_overflows = refl

settle_exact_example : (rebind_settle (decimal 120) ≡ pos (120 * second)) ↔ (120 ≤ 9_223_372_036)
settle_exact_example = settle_exact 120
