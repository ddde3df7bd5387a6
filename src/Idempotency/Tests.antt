-- ===== src/Idempotency/Tests.antt =====
-- Two replicas and a prune, and the theorems at them.
use shared_events.Prelude.{
  ℕ-Eq, Text-Eq, List, Result, Text, [], arith, codes, err, inl, none, ok, pos, positive_or, refl,
  some, ◌-◌, ◌∷◌, ◌≡◌, ◌≤◌,
}
use shared_events.Event.{Uuid, Event, UuidCodec}
use shared_events.Publisher.{message}
use shared_events.Outbox.Repository.{done}
use shared_events.Idempotency.{
  Claims, Pass, insert_claim, claim, delete_old, passes, prune, default_processed_retention,
}
use shared_events.Idempotency.Once.{Step, to_claim, to_prune, count_wins, claim_once}
use shared_events.Idempotency.Pruned.{old, kept, prune_exact}
use shared_events.Event.Headers.{event_headers, get, set}
use shared_events.Idempotency.Ids.{event_id_from_msg}
use shared_events.Idempotency.Consumers.{
  Happening, delivers, serves, statements, event_claimed_exactly_once,
}

abbrev passed : Pass
passed = record { reply = done; ctx_err = none }

-- The row of event 9 is old when the first replica claims it, and the prune takes it.
abbrev rows : Claims
rows =
    record { event_id = 9; consumer = codes "c"; processed_at = 1 }
    ∷ record { event_id = 8; consumer = codes "c"; processed_at = 50 }
    ∷ []

abbrev steps : List Step
steps =
    to_claim done 9 (codes "c") 60
    ∷ to_prune (passed ∷ passed ∷ passed ∷ []) 60 (pos 10) (pos 1)
    ∷ to_claim done 9 (codes "c") 61
    ∷ to_claim done 9 (codes "c") 62
    ∷ []

one_win : count_wins 9 (codes "c") steps rows ≡ 1
unfolding claim insert_claim prune passes delete_old
one_win = refl

claim_once_example : count_wins 9 (codes "c") steps rows ≤ 1
claim_once_example = claim_once 55 9 (codes "c") steps rows refl

prune_exact_example : prune (passed ∷ passed ∷ []) 60 (pos 10) (pos 1) rows ≡ (
  some (old (60 - positive_or (pos 10) default_processed_retention) rows, none),
  kept (60 - positive_or (pos 10) default_processed_retention) rows,
)
prune_exact_example =
    prune_exact (passed ∷ passed ∷ []) 60 (pos 10) (pos 1) rows refl (ground arith)

abbrev one_rune : Text → Result Uuid
one_rune (u ∷ []) = ok u
one_rune _ = err (codes "invalid UUID")

abbrev uuid : UuidCodec
uuid = record { print = λ u. u ∷ []; parse = one_rune }

abbrev event : Event
event = record {
  id = 7;
  event_type = codes "created";
  aggregate_type = codes "order";
  aggregate_id = 1;
  tenant_id = 2;
  tenant_slug = [];
  payload = [];
  metadata = none;
  timestamp = 0;
  version = codes "1.0";
}

-- Two replicas are given the event's message, one after the other, and another event's between.
abbrev happenings : List Happening
happenings =
    delivers (message uuid event []) done 60
    ∷ delivers (message uuid (record event { id = 6 }) []) done 61
    ∷ serves (to_prune (passed ∷ passed ∷ []) 62 (pos 10) (pos 1))
    ∷ delivers (message uuid event []) done 63
    ∷ []

event_claimed_exactly_once_example :
    count_wins 7
      (codes "c")
      (statements uuid (λ b. err (codes "no JSON")) (codes "c") happenings)
      rows
    ≡ 1
unfolding event_id_from_msg message event_headers get set
event_claimed_exactly_once_example =
    event_claimed_exactly_once uuid (λ b. err (codes "no JSON")) (codes "c") 55 event happenings
      rows (λ u. refl) (λ u. refl) (inl ([], refl)) refl refl refl
