-- ===== src/Poller.antt =====
-- poller.go: the polling loop over any OutboxRepository and any EventPublisher. Logging is left
-- out, and so are the goroutine and the WaitGroup: Stop is one of the signals that `run` receives.
pub mod NoLoss
pub mod Unconnected
pub mod Lifecycle
mod Tests
use shared_events.Prelude.{
  List, Option, Result, Text, [], err, none, ok, positive_or, some, ℕ, ℤ, ◌∷◌,
}
use shared_events.Event.{Uuid, Time, Event, JsonCodec, from_json}
use shared_events.Outbox.{OutboxRecord, OutboxRepository}
use shared_events.Publisher.{Sent, World}
use shared_events.Adapters.{EventPublisher}

pub record PollerConfig : Type 0 where
  pub batch_size : ℤ
  pub poll_period : ℤ

pub record OutboxPoller : Type 0 where
  pub batch_size : ℕ
  pub poll_period : ℕ

unfoldable pub new_outbox_poller : PollerConfig → OutboxPoller
new_outbox_poller cfg = record {
  batch_size = positive_or cfg.batch_size 100;
  poll_period = positive_or cfg.poll_period 5_000_000_000;
}

-- What the environment does during one poll.
pub record Round (S : Type 0) : Type 0 where
  pub repo : OutboxRepository S
  pub publisher : EventPublisher
  pub now : Uuid → Time

module _ {S : Type 0} (json : JsonCodec) (p : OutboxPoller) (round : Round S) where
  -- The errors of the two marks are dropped or logged.
  pub after_publish : OutboxRecord → Option Text × Sent → S → World S
  after_publish r (some e, sent) s = record {
    repo_state = (round.repo.mark_as_failed r.id e (round.now r.id) s).1;
    sent = sent;
  }
  after_publish r (none, sent) s = record {
    repo_state = (round.repo.mark_as_published r.id (round.now r.id) s).1;
    sent = sent;
  }

  pub poll_decoded : OutboxRecord → Result Event → World S → World S
  poll_decoded r (err e) w = record w {
    repo_state = (round.repo.mark_as_failed r.id e (round.now r.id) w.repo_state).1;
  }
  poll_decoded r (ok event) w = after_publish r (round.publisher event w.sent) w.repo_state

  unfoldable pub poll_all : List OutboxRecord → World S → World S
  poll_all [] w = w
  poll_all (r ∷ rest) w = poll_all rest (poll_decoded r (from_json json r.payload) w)

  abbrev pub poll_claimed : Result (List OutboxRecord) → World S → World S
  poll_claimed (err e) w = w
  poll_claimed (ok records) w = poll_all records w

  unfoldable pub poll : World S → World S
  poll w =
      let (claimed, s) = round.repo.get_pending_records p.batch_size w.repo_state in
      poll_claimed claimed (record w { repo_state = s })

-- What the `select` of run receives.
pub data Signal (S : Type 0) : Type 0 where
  tick : Round S → Signal S
  ctx_done : Signal S
  stop : Signal S

loop : {S : Type 0} → JsonCodec → OutboxPoller → List (Signal S) → World S → World S
loop json p [] w = w
loop json p (tick round ∷ rest) w = loop json p rest (poll json p round w)
loop json p (ctx_done ∷ rest) w = w
loop json p (stop ∷ rest) w = w

-- It polls once before the first tick.
unfoldable pub run :
    {S : Type 0} → JsonCodec → OutboxPoller → Round S → List (Signal S) → World S → World S
unfolding loop
run json p first signals w = loop json p signals (poll json p first w)
