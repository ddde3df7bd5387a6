-- ===== src/Publisher.antt =====
-- publisher.go: the background publisher, over any OutboxRepository and any JetStream. Logging is
-- left out. The integers of its configuration are taken not to be negative.
pub mod NoLoss
pub mod Calm
pub mod Rounds
pub mod Drain
pub mod EndToEnd
pub mod Cluster
mod Tests
use shared_events.Prelude.{
  ℕ-Eq, Bytes, List, Option, Result, Text, [], codes, decimal, err, if◌then◌else◌, leb, none, ok,
  some, ℕ, ◌++◌, ◌==◌, ◌∷◌,
}
use shared_events.Event.{Uuid, Time, Event, UuidCodec, JsonCodec, subject, to_json, from_json}
use shared_events.Event.Headers.{NatsMsg, event_headers}
use shared_events.Outbox.{OutboxRecord, OutboxRepository, max_outbox_attempts}

pub record PublisherConfig : Type 0 where
  pub max_retries : ℕ
  pub retry_delay : ℕ
  pub batch_size : ℕ
  pub poll_interval : ℕ
  pub max_attempts : ℕ

-- Durations are in nanoseconds.
abbrev pub default_publisher_config : PublisherConfig
default_publisher_config = record {
  max_retries = max_outbox_attempts;
  retry_delay = 5_000_000_000;
  batch_size = 100;
  poll_interval = 2_000_000_000;
  max_attempts = max_outbox_attempts;
}

-- A Publisher without its connection, repository and logger.
pub record Publisher : Type 0 where
  pub max_retries : ℕ
  pub retry_delay : ℕ
  pub batch_size : ℕ
  pub poll_interval : ℕ
  pub max_attempts : ℕ

abbrev pub new_publisher : PublisherConfig → Publisher
new_publisher cfg = record {
  max_retries = cfg.max_retries;
  retry_delay = cfg.retry_delay;
  batch_size = cfg.batch_size;
  poll_interval = cfg.poll_interval;
  max_attempts = cfg.max_attempts;
}

-- What `PublishMsg` returns: a nil error, an error with the message not stored, or an error (the
-- acknowledgement was lost) with the message stored.
pub data Answer : Type 0 where
  acked : Answer
  rejected : Text → Answer
  unacked : Text → Answer

-- The messages that the stream stored, the newest first.
abbrev pub Sent : Type 0
Sent = List NatsMsg

abbrev pub stored : Answer → NatsMsg → Sent → Sent
stored (rejected e) msg sent = sent
stored _ msg sent = msg ∷ sent

pub record World (S : Type 0) : Type 0 where
  pub repo_state : S
  pub sent : Sent

-- What the environment does during one round: the repository with its replies, the stream's
-- answers, and the clock when each record is marked.
pub record Round (S : Type 0) : Type 0 where
  pub repo : OutboxRepository S
  pub publish_msg : NatsMsg → Answer
  pub now : Uuid → Time

unfoldable pub message : UuidCodec → Event → Bytes → NatsMsg
message uuid e body = record { subject = subject e; header = event_headers uuid e; body = body }

module _ {S : Type 0} (uuid : UuidCodec) (json : JsonCodec) (publisher : Publisher)
    (round : Round S) where
  abbrev pub with_repo : Sent → Option Text × S → Option Text × World S
  with_repo sent (e, s) = (e, record { repo_state = s; sent = sent })

  pub mark_failed : OutboxRecord → Text → World S → Option Text × World S
  mark_failed r message w =
      with_repo w.sent (round.repo.mark_as_failed r.id message (round.now r.id) w.repo_state)

  -- After `PublishMsg` has answered.
  unfoldable pub settle : OutboxRecord → NatsMsg → Answer → World S → Option Text × World S
  settle r msg acked w =
      with_repo (stored acked msg w.sent)
        (round.repo.mark_as_published r.id (round.now r.id) w.repo_state)
  settle r msg (rejected e) w = with_repo (stored (rejected e) msg w.sent) (
      round.repo.mark_as_failed r.id (codes "publish to NATS: " ++ e) (round.now r.id) w.repo_state)
  settle r msg (unacked e) w = with_repo (stored (unacked e) msg w.sent) (
      round.repo.mark_as_failed r.id (codes "publish to NATS: " ++ e) (round.now r.id) w.repo_state)

  -- After `ToJSON`.
  unfoldable pub publish_encoded :
      OutboxRecord → Event → Result Bytes → World S → Option Text × World S
  publish_encoded r event (err e) w = mark_failed r (codes "marshal event: " ++ e) w
  publish_encoded r event (ok body) w =
      let msg = message uuid event body in settle r msg (round.publish_msg msg) w

  -- After `FromJSON`.
  unfoldable pub publish_decoded : OutboxRecord → Result Event → World S → Option Text × World S
  publish_decoded r (err e) w = mark_failed r (codes "invalid event payload: " ++ e) w
  publish_decoded r (ok event) w =
      if leb publisher.max_attempts r.attempts
      then mark_failed r
          (codes "max attempts (" ++ decimal publisher.max_attempts ++ codes ") exceeded") w
      else publish_encoded r event (to_json json event) w

  unfoldable pub publish_record : OutboxRecord → World S → Option Text × World S
  publish_record r w = publish_decoded r (from_json json r.payload) w

  -- An error of one record is logged, and the loop goes on.
  unfoldable pub publish_all : List OutboxRecord → World S → World S
  publish_all [] w = w
  publish_all (r ∷ rest) w = publish_all rest (publish_record r w).1

  abbrev pub process_claimed : Result (List OutboxRecord) → World S → Option Text × World S
  process_claimed (err e) w = (some (codes "get pending records: " ++ e), w)
  process_claimed (ok records) w = (none, publish_all records w)

  unfoldable pub process_batch : World S → Option Text × World S
  process_batch w =
      let (claimed, s) = round.repo.get_pending_records publisher.batch_size w.repo_state in
      process_claimed claimed (record w { repo_state = s })

-- What the `select` of Start receives: a tick of the ticker, with what the environment then does,
-- or the end of the context.
pub data Signal (S : Type 0) : Type 0 where
  tick : Round S → Signal S
  stopped : Signal S

unfoldable pub loop :
    {S : Type 0} → UuidCodec → JsonCodec → Publisher → List (Signal S) → World S → World S
loop uuid json publisher [] w = w
loop uuid json publisher (tick round ∷ rest) w =
    loop uuid json publisher rest (process_batch uuid json publisher round w).1
loop uuid json publisher (stopped ∷ rest) w = w

-- Start; `none` is the panic of NewTicker on an interval that is not positive.
unfoldable pub start :
    {S : Type 0} → UuidCodec → JsonCodec → Publisher → List (Signal S) → World S → Option (World S)
start uuid json publisher signals w =
    if publisher.poll_interval == 0 then none else some (loop uuid json publisher signals w)
