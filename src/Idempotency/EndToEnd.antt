-- ===== src/Idempotency/EndToEnd.antt =====
-- From PublishWithOutbox to the handler of a consumer.
mod Tests
use shared_events.Prelude.{
  ℕ-Eq, Text-Eq, Bytes, List, Option, Result, Text, [], all_of, arith, false, inl, inr, leb, length,
  none, ok, some, sym, true, ◌*◌, ◌==◌, ◌∙◌, ◌∷◌, ◌≡◌, ◌≤◌, ◌⊎◌,
}
use mathlib.Core.Path.{subst}
use shared_events.Event.{Uuid, Time, Event, UuidCodec, JsonCodec, to_json}
use shared_events.Event.ReadBack.{ReadsBack}
use shared_events.Event.Headers.{NatsMsg}
use shared_events.Outbox.{publish_with_outbox}
use shared_events.Outbox.Repository.{Table}
use shared_events.Outbox.Store.{Db, sql_repository}
use shared_events.Publisher.{Publisher, Sent, World, Signal, message, start}
use shared_events.Publisher.NoLoss.{IsStored}
use shared_events.Publisher.Calm.{all_served}
use shared_events.Publisher.Rounds.{ticks}
use shared_events.Publisher.EndToEnd.{Streamed, publish_with_outbox_publishes}
use shared_events.Idempotency.{Claims, has_claim}
use shared_events.Idempotency.Once.{count_wins, is_recent}
use shared_events.Idempotency.Exact.{is_undisturbed}
use shared_events.Idempotency.Consumers.{
  Happening, delivers, serves, statements, Arrives, event_claimed_exactly_once,
}

abbrev pub IsDelivered : NatsMsg → List Happening → Type 0
IsDelivered msg [] = ⊥
IsDelivered msg (delivers m reply now ∷ rest) = (m ≡ msg) ⊎ IsDelivered msg rest
IsDelivered msg (serves s ∷ rest) = IsDelivered msg rest

-- JetStream delivers each message that the stream has once at least.
abbrev pub AllDelivered : Sent → List Happening → Type 0
AllDelivered [] hs = Unit {0}
AllDelivered (msg ∷ sent) hs = IsDelivered msg hs × AllDelivered sent hs

IsStored-IsDelivered :
    (msg : NatsMsg) (sent : Sent) (hs : List Happening)
    → AllDelivered sent hs
    → IsStored msg sent
    → IsDelivered msg hs
IsStored-IsDelivered msg (m ∷ sent) hs (d, ds) (inl q) = subst (λ x. IsDelivered x hs) q d
IsStored-IsDelivered msg (m ∷ sent) hs (d, ds) (inr k) = IsStored-IsDelivered msg sent hs ds k
IsStored-IsDelivered msg [] hs d k = elim k [ ]

module _ (uuid : UuidCodec) (json : JsonCodec) (decode : Bytes → Result (Text × Text))
    (consumer : Text) where
  IsDelivered-Arrives :
      (e : Event) (body : Bytes) (hs : List Happening)
      → IsDelivered (message uuid e body) hs
      → Arrives uuid decode consumer e hs
  IsDelivered-Arrives e body [] d = d
  IsDelivered-Arrives e body (delivers m reply now ∷ rest) (inl q) = inl (body, q)
  IsDelivered-Arrives e body (delivers m reply now ∷ rest) (inr d) =
      inr (IsDelivered-Arrives e body rest d)
  IsDelivered-Arrives e body (serves s ∷ rest) d = IsDelivered-Arrives e body rest d

  Streamed-Arrives :
      (e : Event) (sent : Sent) (hs : List Happening)
      → AllDelivered sent hs
      → Streamed uuid json e sent
      → Arrives uuid decode consumer e hs
  Streamed-Arrives e sent hs ds k =
      IsDelivered-Arrives e k.body hs
        (IsStored-IsDelivered (message uuid e k.body) sent hs ds k.in_stream)

  start-interval :
      (publisher : Publisher) (signals : List (Signal Table)) (w w' : World Table)
      → start uuid json publisher signals w ≡ some w'
      → (publisher.poll_interval == 0) ≡ false
  unfolding start
  start-interval publisher signals w w' q = ground (arith, q)

  same_end : (w w' : World Table) → ◌≡◌ {A = Option (World Table)} (some w) (some w') → w ≡ w'
  same_end w w' q = ground (arith, q)

  -- An event that a service commits is claimed exactly once at a consumer. When PublishWithOutbox
  -- has returned no error, and Start has made as many ticks as there are batches in the table while
  -- the database and the stream answer, then, whatever is delivered to the consumer's replicas, in
  -- whatever order and how often, if each message of the stream is delivered once at least: of the
  -- calls of Claim for the event and the consumer, whose handler passes on the id that
  -- EventIDFromMsg reads, exactly one returns true. For a JSON codec that reads the event back with
  -- its id, types, aggregate, tenant and version and can write it again, and a UUID package that
  -- reads back what it prints and prints no empty text; for a publisher that
  -- allows an attempt, and a table whose other rows can be published or are parked; and for a store
  -- with no claim of the event, as long as the database answers these claims, nobody marks the
  -- event as processed, the rows are written at some time or later, and no prune's cutoff is after
  -- that time.
  pub committed_event_claimed_once :
      (publisher : Publisher) (print : Uuid → Text) (db : Db) (e : Event) (now : Time)
      (t t' : Table) (sent : Sent) (times : List Time) (w : World Table) (since : Time)
      (hs : List Happening) (claims : Claims)
      → ((payload : Bytes) → to_json json e ≡ ok payload → ReadsBack json e payload)
      → ((u : Uuid) → uuid.parse (uuid.print u) ≡ ok u)
      → ((u : Uuid) → (uuid.print u == []) ≡ false)
      → leb publisher.max_attempts 0 ≡ false
      → all_served json publisher t ≡ true
      → publish_with_outbox json (sql_repository db) e now t ≡ (none, t')
      → length t' ≤ length times * publisher.batch_size
      → start uuid json publisher (ticks print times) (record { repo_state = t'; sent = sent })
        ≡ some w
      → AllDelivered w.sent hs
      → all_of (is_recent since) (statements uuid decode consumer hs) ≡ true
      → all_of (is_undisturbed e.id consumer) (statements uuid decode consumer hs) ≡ true
      → has_claim e.id consumer claims ≡ false
      → count_wins e.id consumer (statements uuid decode consumer hs) claims ≡ 1
  committed_event_claimed_once publisher print db e now t t' sent times w since hs claims back same
        full m h q l run ds recent calm new =
      let (w', run', gone, streamed) =
        publish_with_outbox_publishes uuid json publisher print e now t sent times db t' back m
          (start-interval publisher (ticks print times) _ w run) h q l in
      let there : Streamed uuid json e w.sent =
        subst (λ x. Streamed uuid json e x.sent) (same_end w' w (sym run' ∙ run)) streamed in
      event_claimed_exactly_once uuid decode consumer since e hs claims same full
        (Streamed-Arrives e w.sent hs ds there) recent calm new
