-- ===== src/Idempotency/Consumers.antt =====
-- The handler of a consumer that takes the key of Claim from EventIDFromMsg, as both functions say
-- it is to.
use shared_events.Prelude.{
  ℕ-Eq, Text-Eq, Bytes, List, Result, Text, [], all_of, any_of, arith, err, false, inl, inr, ok,
  text_eq_refl, true, ◌++◌, ◌==◌, ◌∷◌, ◌≡◌, ◌⊎◌,
}
use shared_events.Event.{Uuid, Time, Event, UuidCodec}
use shared_events.Event.Headers.{NatsMsg}
use shared_events.Outbox.Repository.{ExecReply}
use shared_events.Publisher.{message}
use shared_events.Idempotency.{Claims, has_claim}
use shared_events.Idempotency.Once.{Step, to_claim, count_wins, is_recent}
use shared_events.Idempotency.Exact.{is_undisturbed, asks, claim_exactly_once}
use shared_events.Idempotency.Ids.{event_id_from_msg, event_id_from_msg-message}

-- A message that NATS delivers to some replica of the consumer, first or again, or a statement of
-- anyone else, in the order in which the database serves them.
pub data Happening : Type 0 where
  delivers : NatsMsg → ExecReply → Time → Happening
  serves : Step → Happening

module _ (uuid : UuidCodec) (decode : Bytes → Result (Text × Text)) (consumer : Text) where
  abbrev claim_of : Result Uuid → ExecReply → Time → List Step
  claim_of (err e) reply now = []
  claim_of (ok id) reply now = to_claim reply id consumer now ∷ []

  -- The statements that the store is given.
  abbrev pub statements : List Happening → List Step
  statements [] = []
  statements (delivers msg reply now ∷ rest) =
      claim_of (event_id_from_msg uuid decode msg) reply now ++ statements rest
  statements (serves s ∷ rest) = s ∷ statements rest

  -- A message of the event is delivered once at least.
  abbrev pub Arrives : Event → List Happening → Type 0
  Arrives e [] = ⊥
  Arrives e (delivers msg reply now ∷ rest) =
      ((body : Bytes) × (msg ≡ message uuid e body)) ⊎ Arrives e rest
  Arrives e (serves s ∷ rest) = Arrives e rest

  Arrives-asks :
      (e : Event)
      → ((u : Uuid) → uuid.parse (uuid.print u) ≡ ok u)
      → ((u : Uuid) → (uuid.print u == []) ≡ false)
      → (hs : List Happening) → Arrives e hs
      → any_of (asks e.id consumer) (statements hs) ≡ true
  Arrives-asks e back full [] a = elim a [ ]
  Arrives-asks e back full (delivers msg reply now ∷ rest) (inl (body, q)) = rw q (
      rw (event_id_from_msg-message uuid decode e body back full)
        (ground (arith, text_eq_refl consumer)))
  Arrives-asks e back full (delivers msg reply now ∷ rest) (inr a) =
      ground (arith, event_id_from_msg uuid decode msg, Arrives-asks e back full rest a)
  Arrives-asks e back full (serves s ∷ rest) a = ground (arith, Arrives-asks e back full rest a)

  -- A consumer that passes the id which EventIDFromMsg reads to Claim claims an event exactly once.
  -- Whatever messages NATS delivers to its replicas, in whatever order and how often, and whatever
  -- else is done to the store: of the calls of Claim for the event and the consumer, exactly one
  -- returns true, if a message that the publisher sent for the event, with any body, is among those
  -- delivered. For a table with no claim of the event; as long as the database answers these
  -- claims, nobody marks the event as processed, the rows are written at some time or later, and no
  -- prune's cutoff is after that time; and for a UUID package that reads back what it prints and
  -- prints no empty text.
  pub event_claimed_exactly_once :
      (since : Time) (e : Event) (hs : List Happening) (t : Claims)
      → ((u : Uuid) → uuid.parse (uuid.print u) ≡ ok u)
      → ((u : Uuid) → (uuid.print u == []) ≡ false)
      → Arrives e hs
      → all_of (is_recent since) (statements hs) ≡ true
      → all_of (is_undisturbed e.id consumer) (statements hs) ≡ true
      → has_claim e.id consumer t ≡ false
      → count_wins e.id consumer (statements hs) t ≡ 1
  event_claimed_exactly_once since e hs t back full a r u n =
      claim_exactly_once e.id consumer since (statements hs) t r u (Arrives-asks e back full hs a) n
