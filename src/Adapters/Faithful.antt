-- ===== src/Adapters/Faithful.antt =====
-- The JetStream adapter with a connection is faithful.
use shared_events.Prelude.{Bytes, Result, Text, codes, err, inl, inr, none, ok, refl, some, ◌≡◌}
use shared_events.Event.{Event, UuidCodec, JsonCodec, to_json}
use shared_events.Event.Headers.{NatsMsg}
use shared_events.Publisher.{Answer, acked, rejected, unacked, Sent, stored, message}
use shared_events.Publisher.NoLoss.{IsStored}
use shared_events.Adapters.{EventPublisher, jet_stream_adapter, answered, send_encoded}

-- A transport that returns no error only for an event that it has, and never gives one up.
pub record IsFaithful (publisher : EventPublisher) (Has : Event → Sent → Type 0) : Type 0 where
  pub has : (e : Event) (sent : Sent) → (publisher e sent).0 ≡ none → Has e (publisher e sent).1
  pub keeps : (e e' : Event) (sent : Sent) → Has e' sent → Has e' (publisher e sent).1

-- The stream has the message of the event.
pub record IsSent (uuid : UuidCodec) (json : JsonCodec) (event : Event) (sent : Sent) : Type 0 where
  pub body : Bytes
  pub encoded : to_json json event ≡ ok body
  pub in_stream : IsStored (message uuid event body) sent

IsStored-stored :
    (a : Answer) (msg m : NatsMsg) (sent : Sent) → IsStored m sent → IsStored m (stored a msg sent)
IsStored-stored acked msg m sent h = inr h
IsStored-stored (rejected e) msg m sent h = h
IsStored-stored (unacked e) msg m sent h = inr h

answered-sent :
    (prefix : Text) (msg : NatsMsg) (a : Answer) (sent : Sent)
    → (answered prefix msg a sent).1 ≡ stored a msg sent
answered-sent prefix msg acked sent = refl
answered-sent prefix msg (rejected e) sent = refl
answered-sent prefix msg (unacked e) sent = refl

IsStored-of_answered :
    (prefix : Text) (msg : NatsMsg) (a : Answer) (sent : Sent)
    → (answered prefix msg a sent).0 ≡ none
    → IsStored msg (answered prefix msg a sent).1
IsStored-of_answered prefix msg acked sent h = inl refl
IsStored-of_answered prefix msg (rejected e) sent h = cc
IsStored-of_answered prefix msg (unacked e) sent h = cc

module _ (uuid : UuidCodec) (json : JsonCodec) (js : NatsMsg → Answer) where
  abbrev prefix : Text
  prefix = codes "jetstream publish: "

  send_encoded-has :
      (event : Event) (x : Result Bytes) (sent : Sent)
      → to_json json event ≡ x
      → (send_encoded prefix js (message uuid event) x sent).0 ≡ none
      → IsSent uuid json event (send_encoded prefix js (message uuid event) x sent).1
  unfolding send_encoded
  send_encoded-has event (err e) sent d h = cc
  send_encoded-has event (ok body) sent d h = record {
    body = body;
    encoded = d;
    in_stream =
        let msg = message uuid event body in IsStored-of_answered prefix msg (js msg) sent h;
  }

  send_encoded-keeps :
      (event e' : Event) (x : Result Bytes) (sent : Sent)
      → IsSent uuid json e' sent
      → IsSent uuid json e' (send_encoded prefix js (message uuid event) x sent).1
  unfolding send_encoded
  send_encoded-keeps event e' (err e) sent k = k
  send_encoded-keeps event e' (ok body) sent k = record {
    body = k.body;
    encoded = k.encoded;
    in_stream =
        let msg = message uuid event body in
        rw (answered-sent prefix msg (js msg) sent)
          (IsStored-stored (js msg) msg (message uuid e' k.body) sent k.in_stream);
  }

  -- The JetStream adapter with a connection returns no error only when the stream has the message
  -- of the event, and what the stream has stays there, whatever the stream answers.
  pub jet_stream_adapter-IsFaithful :
      IsFaithful (jet_stream_adapter uuid json (some js)) (IsSent uuid json)
  unfolding jet_stream_adapter
  jet_stream_adapter-IsFaithful = record {
    has = λ e sent h. send_encoded-has e (to_json json e) sent refl h;
    keeps = λ e e' sent h. send_encoded-keeps e e' (to_json json e) sent h;
  }
