-- ===== src/Adapters.antt =====
-- adapters.go and the interface EventPublisher of poller.go: the transports that the poller may be
-- given. A nil connection is `none`; what the connection answers is the environment's.
pub mod Faithful
use shared_events.Prelude.{Bytes, Option, Result, Text, [], codes, err, none, ok, some, ◌++◌}
use shared_events.Event.{Event, UuidCodec, JsonCodec, subject, to_json}
use shared_events.Event.Headers.{NatsMsg}
use shared_events.Publisher.{Answer, acked, rejected, unacked, Sent, stored, message}

-- `Publish`: the error that it returns, and the messages that the transport has taken.
abbrev pub EventPublisher : Type 0
EventPublisher = Event → Sent → Option Text × Sent

-- The error is wrapped.
abbrev pub answered : Text → NatsMsg → Answer → Sent → Option Text × Sent
answered prefix msg acked sent = (none, stored acked msg sent)
answered prefix msg (rejected e) sent = (some (prefix ++ e), stored (rejected e) msg sent)
answered prefix msg (unacked e) sent = (some (prefix ++ e), stored (unacked e) msg sent)

send_encoded :
    Text → (NatsMsg → Answer) → (Bytes → NatsMsg) → Result Bytes → Sent → Option Text × Sent
send_encoded prefix connection msg (err e) sent = (some (codes "marshal event: " ++ e), sent)
send_encoded prefix connection msg (ok body) sent =
    answered prefix (msg body) (connection (msg body)) sent

-- NATSAdapter: the subject and the data, with no headers.
unfoldable pub nats_adapter : JsonCodec → Option (NatsMsg → Answer) → EventPublisher
unfolding send_encoded
nats_adapter json none event sent = (none, sent)
nats_adapter json (some conn) event sent =
    send_encoded (codes "nats publish: ") conn
      (λ body. record { subject = subject event; header = []; body = body }) (to_json json event)
      sent

-- JetStreamAdapter.
unfoldable pub jet_stream_adapter :
    UuidCodec → JsonCodec → Option (NatsMsg → Answer) → EventPublisher
unfolding send_encoded
jet_stream_adapter uuid json none event sent = (none, sent)
jet_stream_adapter uuid json (some js) event sent =
    send_encoded (codes "jetstream publish: ") js (message uuid event) (to_json json event) sent
