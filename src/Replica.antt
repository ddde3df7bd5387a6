-- ===== src/Replica.antt =====
-- fanout.go with a relay: a FanoutHub over a Broadcaster, on one replica of a service. The hub's
-- handler is a number among those of the topic; what the other handlers do is other code.
pub mod Delivery
mod Tests
use shared_events.Prelude.{ℕ-Eq, Bytes, Option, Text, [], if◌then◌else◌, none, some, ℤ, ◌==◌, ◌∷◌}
use shared_events.Event.Headers.{NatsMsg}
use shared_events.Broadcast
use shared_events.Broadcast.{Broadcaster, Handler, Calls, subject_token, on_message}
use shared_events.Fanout.{FanoutHub, new_fanout_hub, deliver}

-- A FanoutHub with its relay; `none` is the nil relay.
pub record Replica : Type 0 where
  pub relay : Option Broadcaster
  pub topic : Text
  pub handler : Handler
  pub hub : FanoutHub

-- NewFanoutHub. `answer` is the error of the connection's Subscribe; an error of the relay comes with
-- the hub.
abbrev subscribed : Text → Handler → FanoutHub → Option Text × Broadcaster → Option Text × Replica
subscribed topic handler hub (e, b) =
    (e, record { relay = some b; topic = topic; handler = handler; hub = hub })

unfoldable pub new_replica :
    Option Text → Option Broadcaster → Text → Handler → ℤ → Option Text × Replica
new_replica answer none topic handler buf =
    (none, record { relay = none; topic = topic; handler = handler; hub = new_fanout_hub buf })
new_replica answer (some b) topic handler buf =
    subscribed topic handler (new_fanout_hub buf) (Broadcast.subscribe answer topic handler b)

-- The calls of the handlers, in turn: the hub's own delivers. `none` is a panic of the hub.
abbrev pub then_rest : (FanoutHub → Option FanoutHub) → Option FanoutHub → Option FanoutHub
then_rest rest none = none
then_rest rest (some hub) = rest hub

unfoldable pub handled : Handler → Calls → FanoutHub → Option FanoutHub
handled own [] hub = some hub
handled own ((h, m) ∷ calls) hub =
    let here = then_rest (handled own calls) (deliver m.tenant_id m.scope m.body hub) in
    let on = handled own calls hub in if h == own then here else on

-- FanoutHub.Publish: the hub after it, and the message handed to the connection. The error of the
-- relay is dropped.
abbrev published :
    Handler → FanoutHub → Calls × Option NatsMsg × Option Text → Option FanoutHub × Option NatsMsg
published own hub (calls, sent, e) = (handled own calls hub, sent)

abbrev pub publish_over :
    Option Broadcaster
    → Option Text
    → Text
    → Text
    → Bytes
    → Replica
    → Option FanoutHub × Option NatsMsg
publish_over none answer tenant scope body r = (deliver tenant scope body r.hub, none)
publish_over (some b) answer tenant scope body r =
    published r.handler r.hub (Broadcast.publish answer r.topic tenant scope body b)

unfoldable pub publish :
    Option Text → Text → Text → Bytes → Replica → Option FanoutHub × Option NatsMsg
publish answer tenant scope body r = publish_over r.relay answer tenant scope body r

-- A message of the topic's subscription reaches the replica's hub.
abbrev pub received_by : Option Broadcaster → NatsMsg → Replica → Option FanoutHub
received_by none msg r = some r.hub
received_by (some b) msg r = handled r.handler (on_message b (subject_token r.topic) msg) r.hub

unfoldable pub received : NatsMsg → Replica → Option FanoutHub
received msg r = received_by r.relay msg r
