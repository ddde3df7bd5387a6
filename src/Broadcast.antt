-- ===== src/Broadcast.antt =====
-- broadcast.go: the cross-pod relay. A handler is a number: what handlers do is the caller's, and a
-- dispatch is the list of the handlers called, each with its message. The lock and the logging are
-- left out; the connection is nats.go's, and what it answers is an argument.
pub mod Tokens
pub mod Relay
mod Tests
use shared_events.Prelude.{
  ℕ-Eq, Text-Eq, Bool, Bytes, List, Option, Text, [], codes, if◌then◌else◌, join, length, map, none,
  some, ℕ, ◌&&◌, ◌++◌, ◌==◌, ◌||◌, ◌∷◌,
}
use shared_events.Event.Headers.{NatsMsg, set, get}

pub record BroadcastMessage : Type 0 where
  pub topic : Text
  pub tenant_id : Text
  pub scope : Text
  pub body : Bytes

abbrev pub Handler : Type 0
Handler = ℕ

abbrev pub Calls : Type 0
Calls = List (Handler × BroadcastMessage)

-- The map from topics to handlers.
abbrev pub Handlers : Type 0
Handlers = List (Text × List Handler)

-- `connected` is false for a nil connection. A subscription is its subject.
pub record Broadcaster : Type 0 where
  pub connected : Bool
  pub namespace : Text
  pub origin : Text
  pub handlers : Handlers
  pub subs : List Text

abbrev pub broadcast_prefix : Text
broadcast_prefix = codes "_rt"

abbrev pub broadcast_origin_hdr : Text
broadcast_origin_hdr = codes "rt-origin"

abbrev pub empty_token : Text
empty_token = codes "_"

-- The runes that the `switch` of subjectToken replaces.
abbrev pub is_special : ℕ → Bool
is_special c = c == b'.' || c == b' ' || c == 9 || c == 10 || c == 13 || c == b'*' || c == b'>'

unfoldable pub subject_token : Text → Text
subject_token s = map (λ c. if is_special c then b'_' else c) s

unfoldable pub to_token : Text → Text
to_token s = if s == [] then empty_token else subject_token s

unfoldable pub from_token : Text → Text
from_token s = if s == empty_token then [] else s

-- `strings.Split(s, ".")`: the texts between the dots, one at least.
abbrev with_head : ℕ → List Text → List Text
with_head c [] = (c ∷ []) ∷ []
with_head c (t ∷ ts) = (c ∷ t) ∷ ts

unfoldable pub split_dots : Text → List Text
split_dots [] = [] ∷ []
split_dots (c ∷ s) = let rest = split_dots s in if c == b'.' then [] ∷ rest else with_head c rest

-- `b.handlers[topic]`; a missing topic has no handler.
unfoldable pub handlers_of : Handlers → Text → List Handler
handlers_of [] topic = []
handlers_of ((t, hs) ∷ rest) topic = if t == topic then hs else handlers_of rest topic

unfoldable pub set_handlers : Handlers → Text → List Handler → Handlers
set_handlers [] topic hs = (topic, hs) ∷ []
set_handlers ((t, old) ∷ rest) topic hs =
    if t == topic then (t, hs) ∷ rest else (t, old) ∷ set_handlers rest topic hs

-- `origin` is what `uuid.NewString` returns.
unfoldable pub new_broadcaster : Bool → Text → Text → Broadcaster
new_broadcaster connected namespace origin = record {
  connected = connected;
  namespace = subject_token namespace;
  origin = origin;
  handlers = [];
  subs = [];
}

unfoldable pub dispatch : Broadcaster → BroadcastMessage → Calls
dispatch b m = map (λ h. (h, m)) (handlers_of b.handlers m.topic)

abbrev dots : List Text → Text
dots tokens = join (codes ".") tokens

-- `answer` is the error of `conn.Subscribe`. On an error the handler is taken off again.
abbrev opened :
    Option Text → Text → List Handler → Handler → Broadcaster → Option Text × Broadcaster
opened (some e) topic old handler b =
    (some e, record b { handlers = set_handlers b.handlers topic old })
opened none topic old handler b = (
  none,
  record b {
    handlers = set_handlers b.handlers topic (old ++ handler ∷ []);
    subs =
        b.subs ++ dots (broadcast_prefix ∷ b.namespace ∷ topic ∷ codes "*" ∷ codes "*" ∷ []) ∷ [];
  },
)

unfoldable pub subscribe : Option Text → Text → Handler → Broadcaster → Option Text × Broadcaster
subscribe answer raw_topic handler b =
    let topic = subject_token raw_topic in
    let old = handlers_of b.handlers topic in
    if length old == 0 && b.connected
    then opened answer topic old handler b
    else (none, record b { handlers = set_handlers b.handlers topic (old ++ handler ∷ []) })

-- The message of a subject with five tokens.
abbrev pub from_tokens : Broadcaster → Text → Bytes → List Text → Calls
from_tokens b topic body (t0 ∷ t1 ∷ t2 ∷ t3 ∷ t4 ∷ []) =
    dispatch b
      (record { topic = topic; tenant_id = from_token t3; scope = from_token t4; body = body })
from_tokens b topic body _ = []

-- The callback of the topic's subscription, on a message that it received.
unfoldable pub on_message : Broadcaster → Text → NatsMsg → Calls
on_message b topic msg =
    if get msg.header broadcast_origin_hdr == b.origin
    then []
    else from_tokens b topic msg.body (split_dots msg.subject)

-- The message that Publish relays.
unfoldable pub relayed : Broadcaster → Text → Text → Text → Bytes → NatsMsg
relayed b topic tenant_id scope body = record {
  subject =
      dots (broadcast_prefix ∷ b.namespace ∷ topic ∷ to_token tenant_id ∷ to_token scope ∷ []);
  header = set [] broadcast_origin_hdr b.origin;
  body = body;
}

-- The local calls, the message handed to the connection, and the error that it answers with.
unfoldable pub publish :
    Option Text → Text → Text → Text → Bytes → Broadcaster → Calls × Option NatsMsg × Option Text
publish answer raw_topic tenant_id scope body b =
    let topic = subject_token raw_topic in
    let calls =
      dispatch b (record { topic = topic; tenant_id = tenant_id; scope = scope; body = body }) in
    if b.connected
    then (calls, some (relayed b topic tenant_id scope body), answer)
    else (calls, none, none)

unfoldable pub close : Broadcaster → Broadcaster
close b = record b { subs = [] }
