-- ===== src/Replica/Delivery.antt =====
-- A message published on one replica reaches the clients of every replica.
use shared_events.Prelude.{
  ℕ-Eq, Text-Eq, Bool, Bool-cases, Bytes, List, Option, Text, [], arith, contains, false,
  if◌then◌else◌, inl, inr, map, not, refl, some, true, ◌==◌, ◌∷◌, ◌≡◌, ◌≢◌,
}
use shared_events.Broadcast
use shared_events.Broadcast.{
  Broadcaster, BroadcastMessage, Handler, subject_token, dispatch, handlers_of, relayed,
  empty_token,
}
use shared_events.Broadcast.Tokens.{is_clean}
use shared_events.Broadcast.Relay.{HasToken, seen, own_echo_dropped, publish_once_per_pod}
use shared_events.Fanout.{FanoutHub}
use shared_events.Fanout.Coherent.{IsCoherent}
use shared_events.Fanout.Delivery.{delivered, deliver_exact}
use shared_events.Replica.{Replica, handled, publish, received}

handled_none :
    (own : Handler) (m : BroadcastMessage) (hs : List Handler) (hub : FanoutHub)
    → contains hs own ≡ false
    → handled own (map (λ h. (h, m)) hs) hub ≡ some hub
unfolding handled
handled_none own m [] hub n = refl
handled_none own m (h ∷ hs) hub n = ground (arith, handled_none own m hs hub)

-- The hub's handler is among those of the topic, once.
abbrev pub is_once : Handler → List Handler → Bool
is_once own [] = false
is_once own (h ∷ hs) = if h == own then not (contains hs own) else is_once own hs

handled_once :
    (own : Handler) (m : BroadcastMessage) (hs : List Handler) (hub : FanoutHub)
    → IsCoherent hub
    → is_once own hs ≡ true
    → handled own (map (λ h. (h, m)) hs) hub ≡ some (delivered m.tenant_id m.scope m.body hub)
unfolding handled
handled_once own m [] hub c o = ground arith
handled_once own m (h ∷ hs) hub c o = elim (Bool-cases (h == own)) [
  | inl mine ↦ rw mine (
      rw ((deliver_exact m.tenant_id m.scope m.body hub c).0) (
        handled_none own m hs (delivered m.tenant_id m.scope m.body hub) (ground (arith, mine, o))))
  | inr other ↦ rw other (handled_once own m hs hub c (ground (arith, other, o)))
]

-- A replica with a relay.
abbrev pub on_relay : Broadcaster → Text → Handler → FanoutHub → Replica
on_relay b topic own hub = record { relay = some b; topic = topic; handler = own; hub = hub }

dispatch_once :
    (b : Broadcaster) (own : Handler) (m : BroadcastMessage) (hub : FanoutHub)
    → IsCoherent hub
    → is_once own (handlers_of b.handlers m.topic) ≡ true
    → handled own (dispatch b m) hub ≡ some (delivered m.tenant_id m.scope m.body hub)
unfolding dispatch
dispatch_once b own m hub c o = handled_once own m (handlers_of b.handlers m.topic) hub c o

publish_local :
    (a : Broadcaster) (topic tenant scope : Text) (body : Bytes) (answer : Option Text)
    → (Broadcast.publish answer topic tenant scope body a).0
      ≡ dispatch a (seen a a topic tenant scope body tenant scope)
unfolding shared_events.Broadcast.publish
publish_local a topic tenant scope body answer = ground arith

module _ (a b : Broadcaster) (topic tenant scope : Text) (body : Bytes) (answer : Option Text)
    (own_a own_b : Handler) (hub_a hub_b : FanoutHub) where
  -- Publish on one replica reaches the clients of all, each once: the publishing replica delivers to
  -- its own clients and hands the message to the connection, it drops its own copy when that comes
  -- back, and another replica that receives it delivers it to its clients; each as a delivery on
  -- the one hub that the clients would share if there were one replica. For coherent hubs whose
  -- handler is registered once with a broadcaster of the namespace, replicas of different origins,
  -- and a tenant and a scope that have no special rune and are not a lone underscore.
  pub publish_reaches_all :
      HasToken a
      → a.connected ≡ true
      → b.origin ≢ a.origin
      → is_clean tenant ≡ true
      → is_clean scope ≡ true
      → tenant ≢ empty_token
      → scope ≢ empty_token
      → IsCoherent hub_a
      → IsCoherent hub_b
      → is_once own_a (handlers_of a.handlers (subject_token topic)) ≡ true
      → is_once own_b (handlers_of b.handlers (subject_token topic)) ≡ true
      → let sent = relayed a (subject_token topic) tenant scope body in
        let hub = delivered tenant scope body hub_a in
        (publish answer tenant scope body (on_relay a topic own_a hub_a) ≡ (some hub, some sent))
        × (received sent (on_relay a topic own_a hub) ≡ some hub)
        × (received sent (on_relay b topic own_b hub_b) ≡ some (delivered tenant scope body hub_b))
  unfolding publish received handled
  publish_reaches_all t c n ct cs nt ns ka kb oa ob =
      let (local, out, remote) =
        publish_once_per_pod a b topic tenant scope body answer t c n ct cs nt ns in
      let same = seen a b topic tenant scope body tenant scope in
      (
        rw out (
            rw (publish_local a topic tenant scope body answer)
              (rw (dispatch_once a own_a same hub_a ka oa) refl)),
        rw (own_echo_dropped a a topic tenant scope body refl) refl,
        rw remote (dispatch_once b own_b same hub_b kb ob),
      )
