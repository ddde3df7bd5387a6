-- ===== src/Replica/Tests.antt =====
-- Two replicas of one service with one hub each, and the theorem at them.
use shared_events.Prelude.{
  ℕ-Eq, Text-Eq, Text, [], codes, none, pos, refl, some, text_ne, true, ◌∷◌, ◌≡◌,
}
use shared_events.Broadcast
use shared_events.Broadcast.{
  Broadcaster, subject_token, relayed, new_broadcaster, handlers_of, set_handlers,
}
use shared_events.Broadcast.Relay.{HasToken}
use shared_events.Fanout
use shared_events.Fanout.{FanoutHub, new_fanout_hub}
use shared_events.Fanout.Coherent.{IsCoherent, new_fanout_hub-IsCoherent, subscribe-IsCoherent}
use shared_events.Fanout.Delivery.{delivered}
use shared_events.Replica.{new_replica, publish, received}
use shared_events.Replica.Delivery.{on_relay, publish_reaches_all}

abbrev bus : Text → Broadcaster
bus origin =
    (Broadcast.subscribe none (codes "notif") 7 (new_broadcaster true (codes "pos") origin)).1

abbrev hub : FanoutHub
hub = Fanout.subscribe (codes "t1") (codes "user:42" ∷ []) (new_fanout_hub (pos 4))

hub-IsCoherent : IsCoherent hub
hub-IsCoherent = subscribe-IsCoherent _ _ _ (new_fanout_hub-IsCoherent (pos 4))

-- NewFanoutHub registers the handler that the theorem asks for.
made :
    new_replica none
      (some (new_broadcaster true (codes "pos") (codes "a")))
      (codes "notif")
      7
      (pos 4)
    ≡ (none, on_relay (bus (codes "a")) (codes "notif") 7 (new_fanout_hub (pos 4)))
unfolding new_replica shared_events.Broadcast.subscribe new_broadcaster subject_token handlers_of
    set_handlers
made = refl

bus-HasToken : HasToken (bus (codes "a"))
unfolding shared_events.Broadcast.subscribe new_broadcaster subject_token handlers_of set_handlers
bus-HasToken = refl

publish_reaches_all_example :
    let sent =
      relayed
        (bus (codes "a"))
        (subject_token (codes "notif"))
        (codes "t1")
        (codes "user:42")
        (codes "d") in
    let after = delivered (codes "t1") (codes "user:42") (codes "d") hub in
    (publish none
        (codes "t1")
        (codes "user:42")
        (codes "d")
        (on_relay (bus (codes "a")) (codes "notif") 7 hub)
      ≡ (some after, some sent))
    × (received sent (on_relay (bus (codes "a")) (codes "notif") 7 after) ≡ some after)
    × (received sent (on_relay (bus (codes "b")) (codes "notif") 7 hub) ≡ some after)
unfolding shared_events.Broadcast.subscribe new_broadcaster subject_token handlers_of set_handlers
publish_reaches_all_example =
    publish_reaches_all (bus (codes "a")) (bus (codes "b")) (codes "notif") (codes "t1")
      (codes "user:42") (codes "d") none 7 7 hub hub bus-HasToken refl (text_ne _ _ refl) refl refl
      (text_ne _ _ refl) (text_ne _ _ refl) hub-IsCoherent hub-IsCoherent refl refl
