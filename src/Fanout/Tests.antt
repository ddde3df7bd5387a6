-- ===== src/Fanout/Tests.antt =====
-- A hub with two clients of one tenant and one of another, and the theorems at it.
use shared_events.Prelude.{
  ℕ-Eq, List, Text, [], arith, codes, contains, length, map, pos, refl, some, ℕ, ◌∷◌, ◌≡◌,
}
use shared_events.Fanout.{
  offer_all, add_id, ids_at, count, FanoutHub, wants, push, new_fanout_hub, subscribe, deliver,
}
use shared_events.Fanout.Coherent.{
  open_ids, IsCoherent, new_fanout_hub-IsCoherent, subscribe-IsCoherent,
}
use shared_events.Fanout.Sessions.{
  Call, to_subscribe, to_unsubscribe, to_deliver, to_receive, session, session_safe,
}
use shared_events.Fanout.Delivery.{delivered, deliver_exact}
use shared_events.Fanout.Orders.{deliver_any_order}

abbrev hub : FanoutHub
hub =
    subscribe (codes "t1") (codes "orders" ∷ [])
      (subscribe (codes "t2") [] (subscribe (codes "t1") (codes "*" ∷ []) (new_fanout_hub (pos 1))))

hub-IsCoherent : IsCoherent hub
hub-IsCoherent =
    subscribe-IsCoherent _ _ _
      (subscribe-IsCoherent _ _ _ (subscribe-IsCoherent _ _ _ (new_fanout_hub-IsCoherent (pos 1))))

-- The wildcard client gets the message, the one of the other tenant does not.
buffers :
    map (λ s. length s.chan) (delivered (codes "t1") (codes "stock") (codes "d") hub).clients
    ≡ 0 ∷ 0 ∷ 1 ∷ []
unfolding subscribe new_fanout_hub wants push
buffers = refl

-- Two clients of one tenant, of which one leaves twice.
abbrev calls : List Call
calls =
    to_subscribe (codes "t1") []
    ∷ to_subscribe (codes "t1") (codes "orders" ∷ [])
    ∷ to_deliver (codes "t1") (codes "orders") (codes "d")
    ∷ to_receive 1 (codes "t1")
    ∷ to_unsubscribe 1 (codes "t1")
    ∷ to_deliver (codes "t1") [] (codes "e")
    ∷ to_unsubscribe 1 (codes "t1")
    ∷ []

session_safe_example :
    (h : FanoutHub) × (session calls (new_fanout_hub (pos 1)) ≡ some h)
    × IsCoherent h
    × ((tenant : Text) → count tenant h ≡ length (open_ids tenant h.clients))
session_safe_example = session_safe (pos 1) calls

deliver_exact_example :
    (deliver (codes "t1") (codes "stock") (codes "d") hub
      ≡ some (delivered (codes "t1") (codes "stock") (codes "d") hub))
    × IsCoherent (delivered (codes "t1") (codes "stock") (codes "d") hub)
deliver_exact_example = deliver_exact (codes "t1") (codes "stock") (codes "d") hub hub-IsCoherent

-- The tenant's Subs are 2 and 0 in the registry.
other_order : (id : ℕ) → contains (0 ∷ 2 ∷ []) id ≡ contains (2 ∷ 0 ∷ []) id
other_order id = ground arith

deliver_any_order_example :
    offer_all hub.buf (codes "t1") (codes "stock") (codes "d") (0 ∷ 2 ∷ []) hub.clients
    ≡ some (delivered (codes "t1") (codes "stock") (codes "d") hub).clients
unfolding subscribe new_fanout_hub add_id ids_at
deliver_any_order_example =
    deliver_any_order (codes "t1") (codes "stock") (codes "d") hub (0 ∷ 2 ∷ []) hub-IsCoherent refl
      other_order
