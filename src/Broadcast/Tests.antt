-- ===== src/Broadcast/Tests.antt =====
-- Two pods of one service, and the theorems at concrete messages.
use shared_events.Prelude.{
  ℕ-Eq, Text-Eq, Text, [], codes, none, refl, some, text_ne, true, ◌++◌, ◌↔◌, ◌∷◌, ◌≡◌, ◌≢◌,
}
use shared_events.Event.Headers.{get, set}
use shared_events.Broadcast.{
  Broadcaster, empty_token, subject_token, to_token, from_token, handlers_of, set_handlers,
  new_broadcaster, subscribe, dispatch, on_message, relayed, publish, split_dots,
}
use shared_events.Broadcast.Tokens.{is_clean, from_token-to_token}
use shared_events.Broadcast.Relay.{HasToken, seen, publish_once_per_pod}

abbrev pod : Text → Broadcaster
unfolding new_broadcaster subject_token subscribe handlers_of set_handlers
pod origin =
    (subscribe none (codes "notif") 2
      (subscribe none (codes "notif") 1 (new_broadcaster true (codes "pos") origin)).1).1

-- One subscription serves both handlers, and the remote pod sees the scope with its dot replaced.
mangled_scope :
    on_message
      (pod (codes "b"))
      (codes "notif")
      (relayed (pod (codes "a")) (codes "notif") (codes "t1") (codes "user.x") (codes "d"))
    ≡ (1, seen (pod []) (pod []) (codes "notif") [] [] (codes "d") (codes "t1") (codes "user_x"))
      ∷ (2, seen (pod []) (pod []) (codes "notif") [] [] (codes "d") (codes "t1") (codes "user_x"))
      ∷ []
unfolding pod on_message relayed get set split_dots from_token to_token dispatch
mangled_scope = refl

from_token-to_token_example :
    (from_token (to_token (codes "user:42")) ≡ codes "user:42")
    ↔ ((is_clean (codes "user:42") ≡ true) × (codes "user:42" ≢ empty_token))
from_token-to_token_example = from_token-to_token (codes "user:42")

HasToken-pod : HasToken (pod (codes "a"))
unfolding pod
HasToken-pod = refl

publish_once_per_pod_example :
    let a = pod (codes "a") in
    let b = pod (codes "b") in
    let sent =
      relayed a (subject_token (codes "notif")) (codes "t1") (codes "user:42") (codes "d") in
    let same =
      seen a b
        (codes "notif")
        (codes "t1")
        (codes "user:42")
        (codes "d")
        (codes "t1")
        (codes "user:42") in
    ((publish none (codes "notif") (codes "t1") (codes "user:42") (codes "d") a).0
        ++ on_message a (subject_token (codes "notif")) sent
      ≡ dispatch a same)
    × ((publish none (codes "notif") (codes "t1") (codes "user:42") (codes "d") a).1 ≡ some sent)
    × (on_message b (subject_token (codes "notif")) sent ≡ dispatch b same)
unfolding pod
publish_once_per_pod_example =
    publish_once_per_pod (pod (codes "a")) (pod (codes "b")) (codes "notif") (codes "t1")
      (codes "user:42") (codes "d") none HasToken-pod refl (text_ne _ _ refl) refl refl
      (text_ne _ _ refl) (text_ne _ _ refl)
