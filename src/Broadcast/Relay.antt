-- ===== src/Broadcast/Relay.antt =====
-- A published message is handled once by each pod.
use shared_events.Prelude.{
  ℕ-Eq, Text-Eq, Bool, Bytes, Option, Text, [], ap, arith, false, refl, some, text_eq_iff, true,
  ◌++◌, ◌==◌, ◌∙◌, ◌∷◌, ◌≡◌, ◌≢◌,
}
use mathlib.Core.List.{append-nil}
use shared_events.Event.Headers.{NatsMsg, get, set}
use shared_events.Broadcast.{
  BroadcastMessage, Broadcaster, broadcast_prefix, broadcast_origin_hdr, empty_token, subject_token,
  to_token, from_token, split_dots, new_broadcaster, dispatch, dots, on_message, relayed, publish,
}
use shared_events.Broadcast.Tokens.{
  is_clean, no_dot, no_dot-subject_token, no_dot-to_token, split_dots-last, split_dots-append,
  token←,
}

-- A namespace is a token, as the constructor makes it.
abbrev pub HasToken : Broadcaster → Type 0
HasToken b = no_dot b.namespace ≡ true

pub new_broadcaster-HasToken :
    (connected : Bool) (namespace origin : Text)
    → HasToken (new_broadcaster connected namespace origin)
unfolding new_broadcaster
new_broadcaster-HasToken connected namespace origin = no_dot-subject_token namespace

-- The subject of a relayed message splits into its five tokens.
split_relayed :
    (namespace topic tenant_id scope : Text)
    → no_dot namespace ≡ true
    → split_dots (
        dots (
          broadcast_prefix
          ∷ namespace
          ∷ subject_token topic
          ∷ to_token tenant_id
          ∷ to_token scope
          ∷ []))
      ≡ broadcast_prefix
        ∷ namespace
        ∷ subject_token topic
        ∷ to_token tenant_id
        ∷ to_token scope
        ∷ []
split_relayed namespace topic tenant_id scope h =
    split_dots-append broadcast_prefix _ refl
    ∙ ap (λ l. broadcast_prefix ∷ l)
        (split_dots-append namespace _ h
          ∙ ap (λ l. namespace ∷ l)
              (split_dots-append (subject_token topic) _ (no_dot-subject_token topic)
                ∙ ap (λ l. subject_token topic ∷ l)
                    (split_dots-append (to_token tenant_id) _ (no_dot-to_token tenant_id)
                      ∙ ap (λ l. to_token tenant_id ∷ l)
                          (split_dots-last (to_token scope) (no_dot-to_token scope)))))

get_origin :
    (b : Broadcaster) (topic tenant_id scope : Text) (body : Bytes)
    → get (relayed b topic tenant_id scope body).header broadcast_origin_hdr ≡ b.origin
unfolding relayed get set
get_origin b topic tenant_id scope body = refl

module _ (a b : Broadcaster) (topic tenant_id scope : Text) (body : Bytes) where
  abbrev msg : NatsMsg
  msg = relayed a (subject_token topic) tenant_id scope body

  -- What a handler of the topic on some pod sees.
  abbrev pub seen : Text → Text → BroadcastMessage
  seen tenant sub_audience = record {
    topic = subject_token topic;
    tenant_id = tenant;
    scope = sub_audience;
    body = body;
  }

  -- A pod drops a relayed message that carries its own origin.
  pub own_echo_dropped : b.origin ≡ a.origin → on_message b (subject_token topic) msg ≡ []
  unfolding on_message
  own_echo_dropped h = ground (
    arith,
    get_origin a (subject_token topic) tenant_id scope body,
    text_eq_iff a.origin b.origin,
    text_eq_iff (get msg.header broadcast_origin_hdr) b.origin,
  )

  foreign_origin : b.origin ≢ a.origin → (get msg.header broadcast_origin_hdr == b.origin) ≡ false
  foreign_origin n =
      rw (get_origin a (subject_token topic) tenant_id scope body)
        (ground (arith, text_eq_iff a.origin b.origin))

  relayed_tokens :
      HasToken a
      → split_dots msg.subject
        ≡ broadcast_prefix
          ∷ a.namespace
          ∷ subject_token topic
          ∷ to_token tenant_id
          ∷ to_token scope
          ∷ []
  unfolding relayed
  relayed_tokens h = split_relayed a.namespace topic tenant_id scope h

  relayed_body : msg.body ≡ body
  unfolding relayed
  relayed_body = refl

  foreign_dispatched :
      HasToken a
      → b.origin ≢ a.origin
      → on_message b (subject_token topic) msg
        ≡ dispatch b (seen (from_token (to_token tenant_id)) (from_token (to_token scope)))
  unfolding on_message
  foreign_dispatched h n = rw (foreign_origin n) (rw (relayed_tokens h) (rw relayed_body))

module _ (a b : Broadcaster) (topic tenant_id scope : Text) (body : Bytes)
    (answer : Option Text) where
  -- A publish reaches each pod once, with the same message: a connected pod calls its handlers once
  -- (its own copy, when it comes back, is dropped) and hands the message to the connection, and a
  -- pod with another origin that receives it calls its handlers of the topic as a local publish
  -- would, if the tenant and the scope have no special rune and are not a lone underscore.
  pub publish_once_per_pod :
      HasToken a
      → a.connected ≡ true
      → b.origin ≢ a.origin
      → is_clean tenant_id ≡ true
      → is_clean scope ≡ true
      → tenant_id ≢ empty_token
      → scope ≢ empty_token
      → let sent = relayed a (subject_token topic) tenant_id scope body in
        let same = seen a b topic tenant_id scope body tenant_id scope in
        ((publish answer topic tenant_id scope body a).0 ++ on_message a (subject_token topic) sent
          ≡ dispatch a same)
        × ((publish answer topic tenant_id scope body a).1 ≡ some sent)
        × (on_message b (subject_token topic) sent ≡ dispatch b same)
  unfolding publish
  publish_once_per_pod h c n ct cs nt ns =
      let same = seen a b topic tenant_id scope body tenant_id scope in
      (
        rw (own_echo_dropped a a topic tenant_id scope body refl, append-nil) (ground arith),
        ground arith,
        foreign_dispatched a b topic tenant_id scope body h n
            ∙ cc (token← tenant_id ct nt, token← scope cs ns),
      )
