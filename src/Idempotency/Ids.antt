-- ===== src/Idempotency/Ids.antt =====
-- EventIDFromMsg: the id that the store is asked about.
use shared_events.Prelude.{
  Text-Eq, Bytes, Result, Text, [], codes, err, false, if◌then◌else◌, not, ok, refl, ◌==◌, ◌≡◌,
}
use shared_events.Event.{Uuid, Event, UuidCodec}
use shared_events.Event.Headers.{NatsMsg, get, set, event_headers}
use shared_events.Publisher.{message}

abbrev pub no_event_id : Text
no_event_id = codes "events: message has no event id"

-- `decode` is json.Unmarshal into the fields "id" and "event_id".
module _ (uuid : UuidCodec) (decode : Bytes → Result (Text × Text)) where
  abbrev from_body : Result (Text × Text) → Result Uuid
  from_body (err e) = err no_event_id
  from_body (ok (id, event_id)) =
      if not (id == [])
      then uuid.parse id
      else if not (event_id == [])
      then uuid.parse event_id
      else err no_event_id

  unfoldable pub event_id_from_msg : NatsMsg → Result Uuid
  event_id_from_msg msg =
      let v = get msg.header (codes "event-id") in
      if not (v == []) then uuid.parse v else from_body (decode msg.body)

get_event_id :
    (uuid : UuidCodec) (e : Event) (body : Bytes)
    → get (message uuid e body).header (codes "event-id") ≡ uuid.print e.id
unfolding message event_headers get set
get_event_id uuid e body = refl

-- The id of a message that the publisher sent is its event's, whatever its body: for a UUID package
-- that reads back what it prints and prints no empty text.
pub event_id_from_msg-message :
    (uuid : UuidCodec) (decode : Bytes → Result (Text × Text)) (e : Event) (body : Bytes)
    → ((u : Uuid) → uuid.parse (uuid.print u) ≡ ok u)
    → ((u : Uuid) → (uuid.print u == []) ≡ false)
    → event_id_from_msg uuid decode (message uuid e body) ≡ ok e.id
unfolding event_id_from_msg
event_id_from_msg-message uuid decode e body back full =
    rw (get_event_id uuid e body) (rw (full e.id) (back e.id))
