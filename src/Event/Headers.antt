-- ===== src/Event/Headers.antt =====
-- headers.go: the headers of every JetStream publish. `nats.Header.Set` is nats.go's: it replaces
-- the values of a key, which is case-sensitive.
use shared_events.Prelude.{Text-Eq, Bytes, List, Text, [], codes, if◌then◌else◌, ◌==◌, ◌∷◌}
use shared_events.Event.{Event, UuidCodec}

abbrev pub Header : Type 0
Header = List (Text × Text)

unfoldable pub set : Header → Text → Text → Header
set [] key value = (key, value) ∷ []
set ((k, v) ∷ rest) key value = if k == key then (k, value) ∷ rest else (k, v) ∷ set rest key value

-- The first value of the key, and the empty text for a missing key.
unfoldable pub get : Header → Text → Text
get [] key = []
get ((k, v) ∷ rest) key = if k == key then v else get rest key

-- `nats.MsgIdHdr`.
abbrev pub msg_id_hdr : Text
msg_id_hdr = codes "Nats-Msg-Id"

unfoldable pub event_headers : UuidCodec → Event → Header
unfolding set
event_headers uuid e =
    let h1 = set [] msg_id_hdr (uuid.print e.id) in
    let h2 = set h1 (codes "event-id") (uuid.print e.id) in
    let h3 = set h2 (codes "event-type") e.event_type in
    let h4 = set h3 (codes "aggregate-type") e.aggregate_type in
    let h5 = set h4 (codes "aggregate-id") (uuid.print e.aggregate_id) in
    let h6 = set h5 (codes "tenant-id") (uuid.print e.tenant_id) in
    set h6 (codes "event-version") e.version

-- `nats.Msg`: its subject, its headers and its data.
pub record NatsMsg : Type 0 where
  pub subject : Text
  pub header : Header
  pub body : Bytes
