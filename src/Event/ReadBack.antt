-- ===== src/Event/ReadBack.antt =====
-- What encoding/json keeps of an event that it writes and reads back. `omitempty` drops an empty map
-- of metadata, which comes back as the nil map, and a value of the payload may come back at another
-- Go type; the other fields come back as they were.
use shared_events.Prelude.{Bytes, ok, ◌≡◌}
use shared_events.Event.{Event, JsonCodec, to_json, from_json}

-- The JSON is read as an event that has the fields of the first one and can be written again.
pub record ReadsBack (json : JsonCodec) (e : Event) (body : Bytes) : Type 0 where
  pub event : Event
  pub decoded : from_json json body ≡ ok event
  pub again : Bytes
  pub encoded : to_json json event ≡ ok again
  pub id : event.id ≡ e.id
  pub event_type : event.event_type ≡ e.event_type
  pub aggregate_type : event.aggregate_type ≡ e.aggregate_type
  pub aggregate_id : event.aggregate_id ≡ e.aggregate_id
  pub tenant_id : event.tenant_id ≡ e.tenant_id
  pub version : event.version ≡ e.version
