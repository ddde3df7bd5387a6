-- ===== src/Decode.antt =====
-- decode.go: DecodeEvent. The type of the payload is a parameter with its zero value. encoding/json
-- works on the Go types by reflection: what `json.Unmarshal` gives of the two values is a codec.
pub mod Payload
mod Tests
use shared_events.Prelude.{
  Text-Eq, Bytes, Option, Text, [], codes, if◌then◌else◌, none, some, ◌++◌, ◌==◌,
}
use shared_events.Event.{Uuid, Time, Dict}

-- The payload is left raw; `none` is the nil map.
pub record Envelope : Type 0 where
  pub id : Uuid
  pub event_type : Text
  pub aggregate_type : Text
  pub aggregate_id : Uuid
  pub tenant_id : Uuid
  pub tenant_slug : Text
  pub payload : Bytes
  pub metadata : Option Dict
  pub timestamp : Time
  pub version : Text

-- `json.Unmarshal` into a zero value: the value that it leaves, also after an error, and the error.
pub record Unmarshal (T : Type 0) : Type 0 where
  pub envelope : Bytes → Envelope × Option Text
  pub payload : Bytes → T × Option Text

module _ {T : Type 0} (json : Unmarshal T) (zero_value : T) where
  abbrev pub wrapped : Envelope → T × Option Text → Envelope × T × Option Text
  wrapped env (p, none) = (env, p, none)
  wrapped env (p, some e) = (env, p, some (codes "decode event payload: " ++ e))

  abbrev pub with_envelope : Envelope × Option Text → Envelope × T × Option Text
  with_envelope (env, some e) = (env, zero_value, some (codes "decode event envelope: " ++ e))
  with_envelope (env, none) =
      if env.payload == [] then (env, zero_value, none) else wrapped env (json.payload env.payload)

  unfoldable pub decode_event : Bytes → Envelope × T × Option Text
  decode_event msg = with_envelope (json.envelope msg)
