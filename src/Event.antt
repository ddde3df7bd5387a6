-- ===== src/Event.antt =====
-- event.go: the event, its builders, its subject and its JSON form. A UUID is its 16 bytes read as
-- one number, so `uuid.Nil` is 0; printing and parsing one are google/uuid's, the fields of
-- `UuidCodec`. encoding/json works on the Go types by reflection, the fields of `JsonCodec`. A time
-- is its count of nanoseconds.
pub mod Headers
pub mod ReadBack
use shared_events.Prelude.{
  Text-Eq, Bool, Bytes, List, Option, Result, Text, [], codes, err, if◌then◌else◌, none, ok, some,
  ℕ, ◌++◌, ◌==◌, ◌∷◌,
}

abbrev pub Uuid : Type 0
Uuid = ℕ

abbrev pub nil_uuid : Uuid
nil_uuid = 0

abbrev pub Time : Type 0
Time = ℕ

-- The values of a `map[string]interface{}`. A number is the bit pattern of its float64; a
-- `[]string` set by Go code is another type than the `[]interface{}` that decoding gives.
mutual
  pub data Value : Type 0 where
    null : Value
    boolean : Bool → Value
    number : ℕ → Value
    string : Text → Value
    string_list : List Text → Value
    any_list : Values → Value
    object : Entries → Value

  pub data Values : Type 0 where
    nil : Values
    cons : Value → Values → Values

  pub data Entries : Type 0 where
    end : Entries
    entry : Text → Value → Entries → Entries

-- A Go map with text keys.
abbrev pub Dict : Type 0
Dict = List (Text × Value)

-- Indexing a map: a missing key reads as the nil interface.
unfoldable pub lookup : Dict → Text → Value
lookup [] key = null
lookup ((k, v) ∷ rest) key = if k == key then v else lookup rest key

-- `m[key] = value`.
pub insert : Dict → Text → Value → Dict
insert [] key value = (key, value) ∷ []
insert ((k, v) ∷ rest) key value =
    if k == key then (k, value) ∷ rest else (k, v) ∷ insert rest key value

pub record Event : Type 0 where
  pub id : Uuid
  pub event_type : Text
  pub aggregate_type : Text
  pub aggregate_id : Uuid
  pub tenant_id : Uuid
  pub tenant_slug : Text
  pub payload : Dict
  -- `none` is the nil map.
  pub metadata : Option Dict
  pub timestamp : Time
  pub version : Text

pub record UuidCodec : Type 0 where
  pub print : Uuid → Text
  pub parse : Text → Result Uuid

-- `json.Marshal` and `json.Unmarshal` at the type `Event`: the second gives the value that it leaves,
-- also after an error, and the error.
pub record JsonCodec : Type 0 where
  pub marshal : Event → Result Bytes
  pub unmarshal : Bytes → Event × Option Text

unfoldable pub to_json : JsonCodec → Event → Result Bytes
to_json json e = json.marshal e

abbrev read_event : Event × Option Text → Result Event
read_event (e, none) = ok e
read_event (e, some m) = err m

unfoldable pub from_json : JsonCodec → Bytes → Result Event
from_json json body = read_event (json.unmarshal body)

-- `fresh` is what `uuid.New` returns, and `now` what `time.Now` does.
unfoldable pub new_event : Uuid → Time → Text → Text → Uuid → Uuid → Dict → Event
new_event fresh now event_type aggregate_type aggregate_id tenant_id payload = record {
  id = fresh;
  event_type = event_type;
  aggregate_type = aggregate_type;
  aggregate_id = aggregate_id;
  tenant_id = tenant_id;
  tenant_slug = [];
  payload = payload;
  metadata = some [];
  timestamp = now;
  version = codes "1.0";
}

unfoldable pub subject : Event → Text
subject e = e.aggregate_type ++ codes "." ++ e.event_type

unfoldable pub with_tenant_slug : Event → Text → Event
with_tenant_slug e slug = record e { tenant_slug = slug }

abbrev or_empty : Option Dict → Dict
or_empty none = []
or_empty (some m) = m

unfoldable pub with_metadata : Event → Text → Value → Event
unfolding insert
with_metadata e key value = record e { metadata = some (insert (or_empty e.metadata) key value) }

unfoldable pub with_version : Event → Text → Event
with_version e version = record e { version = version }
