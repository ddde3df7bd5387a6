-- ===== src/Decode/Tests.antt =====
-- A payload that is one number, in two envelopes.
use shared_events.Prelude.{ℕ-Eq, Text-Eq, Bytes, [], codes, none, refl, ℕ, ◌∷◌, ◌≡◌}
use shared_events.Decode.{Envelope, Unmarshal, decode_event}
use shared_events.Decode.Payload.{decode_event_payload_only}

-- The last rune of the message is its raw payload, the first one its id.
abbrev last : Bytes → Bytes
last [] = []
last (c ∷ []) = c ∷ []
last (c ∷ d ∷ s) = last (d ∷ s)

abbrev first : Bytes → ℕ
first [] = 0
first (c ∷ s) = c

abbrev envelope_of : Bytes → Envelope
envelope_of msg = record {
  id = first msg;
  event_type = codes "created";
  aggregate_type = codes "order";
  aggregate_id = 0;
  tenant_id = 0;
  tenant_slug = [];
  payload = last msg;
  metadata = none;
  timestamp = 0;
  version = [];
}

abbrev json : Unmarshal ℕ
json = record { envelope = λ msg. (envelope_of msg, none); payload = λ raw. (first raw, none) }

decode_event_payload_only_example :
    ((decode_event json 0 (1 ∷ 7 ∷ [])).1 ≡ (decode_event json 0 (2 ∷ 3 ∷ 7 ∷ [])).1)
    × ((decode_event json 0 (1 ∷ 7 ∷ [])).2 ≡ (decode_event json 0 (2 ∷ 3 ∷ 7 ∷ [])).2)
decode_event_payload_only_example =
    decode_event_payload_only json 0 (1 ∷ 7 ∷ []) (2 ∷ 3 ∷ 7 ∷ []) refl refl refl

seven : (decode_event json 0 (2 ∷ 3 ∷ 7 ∷ [])).1 ≡ 7
unfolding decode_event
seven = refl
