-- ===== src/Decode/Payload.antt =====
-- Where the typed payload comes from.
use shared_events.Prelude.{
  ℕ-Eq, Text-Eq, Bool-cases, Bytes, Option, Text, [], ap, arith, codes, if◌then◌else◌, inl, inr,
  none, refl, some, sym, ◌++◌, ◌==◌, ◌∙◌, ◌≡◌,
}
use shared_events.Decode.{Envelope, Unmarshal, wrapped, with_envelope, decode_event}

module _ {T : Type 0} (json : Unmarshal T) (zero_value : T) where
  -- The value and the error that the raw payload alone gives.
  abbrev value_of : Bytes → T
  value_of raw = if raw == [] then zero_value else (json.payload raw).0

  abbrev explained : Option Text → Option Text
  explained none = none
  explained (some e) = some (codes "decode event payload: " ++ e)

  abbrev error_of : Bytes → Option Text
  error_of raw = if raw == [] then none else explained (json.payload raw).1

  wrapped-explained :
      (env : Envelope) (r : T × Option Text)
      → ((wrapped json zero_value env r).1 ≡ r.0)
        × ((wrapped json zero_value env r).2 ≡ explained r.1)
  wrapped-explained env (v, none) = (refl, refl)
  wrapped-explained env (v, some e) = (refl, refl)

  with_envelope-value_of :
      (x : Envelope × Option Text)
      → x.1 ≡ none
      → ((with_envelope json zero_value x).1 ≡ value_of x.0.payload)
        × ((with_envelope json zero_value x).2 ≡ error_of x.0.payload)
  with_envelope-value_of (env, some e) h = ground arith
  with_envelope-value_of (env, none) h = elim (Bool-cases (env.payload == [])) [
    | inl empty ↦ rw empty (refl, refl)
    | inr full ↦ rw full (wrapped-explained env (json.payload env.payload))
  ]

-- The typed payload is what the "payload" member alone says: two messages whose envelopes can be read
-- and hold the same raw payload give the same value and the same error, whatever else stands in
-- them, at the top level or under another key.
pub decode_event_payload_only :
    {T : Type 0} (json : Unmarshal T) (zero_value : T) (msg other : Bytes)
    → (json.envelope msg).1 ≡ none
    → (json.envelope other).1 ≡ none
    → (json.envelope msg).0.payload ≡ (json.envelope other).0.payload
    → ((decode_event json zero_value msg).1 ≡ (decode_event json zero_value other).1)
      × ((decode_event json zero_value msg).2 ≡ (decode_event json zero_value other).2)
unfolding decode_event
decode_event_payload_only json zero_value msg other a b p =
    let (v, e) = with_envelope-value_of json zero_value (json.envelope msg) a in
    let (w, f) = with_envelope-value_of json zero_value (json.envelope other) b in
    (v ∙ ap (value_of json zero_value) p ∙ sym w, e ∙ ap (error_of json zero_value) p ∙ sym f)
