-- ===== src/Relevance/Decision.antt =====
-- What Relevant and Revoked say of one event.
use shared_events.Prelude.{
  ℕ-Eq, Text-Eq, [], arith, false, none, text_eq_iff, true, ℕ, ◌↔◌, ◌≡◌, ◌≢◌,
}
use shared_events.Event.{Uuid, Dict, UuidCodec}
use shared_events.Relevance.{UserRelevance, payload_services, relevant, revoked}

module _ (lower_wide : ℕ → ℕ) (uuid : UuidCodec) (r : UserRelevance) (tenant_id : Uuid) where
  revoked→ :
      (payload : Dict)
      → revoked r payload ≡ true
      → (r.service ≢ [])
        × (payload_services payload ≢ none)
        × (relevant lower_wide uuid r tenant_id payload ≡ false)
  unfolding revoked relevant
  revoked→ payload h = ground (arith, text_eq_iff r.service [])

  revoked← :
      (payload : Dict)
      → r.service ≢ []
      → payload_services payload ≢ none
      → relevant lower_wide uuid r tenant_id payload ≡ false
      → revoked r payload ≡ true
  unfolding revoked relevant
  revoked← payload s k h = ground (arith, text_eq_iff r.service [])

  -- Revoked is true exactly when the service is named, the event carries the services list, and
  -- Relevant is false; so no event is both, and an event without the list revokes nobody.
  pub revoked_iff :
      (payload : Dict)
      → (revoked r payload ≡ true) ↔ (
          (r.service ≢ [])
          × (payload_services payload ≢ none)
          × (relevant lower_wide uuid r tenant_id payload ≡ false))
  revoked_iff payload = (revoked→ payload, λ h. revoked← payload h.0 h.1 h.2)
