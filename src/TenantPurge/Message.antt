-- ===== src/TenantPurge/Message.antt =====
-- The tenant.purge event: its sender and its reading by a service.
use shared_events.Prelude.{
  Text-Eq, ℕ-Eq, Bool, List, Option, Result, Text, [], codes, contains, err, false, if◌then◌else◌,
  none, not, ok, some, true, ◌&&◌, ◌==◌, ◌∷◌,
}
use shared_events.Event.{
  Uuid, nil_uuid, Event, UuidCodec, Value, boolean, string, lookup, Time, new_event,
  with_tenant_slug,
}

abbrev pub purge_reason_dormancy : Text
purge_reason_dormancy = codes "dormancy"

abbrev pub purge_reason_registration_rejected : Text
purge_reason_registration_rejected = codes "registration_rejected"

abbrev pub purge_reason_tenant_deleted : Text
purge_reason_tenant_deleted = codes "tenant_deleted"

abbrev pub purge_reasons : List Text
purge_reasons =
    purge_reason_dormancy ∷ purge_reason_registration_rejected ∷ purge_reason_tenant_deleted ∷ []

abbrev pub is_tenant_purge_reason : Text → Bool
is_tenant_purge_reason reason = contains purge_reasons reason

-- `v.(string)` and `v.(bool)` with the failure ignored.
abbrev pub text_of : Value → Text
text_of (string s) = s
text_of _ = []

abbrev pub bool_of : Value → Bool
bool_of (boolean b) = b
bool_of _ = false

abbrev parsed_or : Uuid → Result Uuid → Uuid
parsed_or tenant_id (err e) = tenant_id
parsed_or tenant_id (ok id) = if id == nil_uuid then tenant_id else id

-- The tenant, the reason, and whether to act.
unfoldable pub confirmed_tenant_purge : UuidCodec → Option Event → (Uuid × Text) × Bool
confirmed_tenant_purge uuid none = ((nil_uuid, []), false)
confirmed_tenant_purge uuid (some evt) =
    let raw = text_of (lookup evt.payload (codes "tenant_id")) in
    let tenant_id = if raw == [] then evt.tenant_id else parsed_or evt.tenant_id (uuid.parse raw) in
    let confirmed = bool_of (lookup evt.payload (codes "confirmed")) in
    let reason = text_of (lookup evt.payload (codes "reason")) in
    ((tenant_id, reason), not (tenant_id == nil_uuid) && confirmed && is_tenant_purge_reason reason)

-- `stamp` is the time printed as RFC 3339.
unfoldable pub new_tenant_purge_event : UuidCodec → Uuid → Time → Text → Uuid → Text → Text → Event
new_tenant_purge_event uuid fresh now stamp tenant_id slug reason =
    let evt = new_event fresh now (codes "purge") (codes "tenant") tenant_id tenant_id (
      (codes "tenant_id", string (uuid.print tenant_id))
      ∷ (codes "tenant_slug", string slug)
      ∷ (codes "reason", string reason)
      ∷ (codes "confirmed", boolean true)
      ∷ (codes "confirmed_at", string stamp)
      ∷ (codes "scope", string (codes "all_services"))
      ∷ []) in
    if slug == [] then evt else with_tenant_slug evt slug
