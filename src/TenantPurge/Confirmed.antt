-- ===== src/TenantPurge/Confirmed.antt =====
-- The event that a sender builds, as a service reads it.
use shared_events.Prelude.{
  ℕ-Eq, Text-Eq, Text, [], arith, codes, false, not, ok, refl, some, ◌&&◌, ◌==◌, ◌≡◌,
}
use shared_events.Event.{
  Event, Uuid, nil_uuid, UuidCodec, Time, lookup, new_event, with_tenant_slug,
}
use shared_events.TenantPurge.Message.{
  confirmed_tenant_purge, new_tenant_purge_event, is_tenant_purge_reason,
}

-- The event as encoding/json reads it back: its tenant and the values of its payload are those that
-- were written. Nothing is said of its metadata, which come back as the nil map if they are empty.
pub record IsRead (evt sent : Event) : Type 0 where
  pub tenant_id : evt.tenant_id ≡ sent.tenant_id
  pub value : (key : Text) → lookup evt.payload key ≡ lookup sent.payload key

pub confirmed-IsRead :
    (uuid : UuidCodec) (evt sent : Event)
    → IsRead evt sent
    → confirmed_tenant_purge uuid (some evt) ≡ confirmed_tenant_purge uuid (some sent)
unfolding confirmed_tenant_purge
confirmed-IsRead uuid evt sent x = rw x.tenant_id (
    rw (x.value (codes "tenant_id"))
      (rw (x.value (codes "confirmed")) (rw (x.value (codes "reason")) refl)))

-- A service that receives the event of NewTenantPurgeEvent reads the tenant and the reason that the
-- sender gave, and acts on it exactly if the tenant is not the nil UUID and the reason is one of
-- the three; for a UUID package that reads back what it prints and prints no empty text.
pub confirmed-new_tenant_purge_event :
    (uuid : UuidCodec) (fresh : Uuid) (now : Time) (stamp : Text) (tenant_id : Uuid)
    (slug reason : Text)
    → ((u : Uuid) → uuid.parse (uuid.print u) ≡ ok u)
    → ((u : Uuid) → (uuid.print u == []) ≡ false)
    → confirmed_tenant_purge uuid
        (some (new_tenant_purge_event uuid fresh now stamp tenant_id slug reason))
      ≡ ((tenant_id, reason), not (tenant_id == nil_uuid) && is_tenant_purge_reason reason)
unfolding confirmed_tenant_purge new_tenant_purge_event new_event with_tenant_slug lookup
confirmed-new_tenant_purge_event uuid fresh now stamp tenant_id slug reason back full =
    ground (arith, back tenant_id, full tenant_id)
