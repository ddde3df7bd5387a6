-- ===== src/TenantPurge/EndToEnd.antt =====
-- From the event that a sender builds to the rows of a service's database.
use shared_events.Prelude.{ℕ-Eq, Text-Eq}
use shared_events.Event.{Event}
