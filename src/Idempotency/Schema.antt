-- ===== src/Idempotency/Schema.antt =====
-- EnsureSchema: the table processed_events of a database, `none` before there is one.
use shared_events.Prelude.{Option, Text, [], arith, codes, none, some, ◌++◌, ◌≡◌}
use shared_events.Outbox.Repository.{ExecReply, refused, lost}
use shared_events.Idempotency.{Claims}

-- CREATE TABLE IF NOT EXISTS, and its index.
abbrev created : Option Claims → Option Claims
created none = some []
created (some t) = some t

unfoldable ensure_schema : ExecReply → Option Claims → Option Text × Option Claims
ensure_schema (refused e) d = (some (codes "ensure processed_events schema: " ++ e), d)
ensure_schema (lost e) d = (some (codes "ensure processed_events schema: " ++ e), created d)
ensure_schema _ d = (none, created d)

-- The start of another replica takes no claim away.
rows_stay : (reply : ExecReply) (t : Claims) → (ensure_schema reply (some t)).1 ≡ some t
unfolding ensure_schema
rows_stay reply t = ground arith
