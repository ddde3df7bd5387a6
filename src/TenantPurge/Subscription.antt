-- ===== src/TenantPurge/Subscription.antt =====
-- TenantPurger.Subscribe: the stream, then the goroutine of SubscribeQueueWithRebind.
use shared_events.Prelude.{
  Text-Eq, List, Option, Text, [], codes, if◌then◌else◌, none, some, ℤ, ◌++◌, ◌==◌,
}
use shared_events.Rebind.{Act, Ending, subscribe_queue_with_rebind}

abbrev pub tenant_stream : Text
tenant_stream = codes "tenant"

-- The error of AddStream; the code tells the stream's name in use from the others.
pub data AddError : Type 0 where
  in_use : AddError
  not_added : Text → AddError

-- The error of StreamInfo, that of AddStream, the delay of RebindSettle, and the answers to the
-- subscribe calls of the goroutine.
pub record Server : Type 0 where
  pub stream_info : Option Text
  pub add_stream : Option AddError
  pub settle : ℤ
  pub answers : List (Option Text)

abbrev add_error : Option AddError → Option Text
add_error none = none
add_error (some in_use) = none
add_error (some (not_added e)) = some (codes "tenant purge: ensure stream: " ++ e)

abbrev ensured : Server → Option Text → Option Text
ensured server none = none
ensured server (some e) = add_error server.add_stream

-- The goroutine that is started, if any: what it does and how it ends.
abbrev started : Text → Server → Option Text → Option Text × Option (List Act × Ending)
started durable server (some e) = (some e, none)
started durable server none =
    (none, some (subscribe_queue_with_rebind server.settle tenant_stream durable server.answers))

abbrev with_server : Text → Option Server → Option Text × Option (List Act × Ending)
with_server service none = (some (codes "tenant purge: no JetStream"), none)
with_server service (some server) =
    if service == []
    then (some (codes "tenant purge: Service is required for the durable name"), none)
    else started (service ++ codes "-tenant-purge") server (ensured server server.stream_info)

-- `none` is the nil JetStream.
unfoldable pub subscribe : Text → Option Server → Option Text × Option (List Act × Ending)
subscribe service js = with_server service js
