-- ===== src/Publisher/Tests.antt =====
-- A round of the publisher over the SQL repository, and the theorems at concrete inputs.
use shared_events.Prelude.{
  ℕ-Eq, Text-Eq, Bytes, Option, Text, [], arith, codes, contains, err, false, none, ok, refl, some,
  true, ◌∷◌, ◌≡◌, ◌⊎◌,
}
use shared_events.Event.{Event, UuidCodec, JsonCodec, new_event, from_json, to_json}
use shared_events.Outbox.{pending_record, publish_with_outbox, create_outbox_record_in_tx}
use shared_events.Outbox.Repository.{Table, ids, done, lost, rows, create_outbox_record}
use shared_events.Outbox.Store.{Db, sql_repository}
use shared_events.Publisher.{
  default_publisher_config, new_publisher, acked, World, process_batch, start, Publisher,
}
use mathlib.Core.Path.{subst}
use shared_events.Event.ReadBack.{ReadsBack}
use shared_events.Publisher.Rounds.{ticks}
use shared_events.Publisher.EndToEnd.{same_value, Streamed, publish_with_outbox_publishes}
use shared_events.Outbox.Writes.{Written, publish_with_outbox-Written}
use shared_events.Publisher.NoLoss.{IsDelivered, process_batch_no_loss}

abbrev uuids : UuidCodec
uuids = record { print = λ id. id ∷ []; parse = λ s. err [] }

abbrev order_placed : Event
unfolding new_event
order_placed = new_event 5 100 (codes "placed") (codes "order") 8 7 []

-- The JSON keeps the id and the type, and the empty metadata come back as the nil map.
abbrev read : Bytes → Event × Option Text
unfolding order_placed
read [] = (order_placed, some (codes "unexpected end"))
read (id ∷ event_type) =
    (record order_placed { id = id; event_type = event_type; metadata = none }, none)

abbrev json : JsonCodec
json = record { marshal = λ e. ok (e.id ∷ e.event_type); unmarshal = read }

abbrev body : Bytes
body = 5 ∷ codes "placed"

reads_back :
    (payload : Bytes) → to_json json order_placed ≡ ok payload → ReadsBack json order_placed payload
unfolding to_json from_json read order_placed new_event
reads_back payload j = subst (ReadsBack json order_placed) (same_value body payload j) (record {
  event = record order_placed { metadata = none };
  decoded = refl;
  again = body;
  encoded = refl;
  id = refl;
  event_type = refl;
  aggregate_type = refl;
  aggregate_id = refl;
  tenant_id = refl;
  version = refl;
})

abbrev database : Db
database = record {
  on_create = done;
  on_query = rows;
  on_publish = λ id. lost (codes "connection reset");
  on_fail = λ id. done;
  locked = λ id. false;
  query_time = 500_000_000_000;
  print = uuids.print;
}

abbrev one_record : World Table
unfolding pending_record order_placed
one_record = record { repo_state = pending_record order_placed body 100 ∷ []; sent = [] }

process_batch_no_loss_example :
    let w' =
      (process_batch uuids json
        (new_publisher default_publisher_config)
        (record { repo = sql_repository database; publish_msg = λ m. acked; now = λ id. 600 })
        one_record).1 in
    (contains (ids w'.repo_state) 5 ≡ true) ⊎ IsDelivered uuids json body w'.sent
unfolding one_record
process_batch_no_loss_example =
    process_batch_no_loss uuids json (new_publisher default_publisher_config) database (λ m. acked)
      (λ id. 600) 5 body one_record refl refl

abbrev one_each : Publisher
one_each = new_publisher (record default_publisher_config { batch_size = 1 })

stored :
    publish_with_outbox json (sql_repository database) order_placed 100 []
    ≡ (none, one_record.repo_state)
unfolding to_json publish_with_outbox create_outbox_record_in_tx create_outbox_record pending_record
    order_placed one_record
stored = refl

publish_with_outbox-Written_example :
    Written json database order_placed 100 []
      (publish_with_outbox json (sql_repository database) order_placed 100 [])
publish_with_outbox-Written_example = publish_with_outbox-Written json database order_placed 100 []

publish_with_outbox_publishes_example :
    (w' : World Table) × (start uuids json one_each
        (ticks uuids.print (1000 ∷ []))
        (record { repo_state = one_record.repo_state; sent = [] })
      ≡ some w')
    × (contains (ids w'.repo_state) order_placed.id ≡ false)
    × Streamed uuids json order_placed w'.sent
unfolding from_json one_record
publish_with_outbox_publishes_example =
    publish_with_outbox_publishes uuids json one_each uuids.print order_placed 100 [] [] (1000 ∷ [])
      database one_record.repo_state reads_back refl refl refl stored (omega arith)
