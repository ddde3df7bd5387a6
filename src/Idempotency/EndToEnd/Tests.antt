-- ===== src/Idempotency/EndToEnd/Tests.antt =====
-- An order from the outbox to the handler of a consumer with two replicas.
use shared_events.Prelude.{
  ℕ-Eq, Text-Eq, Bytes, List, Option, Result, Text, [], arith, codes, err, false, inl, none, ok,
  refl, some, ◌∷◌, ◌≡◌,
}
use shared_events.Event.{subject, Uuid, Event, UuidCodec, JsonCodec, new_event, from_json, to_json}
use shared_events.Event.Headers.{event_headers, get, set}
use shared_events.Outbox.{
  OutboxRecord, pending_record, publish_with_outbox, create_outbox_record_in_tx,
}
use shared_events.Outbox.Repository.{
  get_pending_records, returning, claim_all, candidates, oldest_first, is_eligible,
  mark_as_published, delete, Table, done, rows, create_outbox_record,
}
use shared_events.Outbox.Store.{Db, sql_repository}
use shared_events.Publisher.{
  Publisher, default_publisher_config, new_publisher, World, message, start, loop, process_batch,
  publish_all, publish_record, publish_decoded, publish_encoded, settle,
}
use mathlib.Core.Path.{subst}
use shared_events.Event.ReadBack.{ReadsBack}
use shared_events.Publisher.EndToEnd.{same_value}
use shared_events.Publisher.Rounds.{ticks}
use shared_events.Idempotency.Once.{count_wins}
use shared_events.Idempotency.Ids.{event_id_from_msg}
use shared_events.Idempotency.Consumers.{Happening, delivers, statements}
use shared_events.Idempotency.EndToEnd.{committed_event_claimed_once}

abbrev one_rune : Text → Result Uuid
one_rune (u ∷ []) = ok u
one_rune _ = err (codes "invalid UUID")

abbrev uuid : UuidCodec
uuid = record { print = λ u. u ∷ []; parse = one_rune }

abbrev order_placed : Event
unfolding new_event
order_placed = new_event 5 100 (codes "placed") (codes "order") 8 7 []

-- The JSON keeps the id and the type, and the empty metadata come back as the nil map.
abbrev read : Bytes → Event × Option Text
unfolding order_placed
read [] = (order_placed, some (codes "unexpected end"))
read (id ∷ event_type) =
    (record order_placed { id = id; event_type = event_type; metadata = none }, none)

abbrev json : JsonCodec
json = record { marshal = λ e. ok (e.id ∷ e.event_type); unmarshal = read }

abbrev body : Bytes
body = 5 ∷ codes "placed"

reads_back :
    (payload : Bytes) → to_json json order_placed ≡ ok payload → ReadsBack json order_placed payload
unfolding to_json from_json read order_placed new_event
reads_back payload j = subst (ReadsBack json order_placed) (same_value body payload j) (record {
  event = record order_placed { metadata = none };
  decoded = refl;
  again = body;
  encoded = refl;
  id = refl;
  event_type = refl;
  aggregate_type = refl;
  aggregate_id = refl;
  tenant_id = refl;
  version = refl;
})

abbrev database : Db
database = record {
  on_create = done;
  on_query = rows;
  on_publish = λ id. done;
  on_fail = λ id. done;
  locked = λ id. false;
  query_time = 100;
  print = uuid.print;
}

abbrev publisher : Publisher
publisher = new_publisher default_publisher_config

abbrev row : OutboxRecord
unfolding pending_record order_placed
row = pending_record order_placed body 100

stored : publish_with_outbox json (sql_repository database) order_placed 100 [] ≡ (none, row ∷ [])
unfolding to_json publish_with_outbox create_outbox_record_in_tx create_outbox_record pending_record
    order_placed row
stored = refl

abbrev end : World Table
end = record { repo_state = []; sent = message uuid order_placed body ∷ [] }

published :
    start uuid json publisher
      (ticks uuid.print (1000 ∷ []))
      (record { repo_state = row ∷ []; sent = [] })
    ≡ some end
unfolding start loop process_batch publish_all publish_record publish_decoded publish_encoded settle
    row get_pending_records returning claim_all candidates oldest_first is_eligible from_json
    to_json mark_as_published delete message subject event_headers
published = refl

-- The message is delivered to one replica, and again to the other.
abbrev deliveries : List Happening
deliveries =
    delivers (message uuid order_placed body) done 60
    ∷ delivers (message uuid order_placed body) done 61
    ∷ []

committed_event_claimed_once_example :
    count_wins 5
      (codes "c")
      (statements uuid (λ b. err (codes "no JSON")) (codes "c") deliveries)
      []
    ≡ 1
unfolding event_id_from_msg message event_headers get set from_json order_placed
committed_event_claimed_once_example =
    committed_event_claimed_once uuid json (λ b. err (codes "no JSON")) (codes "c") publisher
      uuid.print database order_placed 100 [] (row ∷ []) [] (1000 ∷ []) end 55 deliveries []
      reads_back (λ u. refl) (λ u. refl) refl refl stored (omega arith) published (inl refl, tt)
      refl refl refl
