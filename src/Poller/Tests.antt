-- ===== src/Poller/Tests.antt =====
-- Polls over the SQL repository, and the theorems at concrete inputs.
use shared_events.Prelude.{
  ℕ-Eq, Text-Eq, [], codes, contains, err, false, none, ok, refl, some, true, ◌∷◌, ◌≡◌, ◌⊎◌,
}
use shared_events.Event.{Event, UuidCodec, JsonCodec, new_event, from_json}
use shared_events.Outbox.{pending_record}
use shared_events.Outbox.Repository.{
  Table, ids, done, rows, get_pending_records, candidates, picked, oldest_first, insert_by_age,
  is_eligible, claim_all, claim, returning,
}
use shared_events.Outbox.Store.{Db, sql_repository}
use shared_events.Publisher.{Answer, acked, unacked, World}
use shared_events.Adapters.{jet_stream_adapter}
use shared_events.Adapters.Faithful.{IsFaithful, IsSent, jet_stream_adapter-IsFaithful}
use shared_events.Poller.{OutboxPoller, Round, poll}
use shared_events.Poller.NoLoss.{IsDelivered}
use shared_events.Poller.Lifecycle.{
  Lifecycle, polling, selecting, created, start, stop, starts, stops, polls, Reach, here, later,
}
use shared_events.Poller.Lifecycle.NoLoss.{IsServed, lifecycle_no_loss}
use shared_events.Poller.Unconnected.{unconnected_loses}

abbrev uuids : UuidCodec
uuids = record { print = λ id. id ∷ []; parse = λ s. err [] }

abbrev order_placed : Event
unfolding new_event
order_placed = new_event 5 100 (codes "placed") (codes "order") 8 7 []

abbrev json : JsonCodec
json = record { marshal = λ e. ok (codes "e"); unmarshal = λ b. (order_placed, none) }

abbrev database : Db
database = record {
  on_create = done;
  on_query = rows;
  on_publish = λ id. done;
  on_fail = λ id. done;
  locked = λ id. false;
  query_time = 500_000_000_000;
  print = uuids.print;
}

abbrev poller : OutboxPoller
poller = record { batch_size = 100; poll_period = 5 }

abbrev one_record : World Table
unfolding pending_record order_placed
one_record = record { repo_state = pending_record order_placed (codes "e") 100 ∷ []; sent = [] }

-- A poll with a stream that gives the answer.
abbrev round_with : Answer → Round Table
round_with answer = record {
  repo = sql_repository database;
  publisher = jet_stream_adapter uuids json (some (λ m. answer));
  now = λ id. 600;
}

served : (answer : Answer) → IsServed json poller (IsSent uuids json) (round_with answer)
served answer = record {
  db = database;
  publisher = jet_stream_adapter uuids json (some (λ m. answer));
  now = λ id. 600;
  faithful = jet_stream_adapter-IsFaithful uuids json (λ m. answer);
  made_of = refl;
}

-- Two loops are started, one polls while the stream does not answer, Stop is called, and then the
-- other one polls.
abbrev run : (t : Lifecycle Table) × Reach json poller (created one_record) t
unfolding start stop
run = (
  _,
  later
      (later
        (later (later (later here starts) starts)
          (polls [] (polling ∷ []) (round_with (unacked (codes "timeout"))) refl))
        (stops _ refl))
      (polls (selecting ∷ []) [] (round_with acked) refl),
)

lifecycle_no_loss_example :
    (contains (ids run.0.world.repo_state) 5 ≡ true)
    ⊎ IsDelivered json (IsSent uuids json) (codes "e") run.0.world.sent
unfolding one_record run
lifecycle_no_loss_example =
    lifecycle_no_loss json poller (IsSent uuids json) 5 (codes "e") run.1
      (((((tt, tt), tt), served (unacked (codes "timeout"))), tt), served acked) refl refl

jet_stream_adapter-IsFaithful_example :
    IsFaithful (jet_stream_adapter uuids json (some (λ m. acked))) (IsSent uuids json)
jet_stream_adapter-IsFaithful_example = jet_stream_adapter-IsFaithful uuids json (λ m. acked)

unconnected_loses_example :
    let w' =
      poll json poller
        (record {
          repo = sql_repository database;
          publisher = jet_stream_adapter uuids json none;
          now = λ id. 600;
        })
        one_record in
    (contains (ids w'.repo_state) 5 ≡ false) × (w'.sent ≡ [])
unfolding from_json one_record order_placed new_event get_pending_records candidates picked
    oldest_first insert_by_age is_eligible claim_all claim returning
unconnected_loses_example =
    unconnected_loses json poller database uuids (λ id. 600) 5 (codes "e") order_placed one_record
      refl refl refl refl refl
