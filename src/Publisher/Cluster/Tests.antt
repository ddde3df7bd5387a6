-- ===== src/Publisher/Cluster/Tests.antt =====
-- Two replicas, one of which crashes after a publish whose acknowledgement was lost.
use shared_events.Prelude.{
  ℕ-Eq, Text-Eq, List, [], arith, codes, contains, err, false, none, ok, refl, some, true, ◌∷◌, ◌≡◌,
  ◌⊎◌,
}
use shared_events.Event.{Event, UuidCodec, JsonCodec, new_event, from_json, to_json}
use shared_events.Outbox.{OutboxRecord, failed, pending_record}
use shared_events.Outbox.Repository.{
  Table, ids, done, lost, rows, get_pending_records, candidates, picked, oldest_first, is_eligible,
  claim_all, claim, returning,
}
use shared_events.Outbox.Store.{Db}
use shared_events.Publisher.{
  Publisher, default_publisher_config, new_publisher, acked, unacked, World, start,
}
use shared_events.Publisher.NoLoss.{IsDelivered}
use shared_events.Publisher.Cluster.{
  Cluster, started, Reach, here, later, moves, claims, attempts, crashes,
}
use shared_events.Publisher.Cluster.NoLoss.{cluster_no_loss}
use shared_events.Publisher.Rounds.{ticks}
use shared_events.Publisher.Cluster.Recovery.{restart_recovers}
use shared_events.Publisher.Cluster.Rounds.{Turn, RanTo, ticks_of, start_runs}

abbrev uuids : UuidCodec
uuids = record { print = λ id. id ∷ []; parse = λ s. err [] }

abbrev order_placed : Event
unfolding new_event
order_placed = new_event 5 100 (codes "placed") (codes "order") 8 7 []

abbrev json : JsonCodec
json = record { marshal = λ e. ok (codes "e"); unmarshal = λ b. (order_placed, none) }

abbrev database : Db
database = record {
  on_create = done;
  on_query = rows;
  on_publish = λ id. lost (codes "connection reset");
  on_fail = λ id. done;
  locked = λ id. false;
  query_time = 500_000_000_000;
  print = uuids.print;
}

abbrev row : OutboxRecord
unfolding pending_record order_placed
row = pending_record order_placed (codes "e") 100

-- Another record, whose attempts are used up.
abbrev spent : OutboxRecord
unfolding pending_record order_placed
spent = record (pending_record order_placed (codes "f") 80) {
  id = 6;
  status = failed;
  attempts = 10;
}

abbrev two_records : World Table
two_records = record { repo_state = row ∷ spent ∷ []; sent = [] }

abbrev publisher : Publisher
publisher = new_publisher default_publisher_config

abbrev claimed : OutboxRecord
unfolding claim row
claimed = claim 500_000_000_000 row

claims_row :
    get_pending_records rows (λ id. false) 500_000_000_000 100 (row ∷ spent ∷ [])
    ≡ (ok (claimed ∷ []), claimed ∷ spent ∷ [])
unfolding get_pending_records candidates picked oldest_first is_eligible claim_all returning row
    spent claimed
claims_row = refl

-- Replica 3 claims the record and publishes it, and crashes.
abbrev run : (s : Cluster) × Reach uuids json publisher (started two_records) s
run = (
  _,
  later
      (later
        (later here
          (moves 3 (claims database (claimed ∷ []) (claimed ∷ spent ∷ []) refl claims_row)))
        (moves 3 (attempts (λ m. unacked (codes "timeout")) claimed [] refl)))
      (moves 3 crashes),
)

cluster_no_loss_example :
    (contains (ids run.0.shared.repo_state) 5 ≡ true)
    ⊎ IsDelivered uuids json (codes "e") run.0.shared.sent
unfolding row spent
cluster_no_loss_example =
    cluster_no_loss 5 (codes "e") uuids json publisher two_records run.0 run.1 refl refl

-- Replica 3 starts again, more than two minutes after its claim.
restart_recovers_example :
    (w : World Table) × (start uuids json publisher
        (ticks uuids.print (700_000_000_000 ∷ 701_000_000_000 ∷ []))
        run.0.shared
      ≡ some w)
    × RanTo uuids json publisher run.0 3 w
    × (contains (ids w.repo_state) 5 ≡ false)
    × IsDelivered uuids json (codes "e") w.sent
unfolding row spent from_json to_json is_eligible claimed claim
restart_recovers_example =
    restart_recovers uuids json publisher uuids.print 550_000_000_000 5 (codes "e") 3
      (700_000_000_000 ∷ 701_000_000_000 ∷ []) two_records run.0 refl refl run.1 refl refl refl
      (omega arith) refl

abbrev turns : List Turn
turns = record { db = database; answers = λ m. acked; now = λ id. 600 } ∷ []

start_runs_example :
    (c : World Table) × (start uuids json publisher
        (ticks_of uuids json publisher turns)
        two_records
      ≡ some c)
    × RanTo uuids json publisher (started two_records) 3 c
start_runs_example =
    start_runs uuids json publisher 3 turns (started two_records) (started two_records) refl here
      refl
