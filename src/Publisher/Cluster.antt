-- ===== src/Publisher/Cluster.antt =====
-- publisher.go on several replicas over one table and one stream. A step is one call: a claim, a
-- publish, a mark, or the insert of a writer; the replicas' steps come in any order, and a replica may
-- crash between any two of its calls.
pub mod Attempts
pub mod NoLoss
pub mod Recovery
pub mod Rounds
mod Tests
use shared_events.Prelude.{
  ℕ-Eq, Text-Eq, Bytes, List, Option, Result, Text, [], codes, decimal, err, if◌then◌else◌, leb,
  none, ok, some, ℕ, ◌++◌, ◌==◌, ◌∷◌, ◌≡◌,
}
use shared_events.Event.{Uuid, Time, Event, UuidCodec, JsonCodec, to_json, from_json}
use shared_events.Event.Headers.{NatsMsg}
use shared_events.Outbox.{OutboxRecord}
use shared_events.Outbox.Repository.{
  Table, ExecReply, create_outbox_record, get_pending_records, mark_as_published, mark_as_failed,
}
use shared_events.Outbox.Store.{Db}
use shared_events.Publisher.{
  Publisher, Answer, acked, rejected, unacked, Sent, World, message, stored,
}

-- The call with which publishRecord ends.
pub data Mark : Type 0 where
  as_published : Mark
  as_failed : Text → Mark

-- `PublishMsg`, by its answer.
abbrev pub answered : NatsMsg → Sent → Answer → Mark × Sent
answered msg sent acked = (as_published, stored acked msg sent)
answered msg sent (rejected e) =
    (as_failed (codes "publish to NATS: " ++ e), stored (rejected e) msg sent)
answered msg sent (unacked e) =
    (as_failed (codes "publish to NATS: " ++ e), stored (unacked e) msg sent)

module _ (uuid : UuidCodec) (json : JsonCodec) (publisher : Publisher)
    (answers : NatsMsg → Answer) where
  abbrev pub attempt_encoded : Event → Result Bytes → Sent → Mark × Sent
  attempt_encoded event (err e) sent = (as_failed (codes "marshal event: " ++ e), sent)
  attempt_encoded event (ok body) sent =
      let msg = message uuid event body in answered msg sent (answers msg)

  abbrev pub attempt_decoded : OutboxRecord → Result Event → Sent → Mark × Sent
  attempt_decoded r (err e) sent = (as_failed (codes "invalid event payload: " ++ e), sent)
  attempt_decoded r (ok event) sent =
      if leb publisher.max_attempts r.attempts
      then (
        as_failed (codes "max attempts (" ++ decimal publisher.max_attempts ++ codes ") exceeded"),
        sent,
      )
      else attempt_encoded event (to_json json event) sent

  -- publishRecord up to its mark: which mark it makes, and what the stream has then.
  unfoldable pub attempt : OutboxRecord → Sent → Mark × Sent
  attempt r sent = attempt_decoded r (from_json json r.payload) sent

-- The mark, at the time that the replica reads.
unfoldable pub marked : Db → Time → Uuid → Mark → Table → Table
marked db at id as_published t = (mark_as_published db.print (db.on_publish id) id t).1
marked db at id (as_failed m) t = (mark_as_failed (db.on_fail id) id m at t).1

-- A replica: the records of its batch that it has not come to, and the record that it is to mark.
pub record Worker : Type 0 where
  pub batch : List OutboxRecord
  pub marking : Option (Uuid × Mark)

-- Between two rounds, and after a restart.
abbrev pub idle : Worker
idle = record { batch = []; marking = none }

-- One call of a replica. What the database, the stream and the clock give is chosen in each step.
pub data Move (uuid : UuidCodec) (json : JsonCodec) (publisher : Publisher) (c : World Table)
    (w : Worker) : World Table → Worker → Type 0 where
  claims :
      (db : Db) (records : List OutboxRecord) (t : Table)
      → w ≡ idle
      → get_pending_records db.on_query db.locked db.query_time publisher.batch_size c.repo_state
        ≡ (ok records, t)
      → Move uuid json publisher c w
          (record c { repo_state = t })
          (record { batch = records; marking = none })
  claim_fails :
      (db : Db) (e : Text) (t : Table)
      → w ≡ idle
      → get_pending_records db.on_query db.locked db.query_time publisher.batch_size c.repo_state
        ≡ (err e, t)
      → Move uuid json publisher c w (record c { repo_state = t }) idle
  attempts :
      (answers : NatsMsg → Answer) (r : OutboxRecord) (rest : List OutboxRecord)
      → w ≡ record { batch = r ∷ rest; marking = none }
      → Move uuid json publisher c w
          (record c { sent = (attempt uuid json publisher answers r c.sent).1 })
          (record {
            batch = rest;
            marking = some (r.id, (attempt uuid json publisher answers r c.sent).0);
          })
  marks :
      (db : Db) (at : Time) (id : Uuid) (m : Mark)
      → w.marking ≡ some (id, m)
      → Move uuid json publisher c w
          (record c { repo_state = marked db at id m c.repo_state })
          (record { batch = w.batch; marking = none })
  crashes : Move uuid json publisher c w c idle

-- The table and the stream, and the replicas by their number.
pub record Cluster : Type 0 where
  pub shared : World Table
  pub worker : ℕ → Worker

abbrev pub put : ℕ → Worker → (ℕ → Worker) → ℕ → Worker
put i w worker j = if j == i then w else worker j

abbrev pub started : World Table → Cluster
started c = record { shared = c; worker = λ i. idle }

pub data Step (uuid : UuidCodec) (json : JsonCodec) (publisher : Publisher) (s : Cluster)
    : Cluster → Type 0 where
  moves :
      (i : ℕ) {c : World Table} {w : Worker}
      → Move uuid json publisher s.shared (s.worker i) c w
      → Step uuid json publisher s (record { shared = c; worker = put i w s.worker })
  -- a transaction with CreateOutboxRecord
  writes :
      (reply : ExecReply) (r : OutboxRecord)
      → Step uuid json publisher s (record s {
        shared = record s.shared {
          repo_state = (create_outbox_record reply r s.shared.repo_state).1;
        };
      })

pub data Reach (uuid : UuidCodec) (json : JsonCodec) (publisher : Publisher) (s : Cluster)
    : Cluster → Type 0 where
  here : Reach uuid json publisher s s
  later :
      {t u : Cluster}
      → Reach uuid json publisher s t
      → Step uuid json publisher t u
      → Reach uuid json publisher s u
