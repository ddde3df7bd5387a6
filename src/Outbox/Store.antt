-- ===== src/Outbox/Store.antt =====
-- The SQL repository as an OutboxRepository, for the clients of the interface.
use shared_events.Prelude.{Bool, Option, Text}
use shared_events.Event.{Uuid, Time}
use shared_events.Outbox.{OutboxRepository}
use shared_events.Outbox.Repository
use shared_events.Outbox.Repository.{Table, ExecReply, QueryReply}

-- What the environment answers during one round: the replies of the driver to each statement, the
-- rows that other transactions hold, and the clock when GetPendingRecords reads it.
pub record Db : Type 0 where
  pub on_create : ExecReply
  pub on_query : QueryReply
  pub on_publish : Uuid → ExecReply
  pub on_fail : Uuid → ExecReply
  pub locked : Uuid → Bool
  pub query_time : Time
  pub print : Uuid → Text

abbrev pub sql_repository : Db → OutboxRepository Table
sql_repository db = record {
  create_outbox_record = Repository.create_outbox_record db.on_create;
  get_pending_records = Repository.get_pending_records db.on_query db.locked db.query_time;
  mark_as_published = λ id at. Repository.mark_as_published db.print (db.on_publish id) id;
  mark_as_failed = λ id. Repository.mark_as_failed (db.on_fail id) id;
}

-- `sql.IsolationLevel`, as far as the code uses it.
pub data Isolation : Type 0 where
  read_committed : Isolation

-- BeginTx: what the driver answers to its own call.
unfoldable begin_tx :
    {Tx : Type 0} → (Isolation → Option Tx × Option Text) → Option Tx × Option Text
begin_tx driver = driver read_committed
