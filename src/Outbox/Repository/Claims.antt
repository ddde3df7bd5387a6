-- ===== src/Outbox/Repository/Claims.antt =====
-- The replicas of a service run the statements of the repository in any interleaving: a list of
-- operations, each one atomic, on the one table.
pub mod Exclusive
pub mod Attempts
mod Failures
pub mod Retries
use shared_events.Prelude.{
  ℕ-Eq, Bool, List, Result, Text, [], contains, err, if◌then◌else◌, ok, ℕ, ◌+◌, ◌∷◌,
}
use shared_events.Event.{Uuid, Time}
use shared_events.Outbox.{OutboxRecord}
use shared_events.Outbox.Repository.{
  Table, ids, ExecReply, QueryReply, create_outbox_record, get_pending_records, mark_as_published,
  mark_as_failed,
}

-- A statement as some replica runs it, with the driver's reply. A claim has the rows that are
-- locked, the time and the limit.
pub data Op : Type 0 where
  create : ExecReply → OutboxRecord → Op
  claim_batch : QueryReply → (Uuid → Bool) → Time → ℕ → Op
  publish : ExecReply → Uuid → Op
  give_up : ExecReply → Uuid → Text → Time → Op

-- The table after the statement.
unfoldable pub step : (Uuid → Text) → Op → Table → Table
step print (create reply r) t = (create_outbox_record reply r t).1
step print (claim_batch reply locked now limit) t = (get_pending_records reply locked now limit t).1
step print (publish reply id) t = (mark_as_published print reply id t).1
step print (give_up reply id message at) t = (mark_as_failed reply id message at t).1

abbrev pub ids_of : Result (List OutboxRecord) → List Uuid
ids_of (ok records) = ids records
ids_of (err e) = []

-- The ids of the records that the statement hands to the replica that runs it.
unfoldable pub handed : Op → Table → List Uuid
handed (claim_batch reply locked now limit) t =
    ids_of (get_pending_records reply locked now limit t).0
handed _ t = []

unfoldable pub run : (Uuid → Text) → List Op → Table → Table
run print [] t = t
run print (op ∷ ops) t = run print ops (step print op t)

-- How many of the statements hand the record out.
unfoldable pub times_handed : (Uuid → Text) → Uuid → List Op → Table → ℕ
times_handed print id [] t = 0
times_handed print id (op ∷ ops) t =
    (if contains (handed op t) id then 1 else 0) + times_handed print id ops (step print op t)
