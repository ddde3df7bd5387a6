-- ===== src/Outbox/Repository.antt =====
-- repository_sql.go: the statements of SQLOutboxRepository over the table outbox_events, a list of
-- rows in the order in which the database scans them. One statement is one atomic step. Beside its
-- parameters a statement takes the reply of the database driver: a statement may fail before or
-- after it took effect, and its result may be unreadable. The primary key on `id` is the schema's.
pub mod Selection
pub mod Claims
pub mod Order
pub mod Payloads
pub mod Batches
mod Tests
use shared_events.Prelude.{
  ℕ-Eq, Bool, List, Option, Result, Text, [], codes, contains, err, false, filter_by, if◌then◌else◌,
  leb, ltb, map, none, not, ok, some, take, true, ℕ, ◌&&◌, ◌++◌, ◌+◌, ◌-◌, ◌==◌, ◌∷◌,
}
use shared_events.Event.{Uuid, Time}
use shared_events.Outbox.{Status, pending, failed, processing, OutboxRecord, max_outbox_attempts}

abbrev pub Table : Type 0
Table = List OutboxRecord

abbrev pub ids : Table → List Uuid
ids = map (λ r. r.id)

-- The reply to `ExecContext` and to `RowsAffected` on its result.
pub data ExecReply : Type 0 where
  -- the statement took effect, and its count can be read
  done : ExecReply
  -- it failed and changed nothing
  refused : Text → ExecReply
  -- it took effect, but the client saw an error
  lost : Text → ExecReply
  -- it took effect, and `RowsAffected` fails
  uncounted : Text → ExecReply

-- The reply to `QueryContext`, `Scan` and `rows.Err`.
pub data QueryReply : Type 0 where
  rows : QueryReply
  not_run : Text → QueryReply
  dropped : Text → QueryReply
  unscanned : Text → QueryReply
  cut_short : Text → QueryReply

abbrev pub duplicate_key : Text
duplicate_key = codes "duplicate key value violates unique constraint"

unfoldable pub create_outbox_record : ExecReply → OutboxRecord → Table → Option Text × Table
create_outbox_record (refused e) r t = (some (codes "insert outbox record: " ++ e), t)
create_outbox_record (lost e) r t =
    (some (codes "insert outbox record: " ++ e), if contains (ids t) r.id then t else r ∷ t)
create_outbox_record _ r t =
    if contains (ids t) r.id
    then (some (codes "insert outbox record: " ++ duplicate_key), t)
    else (none, r ∷ t)

-- Two minutes, in nanoseconds.
abbrev pub processing_claim_stale_after : ℕ
processing_claim_stale_after = 120_000_000_000

abbrev pub before : Option Time → Time → Bool
before none cutoff = false
before (some at) cutoff = ltb at cutoff

-- WHERE status = 'PENDING' OR (status = 'PROCESSING' AND last_attempt_at < cutoff)
abbrev is_selected : Status → Option Time → Time → Bool
is_selected pending at cutoff = true
is_selected processing at cutoff = before at cutoff
is_selected _ at cutoff = false

unfoldable pub is_eligible : Time → OutboxRecord → Bool
is_eligible cutoff r = is_selected r.status r.last_attempt_at cutoff

unfoldable pub insert_by_age : OutboxRecord → Table → Table
insert_by_age r [] = r ∷ []
insert_by_age r (s ∷ t) =
    let rest = insert_by_age r t in if leb r.created_at s.created_at then r ∷ s ∷ t else s ∷ rest

-- ORDER BY created_at ASC
unfoldable pub oldest_first : Table → Table
unfolding insert_by_age
oldest_first [] = []
oldest_first (r ∷ t) = insert_by_age r (oldest_first t)

-- The rows of the subquery; FOR UPDATE SKIP LOCKED passes over those that another transaction holds.
unfoldable pub picked : (Uuid → Bool) → Time → ℕ → Table → Table
picked locked cutoff limit t =
    take limit (oldest_first (filter_by (λ r. is_eligible cutoff r && not (locked r.id)) t))

unfoldable pub candidates : (Uuid → Bool) → Time → ℕ → Table → List Uuid
unfolding picked
candidates locked cutoff limit t = ids (picked locked cutoff limit t)

unfoldable pub claim : Time → OutboxRecord → OutboxRecord
claim now r = record r { status = processing; last_attempt_at = some now }

-- SET status, last_attempt_at WHERE id IN (...)
unfoldable pub claim_all : Time → List Uuid → Table → Table
unfolding claim
claim_all now chosen t = map (λ r. if contains chosen r.id then claim now r else r) t

-- RETURNING gives the rows in the order of the scan.
unfoldable pub returning : List Uuid → Table → Table
returning chosen t = filter_by (λ r. contains chosen r.id) t

abbrev read : QueryReply → Table → Table → Table → Result (List OutboxRecord) × Table
read rows records old new = (ok records, new)
read (not_run e) records old new = (err (codes "query pending records: " ++ e), old)
read (dropped e) records old new = (err (codes "query pending records: " ++ e), new)
read (unscanned e) records old new = (err (codes "scan record: " ++ e), new)
read (cut_short e) records old new = (err (codes "rows error: " ++ e), new)

unfoldable pub get_pending_records :
    QueryReply → (Uuid → Bool) → Time → ℕ → Table → Result (List OutboxRecord) × Table
get_pending_records reply locked now limit t =
    let chosen = candidates locked (now - processing_claim_stale_after) limit t in
    let t' = claim_all now chosen t in read reply (returning chosen t') t t'

-- DELETE FROM outbox_events WHERE id = ...
unfoldable pub delete : Uuid → Table → Table
delete id t = filter_by (λ r. not (r.id == id)) t

-- `print` is the UUID in the message of `fmt.Errorf`.
unfoldable pub mark_as_published : (Uuid → Text) → ExecReply → Uuid → Table → Option Text × Table
mark_as_published print (refused e) id t = (some (codes "delete published outbox record: " ++ e), t)
mark_as_published print (lost e) id t =
    (some (codes "delete published outbox record: " ++ e), delete id t)
mark_as_published print (uncounted e) id t = (some (codes "rows affected: " ++ e), delete id t)
mark_as_published print done id t = (
  if contains (ids t) id then none else some (codes "event not found: " ++ print id),
  delete id t,
)

unfoldable pub fail : Text → Time → OutboxRecord → OutboxRecord
fail message at r = record r {
  attempts = r.attempts + 1;
  last_attempt_at = some at;
  error_message = some message;
  status = if leb max_outbox_attempts (r.attempts + 1) then failed else pending;
}

-- SET ... WHERE id = ...
unfoldable pub fail_all : Uuid → Text → Time → Table → Table
unfolding fail
fail_all id message at t = map (λ r. if r.id == id then fail message at r else r) t

unfoldable pub mark_as_failed : ExecReply → Uuid → Text → Time → Table → Option Text × Table
mark_as_failed (refused e) id message at t = (some (codes "update outbox record: " ++ e), t)
mark_as_failed (lost e) id message at t =
    (some (codes "update outbox record: " ++ e), fail_all id message at t)
mark_as_failed _ id message at t = (none, fail_all id message at t)
