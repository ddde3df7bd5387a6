-- ===== src/Outbox.antt =====
-- outbox.go and the interface OutboxRepository: the outbox record, its states, and the storing of
-- an event inside the caller's transaction.
pub mod Repository
pub mod Store
pub mod Writes
use shared_events.Prelude.{Bytes, List, Option, Result, Text, codes, err, none, ok, some, ℕ, ◌++◌}
use shared_events.Event.{Uuid, Time, Event, JsonCodec, to_json}

-- The texts of the `status` column that the library writes; a row that a service made by other
-- means may hold another one.
pub data Status : Type 0 where
  pending published failed processing : Status
  other : Text → Status

abbrev pub max_outbox_attempts : ℕ
max_outbox_attempts = 3

-- A nil pointer is `none`.
pub record OutboxRecord : Type 0 where
  pub id : Uuid
  pub tenant_id : Uuid
  pub aggregate_type : Text
  pub aggregate_id : Uuid
  pub event_type : Text
  pub payload : Bytes
  pub status : Status
  pub attempts : ℕ
  pub last_attempt_at : Option Time
  pub published_at : Option Time
  pub error_message : Option Text
  pub created_at : Time

-- The record that CreateOutboxRecordInTx hands to the repository.
unfoldable pub pending_record : Event → Bytes → Time → OutboxRecord
pending_record e payload now = record {
  id = e.id;
  tenant_id = e.tenant_id;
  aggregate_type = e.aggregate_type;
  aggregate_id = e.aggregate_id;
  event_type = e.event_type;
  payload = payload;
  status = pending;
  attempts = 0;
  last_attempt_at = none;
  published_at = none;
  error_message = none;
  created_at = now;
}

-- OutboxRepository without BeginTx: each method takes the time that its caller read and returns
-- what the Go method returns, with the new state. CreateOutboxRecord runs inside the transaction.
pub record OutboxRepository (S : Type 0) : Type 0 where
  pub create_outbox_record : OutboxRecord → S → Option Text × S
  pub get_pending_records : ℕ → S → Result (List OutboxRecord) × S
  pub mark_as_published : Uuid → Time → S → Option Text × S
  pub mark_as_failed : Uuid → Text → Time → S → Option Text × S

module _ {S : Type 0} (json : JsonCodec) (repo : OutboxRepository S) where
  -- After `ToJSON`.
  abbrev pub with_payload : Result Bytes → Event → Time → S → Option Text × S
  with_payload (err m) e now s = (some (codes "marshal event payload: " ++ m), s)
  with_payload (ok payload) e now s = repo.create_outbox_record (pending_record e payload now) s

  unfoldable pub create_outbox_record_in_tx : Event → Time → S → Option Text × S
  create_outbox_record_in_tx e now s = with_payload (to_json json e) e now s

  unfoldable pub publish_with_outbox : Event → Time → S → Option Text × S
  unfolding create_outbox_record_in_tx
  publish_with_outbox e now s = create_outbox_record_in_tx e now s
