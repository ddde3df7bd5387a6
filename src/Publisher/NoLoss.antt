-- ===== src/Publisher/NoLoss.antt =====
-- No event is lost: a row leaves the outbox only when the stream has its message.
use shared_events.Prelude.{
  ℕ-Eq, Text-Eq, Bool-cases, Bytes, List, Result, Text, [], arith, contains, err, inl, inr, leb,
  not, ok, refl, text_eq_iff, true, ◌==◌, ◌||◌, ◌∙◌, ◌∷◌, ◌≡◌, ◌⊎◌,
}
use mathlib.Core.Path.{subst}
use shared_events.Event.{Uuid, Time, Event, UuidCodec, JsonCodec, to_json, from_json}
use shared_events.Event.Headers.{NatsMsg}
use shared_events.Outbox.{OutboxRecord}
use shared_events.Outbox.Repository.{Table, ids}
use shared_events.Outbox.Repository.Payloads.{
  has_payload, ids-mark_as_failed, contains-mark_as_published, Claimed, get_pending-Claimed,
}
use shared_events.Outbox.Store.{Db, sql_repository}
use shared_events.Publisher.{
  Publisher, Answer, acked, rejected, unacked, Sent, World, Round, message, stored, mark_failed,
  settle, publish_encoded, publish_decoded, publish_record, publish_all, process_claimed,
  process_batch,
}

-- The stream has the message.
abbrev pub IsStored : NatsMsg → Sent → Type 0
IsStored msg [] = ⊥
IsStored msg (m ∷ sent) = (m ≡ msg) ⊎ IsStored msg sent

-- The stream has the message of the event that the payload encodes.
pub record IsDelivered (uuid : UuidCodec) (json : JsonCodec) (payload : Bytes) (sent : Sent)
    : Type 0 where
  pub event : Event
  pub body : Bytes
  pub decoded : from_json json payload ≡ ok event
  pub encoded : to_json json event ≡ ok body
  pub in_stream : IsStored (message uuid event body) sent

module _ (uuid : UuidCodec) (json : JsonCodec) (payload : Bytes) where
  pub IsDelivered-stored :
      (a : Answer) (msg : NatsMsg) (sent : Sent)
      → IsDelivered uuid json payload sent
      → IsDelivered uuid json payload (stored a msg sent)
  IsDelivered-stored acked msg sent d = record {
    event = d.event;
    body = d.body;
    decoded = d.decoded;
    encoded = d.encoded;
    in_stream = inr d.in_stream;
  }
  IsDelivered-stored (rejected e) msg sent d = d
  IsDelivered-stored (unacked e) msg sent d = record {
    event = d.event;
    body = d.body;
    decoded = d.decoded;
    encoded = d.encoded;
    in_stream = inr d.in_stream;
  }

module _ (uuid : UuidCodec) (json : JsonCodec) (publisher : Publisher) (db : Db)
    (answers : NatsMsg → Answer) (now : Uuid → Time) (id : Uuid) (payload : Bytes) where
  abbrev round : Round Table
  round = record { repo = sql_repository db; publish_msg = answers; now = now }

  -- The row is still in the outbox, or its message is in the stream.
  abbrev pub Kept : World Table → Type 0
  Kept w = (contains (ids w.repo_state) id ≡ true) ⊎ IsDelivered uuid json payload w.sent

  mark_failed-Kept :
      (r : OutboxRecord) (m : Text) (w : World Table)
      → Kept w
      → Kept (mark_failed uuid json publisher round r m w).1
  unfolding mark_failed
  mark_failed-Kept r m w (inl h) =
      inl (rw (ids-mark_as_failed (db.on_fail r.id) r.id m (now r.id) w.repo_state) h)
  mark_failed-Kept r m w (inr d) = inr d

  -- The message of the record is stored before its row is deleted.
  settle_stored :
      (r : OutboxRecord) (event : Event) (body : Bytes) (w : World Table)
      → (not (r.id == id) || r.payload == payload) ≡ true
      → from_json json r.payload ≡ ok event
      → to_json json event ≡ ok body
      → contains (ids w.repo_state) id ≡ true
      → Kept (settle uuid json publisher round r (message uuid event body) acked w).1
  unfolding settle
  settle_stored r event body w p d b h = elim (Bool-cases (r.id == id)) [
    | inl same ↦
        let e : r.payload ≡ payload = (text_eq_iff r.payload payload).0 (ground arith) in
        inr (record {
          event = event;
          body = body;
          decoded = subst (λ x. from_json json x ≡ ok event) e d;
          encoded = b;
          in_stream = inl refl;
        })
    | inr differs ↦
        let other = contains-mark_as_published db.print (db.on_publish r.id) id r.id w.repo_state in
        inl (other (ground arith) ∙ h)
  ]

  settle-Kept :
      (r : OutboxRecord) (event : Event) (body : Bytes) (a : Answer) (w : World Table)
      → (not (r.id == id) || r.payload == payload) ≡ true
      → from_json json r.payload ≡ ok event
      → to_json json event ≡ ok body
      → Kept w
      → Kept (settle uuid json publisher round r (message uuid event body) a w).1
  unfolding settle
  settle-Kept r event body acked w p d b (inl h) = settle_stored r event body w p d b h
  settle-Kept r event body acked w p d b (inr k) =
      inr (IsDelivered-stored uuid json payload acked _ w.sent k)
  settle-Kept r event body (rejected e) w p d b (inl h) =
      inl (rw (ids-mark_as_failed (db.on_fail r.id) r.id _ (now r.id) w.repo_state) h)
  settle-Kept r event body (rejected e) w p d b (inr k) = inr k
  settle-Kept r event body (unacked e) w p d b (inl h) =
      inl (rw (ids-mark_as_failed (db.on_fail r.id) r.id _ (now r.id) w.repo_state) h)
  settle-Kept r event body (unacked e) w p d b (inr k) =
      inr (IsDelivered-stored uuid json payload (unacked e) _ w.sent k)

  publish_encoded-Kept :
      (r : OutboxRecord) (event : Event) (x : Result Bytes) (w : World Table)
      → (not (r.id == id) || r.payload == payload) ≡ true
      → from_json json r.payload ≡ ok event
      → to_json json event ≡ x
      → Kept w
      → Kept (publish_encoded uuid json publisher round r event x w).1
  unfolding publish_encoded
  publish_encoded-Kept r event (err e) w p d b k = mark_failed-Kept r _ w k
  publish_encoded-Kept r event (ok body) w p d b k =
      settle-Kept r event body (answers (message uuid event body)) w p d b k

  publish_decoded-Kept :
      (r : OutboxRecord) (x : Result Event) (w : World Table)
      → (not (r.id == id) || r.payload == payload) ≡ true
      → from_json json r.payload ≡ x
      → Kept w
      → Kept (publish_decoded uuid json publisher round r x w).1
  unfolding publish_decoded
  publish_decoded-Kept r (err e) w p d k = mark_failed-Kept r _ w k
  publish_decoded-Kept r (ok event) w p d k =
      elim (Bool-cases (leb publisher.max_attempts r.attempts)) [
        | inl spent ↦ rw spent (mark_failed-Kept r _ w k)
        | inr left ↦ rw left (publish_encoded-Kept r event (to_json json event) w p d refl k)
      ]

  pub publish_all-Kept :
      (records : List OutboxRecord) (w : World Table)
      → has_payload id payload records ≡ true
      → Kept w
      → Kept (publish_all uuid json publisher round records w)
  unfolding publish_all publish_record
  publish_all-Kept [] w p k = k
  publish_all-Kept (r ∷ rest) w p k =
      publish_all-Kept rest (publish_record uuid json publisher round r w).1 (ground arith)
        (publish_decoded-Kept r (from_json json r.payload) w (ground arith) refl k)

  after_claim :
      (c : Result (List OutboxRecord) × Table) (sent : Sent)
      → Claimed id payload c
      → Kept
          (process_claimed uuid json publisher round c.0
            (record { repo_state = c.1; sent = sent })).1
  after_claim (err e, t) sent h = inl h
  after_claim (ok records, t) sent h =
      publish_all-Kept records (record { repo_state = t; sent = sent }) h.1 (inl h.0)

  -- One round of the publisher loses no event, whatever the database and the stream answer (lost
  -- replies and lost acknowledgements included): if the outbox has a row for the id, and its rows
  -- hold the payload, then after the round it still has a row for the id, or the stream has the
  -- message of the event that the payload encodes.
  pub process_batch_no_loss :
      (w : World Table)
      → contains (ids w.repo_state) id ≡ true
      → has_payload id payload w.repo_state ≡ true
      → Kept (process_batch uuid json publisher round w).1
  unfolding process_batch
  process_batch_no_loss w h p =
      after_claim (round.repo.get_pending_records publisher.batch_size w.repo_state) w.sent (
        get_pending-Claimed id payload db.on_query db.locked db.query_time publisher.batch_size
          w.repo_state h p)
