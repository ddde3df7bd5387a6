-- ===== src/Poller/NoLoss.antt =====
-- No event is lost by a poll whose transport is faithful.
use shared_events.Prelude.{
  ℕ-Eq, Text-Eq, Bool-cases, Bytes, List, Option, Result, Text, [], arith, contains, err, inl, inr,
  none, not, ok, refl, some, text_eq_iff, true, ◌==◌, ◌||◌, ◌∙◌, ◌∷◌, ◌≡◌, ◌⊎◌,
}
use mathlib.Core.Path.{subst}
use shared_events.Event.{Uuid, Time, Event, JsonCodec, from_json}
use shared_events.Outbox.{OutboxRecord}
use shared_events.Outbox.Repository.{Table, ids}
use shared_events.Outbox.Repository.Payloads.{
  has_payload, ids-mark_as_failed, contains-mark_as_published, Claimed, get_pending-Claimed,
}
use shared_events.Outbox.Store.{Db, sql_repository}
use shared_events.Publisher.{Sent, World}
use shared_events.Adapters.Faithful.{IsFaithful}
use shared_events.Adapters.{EventPublisher}
use shared_events.Poller.{
  OutboxPoller, Round, after_publish, poll_decoded, poll_all, poll_claimed, poll,
}

-- The transport has the event that the payload encodes.
pub record IsDelivered (json : JsonCodec) (Has : Event → Sent → Type 0) (payload : Bytes)
    (sent : Sent) : Type 0 where
  pub event : Event
  pub decoded : from_json json payload ≡ ok event
  pub has_event : Has event sent

module _ (json : JsonCodec) (p : OutboxPoller) (db : Db) (publisher : EventPublisher)
    (now : Uuid → Time) (Has : Event → Sent → Type 0) (faithful : IsFaithful publisher Has)
    (id : Uuid) (payload : Bytes) where
  abbrev round : Round Table
  round = record { repo = sql_repository db; publisher = publisher; now = now }

  -- The row is still in the outbox, or the transport has its event.
  abbrev Kept : World Table → Type 0
  Kept w = (contains (ids w.repo_state) id ≡ true) ⊎ IsDelivered json Has payload w.sent

  after_publish-none :
      (r : OutboxRecord) (event : Event) (sent : Sent) (w : World Table)
      → (not (r.id == id) || r.payload == payload) ≡ true
      → from_json json r.payload ≡ ok event
      → Has event sent
      → contains (ids w.repo_state) id ≡ true
      → Kept (after_publish json p round r (none, sent) w.repo_state)
  unfolding after_publish
  after_publish-none r event sent w h d has k = elim (Bool-cases (r.id == id)) [
    | inl same ↦
        let e : r.payload ≡ payload = (text_eq_iff r.payload payload).0 (ground arith) in
        inr (record {
          event = event;
          decoded = subst (λ b. from_json json b ≡ ok event) e d;
          has_event = has;
        })
    | inr differs ↦
        let other = contains-mark_as_published db.print (db.on_publish r.id) id r.id w.repo_state in
        inl (other (ground arith) ∙ k)
  ]

  IsDelivered-publish :
      (event : Event) (sent : Sent)
      → IsDelivered json Has payload sent
      → IsDelivered json Has payload (publisher event sent).1
  IsDelivered-publish event sent k = record {
    event = k.event;
    decoded = k.decoded;
    has_event = faithful.keeps event k.event sent k.has_event;
  }

  after_publish-Kept :
      (r : OutboxRecord) (event : Event) (x : Option Text × Sent) (w : World Table)
      → (not (r.id == id) || r.payload == payload) ≡ true
      → from_json json r.payload ≡ ok event
      → (x.0 ≡ none → Has event x.1)
      → (contains (ids w.repo_state) id ≡ true) ⊎ IsDelivered json Has payload x.1
      → Kept (after_publish json p round r x w.repo_state)
  unfolding after_publish
  after_publish-Kept r event (some e, sent) w h d has (inl k) =
      inl (rw (ids-mark_as_failed (db.on_fail r.id) r.id e (now r.id) w.repo_state) k)
  after_publish-Kept r event (some e, sent) w h d has (inr k) = inr k
  after_publish-Kept r event (none, sent) w h d has (inl k) =
      after_publish-none r event sent w h d (has refl) k
  after_publish-Kept r event (none, sent) w h d has (inr k) = inr k

  poll_decoded-Kept :
      (r : OutboxRecord) (x : Result Event) (w : World Table)
      → (not (r.id == id) || r.payload == payload) ≡ true
      → from_json json r.payload ≡ x
      → Kept w
      → Kept (poll_decoded json p round r x w)
  unfolding poll_decoded
  poll_decoded-Kept r (err e) w h d (inl k) =
      inl (rw (ids-mark_as_failed (db.on_fail r.id) r.id e (now r.id) w.repo_state) k)
  poll_decoded-Kept r (err e) w h d (inr k) = inr k
  poll_decoded-Kept r (ok event) w h d (inl k) =
      after_publish-Kept r event (publisher event w.sent) w h d (faithful.has event w.sent) (inl k)
  poll_decoded-Kept r (ok event) w h d (inr k) =
      after_publish-Kept r event (publisher event w.sent) w h d (faithful.has event w.sent)
        (inr (IsDelivered-publish event w.sent k))

  poll_all-Kept :
      (records : List OutboxRecord) (w : World Table)
      → has_payload id payload records ≡ true
      → Kept w
      → Kept (poll_all json p round records w)
  unfolding poll_all
  poll_all-Kept [] w h k = k
  poll_all-Kept (r ∷ rest) w h k =
      poll_all-Kept rest (poll_decoded json p round r (from_json json r.payload) w) (ground arith)
        (poll_decoded-Kept r (from_json json r.payload) w (ground arith) refl k)

  after_claim :
      (c : Result (List OutboxRecord) × Table) (sent : Sent)
      → Claimed id payload c
      → Kept (poll_claimed json p round c.0 (record { repo_state = c.1; sent = sent }))
  after_claim (err e, t) sent h = inl h
  after_claim (ok records, t) sent h =
      poll_all-Kept records (record { repo_state = t; sent = sent }) h.1 (inl h.0)

  -- A poll loses no event if its transport is faithful, whatever the database and the transport
  -- answer: if the outbox has a row for the id, and its rows hold the payload, then after the poll
  -- it still has a row for the id, or the transport has the event that the payload encodes.
  pub poll_no_loss :
      (w : World Table)
      → contains (ids w.repo_state) id ≡ true
      → has_payload id payload w.repo_state ≡ true
      → Kept (poll json p round w)
  unfolding poll
  poll_no_loss w h q =
      after_claim (round.repo.get_pending_records p.batch_size w.repo_state) w.sent (
        get_pending-Claimed id payload db.on_query db.locked db.query_time p.batch_size w.repo_state
          h q)
