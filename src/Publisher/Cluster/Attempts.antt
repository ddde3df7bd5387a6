-- ===== src/Publisher/Cluster/Attempts.antt =====
-- What one call of a replica does to a row and to the messages of the stream.
use shared_events.Prelude.{
  ℕ-Eq, Text-Eq, Bool, Bool-cases, Bytes, Option, Result, arith, contains, err, inl, inr, leb, none,
  not, ok, refl, some, text_eq_iff, true, ◌&&◌, ◌==◌, ◌||◌, ◌∙◌, ◌≡◌, ◌⊎◌,
}
use mathlib.Core.Path.{subst}
use shared_events.Event.{Uuid, Time, Event, UuidCodec, JsonCodec, to_json, from_json}
use shared_events.Event.Headers.{NatsMsg}
use shared_events.Outbox.{OutboxRecord}
use shared_events.Outbox.Repository.{Table, ids, ExecReply, create_outbox_record}
use shared_events.Outbox.Repository.Payloads.{
  has_payload, ids-mark_as_failed, contains-mark_as_published, has_payload-mark_as_failed,
  has_payload-mark_as_published,
}
use shared_events.Outbox.Store.{Db}
use shared_events.Publisher.{Publisher, Answer, acked, rejected, unacked, Sent, message}
use shared_events.Publisher.NoLoss.{IsDelivered, IsDelivered-stored}
use shared_events.Publisher.Cluster.{
  Worker, Mark, as_published, as_failed, answered, attempt_encoded, attempt_decoded, marked,
}

module _ (id : Uuid) (payload : Bytes) where
  pub create-contains :
      (reply : ExecReply) (r : OutboxRecord) (t : Table)
      → contains (ids t) id ≡ true
      → contains (ids (create_outbox_record reply r t).1) id ≡ true
  unfolding create_outbox_record
  create-contains reply r t h = ground arith

  pub create-has_payload :
      (reply : ExecReply) (r : OutboxRecord) (t : Table)
      → contains (ids t) id ≡ true
      → has_payload id payload t ≡ true
      → has_payload id payload (create_outbox_record reply r t).1 ≡ true
  unfolding create_outbox_record
  create-has_payload reply r t h p = elim (Bool-cases (r.id == id)) [
    | inl same ↦ ground (arith, same, h, p)
    | inr other ↦ ground (arith, other, h, p)
  ]

  -- The record of the id is not to be marked as published.
  abbrev pub is_kept : Option (Uuid × Mark) → Bool
  is_kept none = true
  is_kept (some (i, as_published)) = not (i == id)
  is_kept (some (i, as_failed m)) = true

  abbrev pub is_safe : Worker → Bool
  is_safe w = has_payload id payload w.batch && is_kept w.marking

  pub marked-contains :
      (db : Db) (at : Time) (i : Uuid) (m : Mark) (t : Table)
      → is_kept (some (i, m)) ≡ true
      → contains (ids t) id ≡ true
      → contains (ids (marked db at i m t)) id ≡ true
  unfolding marked
  marked-contains db at i as_published t k h =
      let other = contains-mark_as_published db.print (db.on_publish i) id i t in
      other (ground arith) ∙ h
  marked-contains db at i (as_failed m) t k h = rw (ids-mark_as_failed (db.on_fail i) i m at t) h

  pub marked-has_payload :
      (db : Db) (at : Time) (i : Uuid) (m : Mark) (t : Table)
      → has_payload id payload t ≡ true
      → has_payload id payload (marked db at i m t) ≡ true
  unfolding marked
  marked-has_payload db at i as_published t h =
      has_payload-mark_as_published id payload db.print (db.on_publish i) i t h
  marked-has_payload db at i (as_failed m) t h =
      has_payload-mark_as_failed id payload (db.on_fail i) i m at t h

  module _ (uuid : UuidCodec) (json : JsonCodec) (publisher : Publisher) where
    abbrev pub Delivered : Sent → Type 0
    Delivered sent = IsDelivered uuid json payload sent

    -- What an attempt leaves: no call that would delete the row, or the message in the stream.
    abbrev pub Attempted : Uuid → Mark × Sent → Type 0
    Attempted i (m, sent) = (is_kept (some (i, m)) ≡ true) ⊎ Delivered sent

    answered-Attempted :
        (r : OutboxRecord) (event : Event) (body : Bytes) (sent : Sent) (a : Answer)
        → (not (r.id == id) || r.payload == payload) ≡ true
        → from_json json r.payload ≡ ok event
        → to_json json event ≡ ok body
        → Attempted r.id (answered (message uuid event body) sent a)
    answered-Attempted r event body sent acked p d b = elim (Bool-cases (r.id == id)) [
      | inl same ↦
          let e : r.payload ≡ payload = (text_eq_iff r.payload payload).0 (ground arith) in
          inr (record {
            event = event;
            body = body;
            decoded = subst (λ x. from_json json x ≡ ok event) e d;
            encoded = b;
            in_stream = inl refl;
          })
      | inr other ↦ inl (ground arith)
    ]
    answered-Attempted r event body sent (rejected e) p d b = inl refl
    answered-Attempted r event body sent (unacked e) p d b = inl refl

    module _ (answers : NatsMsg → Answer) where
      encoded-Attempted :
          (r : OutboxRecord) (event : Event) (x : Result Bytes) (sent : Sent)
          → (not (r.id == id) || r.payload == payload) ≡ true
          → from_json json r.payload ≡ ok event
          → to_json json event ≡ x
          → Attempted r.id (attempt_encoded uuid json publisher answers event x sent)
      encoded-Attempted r event (err e) sent p d b = inl refl
      encoded-Attempted r event (ok body) sent p d b =
          answered-Attempted r event body sent (answers (message uuid event body)) p d b

      pub decoded-Attempted :
          (r : OutboxRecord) (x : Result Event) (sent : Sent)
          → (not (r.id == id) || r.payload == payload) ≡ true
          → from_json json r.payload ≡ x
          → Attempted r.id (attempt_decoded uuid json publisher answers r x sent)
      decoded-Attempted r (err e) sent p d = inl refl
      decoded-Attempted r (ok event) sent p d =
          elim (Bool-cases (leb publisher.max_attempts r.attempts)) [
            | inl spent ↦ rw spent (inl refl)
            | inr left ↦ rw left (encoded-Attempted r event (to_json json event) sent p d refl)
          ]

      answered-Delivered :
          (msg : NatsMsg) (sent : Sent) (a : Answer)
          → Delivered sent
          → Delivered (answered msg sent a).1
      answered-Delivered msg sent acked d = IsDelivered-stored uuid json payload acked msg sent d
      answered-Delivered msg sent (rejected e) d = d
      answered-Delivered msg sent (unacked e) d =
          IsDelivered-stored uuid json payload (unacked e) msg sent d

      encoded-Delivered :
          (event : Event) (x : Result Bytes) (sent : Sent)
          → Delivered sent
          → Delivered (attempt_encoded uuid json publisher answers event x sent).1
      encoded-Delivered event (err e) sent d = d
      encoded-Delivered event (ok body) sent d =
          answered-Delivered (message uuid event body) sent (answers (message uuid event body)) d

      pub decoded-Delivered :
          (r : OutboxRecord) (x : Result Event) (sent : Sent)
          → Delivered sent
          → Delivered (attempt_decoded uuid json publisher answers r x sent).1
      decoded-Delivered r (err e) sent d = d
      decoded-Delivered r (ok event) sent d =
          elim (Bool-cases (leb publisher.max_attempts r.attempts)) [
            | inl spent ↦ rw spent d
            | inr left ↦ rw left (encoded-Delivered event (to_json json event) sent d)
          ]
