-- ===== src/Publisher/Drain.antt =====
-- The publisher with a database and a stream that answer: what becomes of one record.
use shared_events.Prelude.{
  ℕ-Eq, Text-Eq, Bytes, List, Text, [], all_of, arith, contains, false, inl, inr, length, refl,
  some, true, ◌*◌, ◌-◌, ◌==◌, ◌∷◌, ◌≡◌, ◌≤◌, ◌⊎◌,
}
use shared_events.Event.{Uuid, Time, UuidCodec, JsonCodec}
use shared_events.Outbox.Repository.{
  Table, ids, candidates, claim_all, returning, get_pending_records, processing_claim_stale_after,
}
use shared_events.Outbox.Repository.Payloads.{
  has_payload, has_payload-claim_all, has_payload-returning,
}
use shared_events.Publisher.NoLoss.{IsDelivered, Kept, publish_all-Kept, process_batch_no_loss}
use shared_events.Publisher.{Publisher, acked, World, process_batch, loop, start}
use shared_events.Publisher.Calm.{calm_db, calm, all_served, all-others, process_batch-calm}
use shared_events.Publisher.Rounds.{
  none_due, all_due, is_after, ticks, served-process_batch, loop-none_due,
}

module _ (uuid : UuidCodec) (json : JsonCodec) (publisher : Publisher) (print : Uuid → Text)
    (since : Time) (id : Uuid) (payload : Bytes) where
  -- A round keeps the row or has its message in the stream, also when it is there already.
  process_batch-Kept :
      (now : Time) (w : World Table)
      → has_payload id payload w.repo_state ≡ true
      → Kept uuid json publisher (calm_db print now) (λ msg. acked) (λ id. now) id payload w
      → Kept uuid json publisher
          (calm_db print now)
          (λ msg. acked)
          (λ id. now)
          id
          payload
          (process_batch uuid json publisher (calm print now) w).1
  unfolding process_batch get_pending_records
  process_batch-Kept now w p (inl h) =
      process_batch_no_loss uuid json publisher (calm_db print now) (λ msg. acked) (λ id. now) id
        payload w h p
  process_batch-Kept now w p (inr d) =
      let t = w.repo_state in
      let chosen =
        candidates (λ id. false) (now - processing_claim_stale_after) publisher.batch_size t in
      publish_all-Kept uuid json publisher (calm_db print now) (λ msg. acked) (λ id. now) id payload
        (returning chosen (claim_all now chosen t))
        (record { repo_state = claim_all now chosen t; sent = w.sent })
        (has_payload-returning id payload chosen (claim_all now chosen t)
          (has_payload-claim_all id payload now chosen t p))
        (inr d)

  loop-Kept :
      (times : List Time) (w : World Table)
      → all_served json publisher w.repo_state ≡ true
      → has_payload id payload w.repo_state ≡ true
      → (contains (ids w.repo_state) id ≡ true) ⊎ IsDelivered uuid json payload w.sent
      → let w' = loop uuid json publisher (ticks print times) w in
        (contains (ids w'.repo_state) id ≡ true) ⊎ IsDelivered uuid json payload w'.sent
  unfolding loop
  loop-Kept [] w h p k = k
  loop-Kept (now ∷ times) w h p k =
      loop-Kept times (process_batch uuid json publisher (calm print now) w).1
        (served-process_batch uuid json publisher print since now w h)
        (rw (process_batch-calm uuid json publisher print now w h) (all-others _ _ w.repo_state p))
        (process_batch-Kept now w p k)

  loop-all_due :
      (times : List Time) (w : World Table)
      → all_served json publisher w.repo_state ≡ true
      → all_due since id w.repo_state ≡ true
      → all_due since id (loop uuid json publisher (ticks print times) w).repo_state ≡ true
  unfolding loop
  loop-all_due [] w h p = p
  loop-all_due (now ∷ times) w h p =
      loop-all_due times (process_batch uuid json publisher (calm print now) w).1
        (served-process_batch uuid json publisher print since now w h)
        (rw (process_batch-calm uuid json publisher print now w h) (all-others _ _ w.repo_state p))

  gone :
      (t : Table)
      → all_due since id t ≡ true
      → none_due since t ≡ true
      → contains (ids t) id ≡ false
  gone [] p n = refl
  gone (r ∷ t) p n = ground (arith, gone t)

  pub loop_leaves :
      (times : List Time) (w : World Table)
      → all_of (is_after since) times ≡ true
      → all_served json publisher w.repo_state ≡ true
      → length w.repo_state ≤ length times * publisher.batch_size
      → all_due since id w.repo_state ≡ true
      → contains (ids (loop uuid json publisher (ticks print times) w).repo_state) id ≡ false
  loop_leaves times w a h l q =
      gone (loop uuid json publisher (ticks print times) w).repo_state (loop-all_due times w h q)
        (loop-none_due uuid json publisher print since times w a h l)

  pub loop_publishes :
      (times : List Time) (w : World Table)
      → all_of (is_after since) times ≡ true
      → all_served json publisher w.repo_state ≡ true
      → length w.repo_state ≤ length times * publisher.batch_size
      → contains (ids w.repo_state) id ≡ true
      → has_payload id payload w.repo_state ≡ true
      → all_due since id w.repo_state ≡ true
      → let w' = loop uuid json publisher (ticks print times) w in
        (contains (ids w'.repo_state) id ≡ false) × IsDelivered uuid json payload w'.sent
  loop_publishes times w a h l c p q =
      let w' = loop uuid json publisher (ticks print times) w in
      let left = loop_leaves times w a h l q in
      elim (loop-Kept times w h p (inl c)) [
        | inl still ↦ ground (arith, left, still)
        | inr d ↦ (left, d)
      ]

  -- While the database and the stream answer, every event is published, at a batch for each
  -- round: after as many ticks as there are batches in the table, a record that was PENDING, or
  -- that a replica claimed more than two minutes before the ticks and then crashed, has left the
  -- outbox, and the stream has the message of the event that its payload encodes. For a table
  -- in which the payload of each row is an event and its attempts are not used up, or the rows of
  -- its id are parked, FAILED with their attempts used up; in which the rows of the id are PENDING
  -- or so claimed, and hold the payload; and with an interval that is not 0.
  start_publishes :
      (times : List Time) (w : World Table)
      → (publisher.poll_interval == 0) ≡ false
      → all_of (is_after since) times ≡ true
      → all_served json publisher w.repo_state ≡ true
      → length w.repo_state ≤ length times * publisher.batch_size
      → contains (ids w.repo_state) id ≡ true
      → has_payload id payload w.repo_state ≡ true
      → all_due since id w.repo_state ≡ true
      → (w' : World Table) × (start uuid json publisher (ticks print times) w ≡ some w')
        × (contains (ids w'.repo_state) id ≡ false)
        × IsDelivered uuid json payload w'.sent
  unfolding start
  start_publishes times w z a h l c p q =
      let (left, d) = loop_publishes times w a h l c p q in
      (loop uuid json publisher (ticks print times) w, rw z refl, left, d)
