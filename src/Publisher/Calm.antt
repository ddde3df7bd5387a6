-- ===== src/Publisher/Calm.antt =====
-- The publisher with a database and a stream that answer: what a round leaves in the outbox.
use shared_events.Prelude.{
  ℕ-Eq, Text-Eq, Bool, Bytes, List, Result, Text, [], all_of, ap, arith, contains, err, false, leb,
  not, ok, refl, sym, true, ◌&&◌, ◌-◌, ◌==◌, ◌||◌, ◌∙◌, ◌∷◌, ◌≡◌,
}
use shared_events.Event.{Uuid, Time, Event, UuidCodec, JsonCodec, to_json, from_json}
use shared_events.Outbox.{OutboxRecord, max_outbox_attempts}
use shared_events.Outbox.Repository.{
  Table, ids, candidates, claim, claim_all, returning, delete, mark_as_published,
  get_pending_records, done, rows, processing_claim_stale_after,
}
use shared_events.Outbox.Repository.Claims.Attempts.{is_failed, all_parked, parked-not_candidate}
use shared_events.Outbox.Repository.Batches.{others, others-returning, candidates_listed}
use shared_events.Outbox.Store.{Db, sql_repository}
use shared_events.Publisher.{
  Publisher, acked, World, Round, settle, publish_encoded, publish_decoded, publish_record,
  publish_all, process_batch,
}

-- All statements succeed and no other transaction holds a row.
abbrev pub calm_db : (Uuid → Text) → Time → Db
calm_db print now = record {
  on_create = done;
  on_query = rows;
  on_publish = λ id. done;
  on_fail = λ id. done;
  locked = λ id. false;
  query_time = now;
  print = print;
}

abbrev pub calm : (Uuid → Text) → Time → Round Table
calm print now = record {
  repo = sql_repository (calm_db print now);
  publish_msg = λ msg. acked;
  now = λ id. now;
}

abbrev is_ok {ℓ} : {A : Type ℓ} → Result A → Bool
is_ok (ok a) = true
is_ok (err e) = false

abbrev encodes : JsonCodec → Result Event → Bool
encodes json (ok e) = is_ok (to_json json e)
encodes json (err e) = false

-- The payload is an event, and the attempts are not used up.
abbrev pub is_publishable : JsonCodec → Publisher → OutboxRecord → Bool
is_publishable json publisher r =
    encodes json (from_json json r.payload) && not (leb publisher.max_attempts r.attempts)

-- Every row can be published, or is parked: FAILED with its attempts used up.
abbrev pub is_served : JsonCodec → Publisher → Table → OutboxRecord → Bool
is_served json publisher t r = is_publishable json publisher r || all_parked r.id t

abbrev pub all_served : JsonCodec → Publisher → Table → Bool
all_served json publisher t = all_of (is_served json publisher t) t

pub all-others :
    (p : OutboxRecord → Bool) (chosen : List Uuid) (t : Table)
    → all_of p t ≡ true
    → all_of p (others chosen t) ≡ true
all-others p chosen [] h = refl
all-others p chosen (r ∷ t) h = ground (arith, all-others p chosen t)

-- A claimed row is not a parked one.
served-chosen :
    (json : JsonCodec) (publisher : Publisher) (t : Table) (chosen : List Uuid)
    → ((id : Uuid) → all_parked id t ≡ true → contains chosen id ≡ false)
    → (batch : Table) → all_of (is_served json publisher t) batch ≡ true
    → all_of (λ r. not (contains chosen r.id) || is_publishable json publisher r) batch ≡ true
served-chosen json publisher t chosen p [] h = refl
served-chosen json publisher t chosen p (r ∷ batch) h =
    ground (arith, served-chosen json publisher t chosen p batch, p r.id)

still_served :
    (json : JsonCodec) (publisher : Publisher) (t : Table) (chosen : List Uuid) (batch : Table)
    → all_of (is_served json publisher t) batch ≡ true
    → all_of (is_served json publisher (others chosen t)) batch ≡ true
still_served json publisher t chosen [] h = refl
still_served json publisher t chosen (r ∷ batch) h = ground (
  arith,
  still_served json publisher t chosen batch,
  all-others (λ s. not (s.id == r.id) || (is_failed s.status && leb max_outbox_attempts s.attempts))
      chosen t,
)

-- The rows that a batch leaves.
pub served-others :
    (json : JsonCodec) (publisher : Publisher) (chosen : List Uuid) (t : Table)
    → all_served json publisher t ≡ true
    → all_served json publisher (others chosen t) ≡ true
served-others json publisher chosen t h =
    all-others (is_served json publisher (others chosen t)) chosen t
      (still_served json publisher t chosen t h)

module _ (uuid : UuidCodec) (json : JsonCodec) (publisher : Publisher) (print : Uuid → Text)
    (now : Time) where
  encoded-calm :
      (r : OutboxRecord) (e : Event) (x : Result Bytes) (w : World Table)
      → is_ok x ≡ true
      → (publish_encoded uuid json publisher (calm print now) r e x w).1.repo_state
        ≡ delete r.id w.repo_state
  unfolding publish_encoded settle mark_as_published
  encoded-calm r e (ok body) w h = refl
  encoded-calm r e (err m) w h = ground arith

  decoded-calm :
      (r : OutboxRecord) (x : Result Event) (w : World Table)
      → encodes json x ≡ true
      → leb publisher.max_attempts r.attempts ≡ false
      → (publish_decoded uuid json publisher (calm print now) r x w).1.repo_state
        ≡ delete r.id w.repo_state
  unfolding publish_decoded
  decoded-calm r (ok e) w h n = rw n (encoded-calm r e (to_json json e) w h)
  decoded-calm r (err m) w h n = ground arith

  others-delete :
      (id : Uuid) (chosen : List Uuid) (t : Table)
      → others chosen (delete id t) ≡ others (id ∷ chosen) t
  unfolding delete
  others-delete id chosen [] = refl
  others-delete id chosen (r ∷ t) = ground (arith, others-delete id chosen t)

  others_none : (t : Table) → others [] t ≡ t
  others_none [] = refl
  others_none (r ∷ t) = ap (λ l. r ∷ l) (others_none t)

  all-calm :
      (records : List OutboxRecord) (w : World Table)
      → all_of (is_publishable json publisher) records ≡ true
      → (publish_all uuid json publisher (calm print now) records w).repo_state
        ≡ others (ids records) w.repo_state
  unfolding publish_all publish_record
  all-calm [] w h = sym (others_none w.repo_state)
  all-calm (r ∷ rest) w h =
      all-calm rest (publish_record uuid json publisher (calm print now) r w).1 (ground arith)
      ∙ ap (others (ids rest))
          (decoded-calm r (from_json json r.payload) w (ground (arith, h)) (ground (arith, h)))
      ∙ others-delete r.id (ids rest) w.repo_state

  publishable-returning :
      (chosen : List Uuid) (t : Table)
      → all_of (λ r. not (contains chosen r.id) || is_publishable json publisher r) t ≡ true
      → all_of (is_publishable json publisher) (returning chosen (claim_all now chosen t)) ≡ true
  unfolding returning claim_all claim
  publishable-returning chosen [] h = refl
  publishable-returning chosen (r ∷ t) h = ground (arith, publishable-returning chosen t)

  abbrev pub chosen_of : Table → List Uuid
  chosen_of t = candidates (λ id. false) (now - processing_claim_stale_after) publisher.batch_size t

  pub process_batch-calm :
      (w : World Table)
      → all_served json publisher w.repo_state ≡ true
      → (process_batch uuid json publisher (calm print now) w).1.repo_state
        ≡ others (chosen_of w.repo_state) w.repo_state
  unfolding process_batch get_pending_records
  process_batch-calm w h =
      let t = w.repo_state in
      let chosen = chosen_of t in
      all-calm (returning chosen (claim_all now chosen t))
        (record { repo_state = claim_all now chosen t; sent = w.sent })
        (publishable-returning chosen t (
          served-chosen json publisher t chosen
            (λ id p.
              parked-not_candidate (λ i. false) id (now - processing_claim_stale_after)
                publisher.batch_size t p)
            t h))
      ∙ others-returning now chosen t (
          candidates_listed (λ id. false) (now - processing_claim_stale_after) publisher.batch_size
            t)
