-- ===== src/Publisher/EndToEnd.antt =====
-- From PublishWithOutbox to the stream.
use shared_events.Prelude.{
  ℕ-Eq, Text-Eq, Bytes, List, Result, Text, [], all_of, ap, arith, contains, false, leb, length,
  none, ok, refl, some, sym, text_eq_refl, true, ◌*◌, ◌+◌, ◌==◌, ◌∙◌, ◌∷◌, ◌≡◌, ◌≤◌,
}
use mathlib.Core.Path.{subst}
use shared_events.Event.{Uuid, Time, Event, UuidCodec, JsonCodec, to_json, from_json, subject}
use shared_events.Event.Headers.{set, event_headers}
use shared_events.Event.ReadBack.{ReadsBack}
use shared_events.Outbox.{OutboxRecord, pending_record, publish_with_outbox}
use shared_events.Outbox.Repository.{Table, ids, is_eligible}
use shared_events.Outbox.Repository.Payloads.{has_payload}
use shared_events.Outbox.Store.{Db, sql_repository}
use shared_events.Outbox.Writes.{Written, publish_with_outbox-Written}
use shared_events.Publisher.{Publisher, Sent, World, message, loop, start}
use shared_events.Publisher.NoLoss.{IsStored, IsDelivered}
use shared_events.Publisher.Calm.{is_served, all_served}
use shared_events.Publisher.Rounds.{ticks, all_due, is_after}
use shared_events.Publisher.Drain.{loop_publishes}

any_time : (times : List Time) → all_of (is_after 0) times ≡ true
any_time [] = refl
any_time (now ∷ times) = ground (arith, any_time times)

absent_rows :
    (id : Uuid) (payload : Bytes) (t : Table)
    → contains (ids t) id ≡ false
    → (has_payload id payload t ≡ true) × (all_due 0 id t ≡ true)
absent_rows id payload [] h = (refl, refl)
absent_rows id payload (r ∷ t) h = ground (arith, absent_rows id payload t)

-- A new row does not change what becomes of the others.
served-new :
    (json : JsonCodec) (publisher : Publisher) (new : OutboxRecord) (t rest : Table)
    → contains (ids rest) new.id ≡ false
    → all_of (is_served json publisher t) rest ≡ true
    → all_of (is_served json publisher (new ∷ t)) rest ≡ true
served-new json publisher new t [] n h = refl
served-new json publisher new t (r ∷ rest) n h =
    ground (arith, served-new json publisher new t rest)

-- The stream has the event's message, whose body is the JSON of the event as the outbox read it.
pub record Streamed (uuid : UuidCodec) (json : JsonCodec) (e : Event) (sent : Sent) : Type 0 where
  pub payload : Bytes
  pub body : Bytes
  pub event : Event
  pub stored : to_json json e ≡ ok payload
  pub decoded : from_json json payload ≡ ok event
  pub encoded : to_json json event ≡ ok body
  pub in_stream : IsStored (message uuid e body) sent

pub same_value {ℓ} : {A : Type ℓ} (a b : A) → ◌≡◌ {A = Result A} (ok a) (ok b) → a ≡ b
same_value a b h = ground (arith, h)

-- The subject and the headers are those of the event that was stored.
same_message :
    (uuid : UuidCodec) (json : JsonCodec) (e : Event) (payload body : Bytes)
    (x : ReadsBack json e payload)
    → message uuid x.event body ≡ message uuid e body
unfolding message subject event_headers set
same_message uuid json e payload body x =
    rw x.id (
      rw x.event_type
        (rw x.aggregate_type (rw x.aggregate_id (rw x.tenant_id (rw x.version refl)))))

delivered-Streamed :
    (uuid : UuidCodec) (json : JsonCodec) (e : Event) (payload : Bytes) (sent : Sent)
    → to_json json e ≡ ok payload
    → ReadsBack json e payload
    → IsDelivered uuid json payload sent
    → Streamed uuid json e sent
delivered-Streamed uuid json e payload sent j x d = record {
  payload = payload;
  body = d.body;
  event = d.event;
  stored = j;
  decoded = d.decoded;
  encoded = d.encoded;
  in_stream =
      subst (λ m. IsStored m sent)
        (ap (λ v. message uuid v d.body) (same_value d.event x.event (sym d.decoded ∙ x.decoded))
          ∙ same_message uuid json e payload d.body x)
        d.in_stream;
}

module _ (uuid : UuidCodec) (json : JsonCodec) (publisher : Publisher) (print : Uuid → Text)
    (e : Event) (now : Time) (t : Table) (sent : Sent) (times : List Time) where
  row_published :
      (payload : Bytes)
      → to_json json e ≡ ok payload
      → ReadsBack json e payload
      → leb publisher.max_attempts 0 ≡ false
      → all_served json publisher t ≡ true
      → contains (ids t) e.id ≡ false
      → length t + 1 ≤ length times * publisher.batch_size
      → let w : World Table = record {
        repo_state = pending_record e payload now ∷ t;
        sent = sent;
      } in
        let w' = loop uuid json publisher (ticks print times) w in
        (contains (ids w'.repo_state) e.id ≡ false) × Streamed uuid json e w'.sent
  unfolding pending_record is_eligible
  row_published payload j back m h fresh l =
      let w : World Table = record { repo_state = pending_record e payload now ∷ t; sent = sent } in
      let (p, q) = absent_rows e.id payload t fresh in
      let (gone, d) =
        loop_publishes uuid json publisher print 0 e.id payload times w (any_time times)
          (rw back.decoded (
            rw back.encoded
              (rw m (served-new json publisher (pending_record e payload now) t t fresh h))))
          (ground (arith, l)) (ground arith) (ground (arith, text_eq_refl payload, p))
          (ground (arith, q)) in
      (gone, delivered-Streamed uuid json e payload _ j back d)

  -- The outbox's promise: when PublishWithOutbox has returned no error and the transaction commits,
  -- the event is published. While the database and the stream answer, its row has left the
  -- outbox after as many ticks as there are batches in the table, and the stream has the event's
  -- message, under the event's subject and headers; its body is the JSON of the event as the outbox
  -- read it back. For a JSON codec that reads the event back with its id, types, aggregate, tenant
  -- and version, whatever becomes of its metadata, and can write it again; a publisher that allows
  -- an attempt and whose interval is not 0; and a table whose other rows can be published or are
  -- parked, FAILED with their attempts used up.
  pub publish_with_outbox_publishes :
      (db : Db) (t' : Table)
      → ((payload : Bytes) → to_json json e ≡ ok payload → ReadsBack json e payload)
      → leb publisher.max_attempts 0 ≡ false
      → (publisher.poll_interval == 0) ≡ false
      → all_served json publisher t ≡ true
      → publish_with_outbox json (sql_repository db) e now t ≡ (none, t')
      → length t' ≤ length times * publisher.batch_size
      → (w' : World Table) × (start uuid json publisher
            (ticks print times)
            (record { repo_state = t'; sent = sent })
          ≡ some w')
        × (contains (ids w'.repo_state) e.id ≡ false)
        × Streamed uuid json e w'.sent
  unfolding start pending_record
  publish_with_outbox_publishes db t' back m z h q l =
      let (payload, j, row, fresh, took) =
        subst (λ x. Written json db e now t x) q (publish_with_outbox-Written json db e now t) in
      let (gone, streamed) =
        row_published payload j (back payload j) m h fresh
          (ground (arith, ap length (sym row), l)) in
      rw row (_, rw z refl, gone, streamed)
