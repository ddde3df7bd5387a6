-- ===== src/Poller/Unconnected.antt =====
-- An adapter without a connection reports success, and the poller deletes the records.
use shared_events.Prelude.{
  ℕ-Eq, Text-Eq, Bool-cases, Bytes, List, Result, Text, [], arith, contains, err, false, inl, inr,
  none, ok, refl, sym, text_eq_iff, true, ◌==◌, ◌∙◌, ◌∷◌, ◌≡◌, ◌⊎◌,
}
use mathlib.Core.Path.{subst}
use shared_events.Event.{Uuid, Time, Event, UuidCodec, JsonCodec, from_json}
use shared_events.Outbox.{OutboxRecord}
use shared_events.Outbox.Repository.{
  Table, ids, ExecReply, done, delete, mark_as_published, get_pending_records,
}
use shared_events.Outbox.Repository.Payloads.{
  has_payload, ids-mark_as_failed, Claimed, get_pending-Claimed,
}
use shared_events.Outbox.Repository.Claims.{ids_of}
use shared_events.Outbox.Store.{Db, sql_repository}
use shared_events.Publisher.{Sent, World}
use shared_events.Adapters.{jet_stream_adapter}
use shared_events.Poller.{
  OutboxPoller, Round, after_publish, poll_decoded, poll_all, poll_claimed, poll,
}

delete-gone : (id : Uuid) (t : Table) → contains (ids (delete id t)) id ≡ false
unfolding delete
delete-gone id [] = refl
delete-gone id (r ∷ t) = ground (arith, delete-gone id t)

delete-absent :
    (id id' : Uuid) (t : Table)
    → contains (ids t) id ≡ false
    → contains (ids (delete id' t)) id ≡ false
unfolding delete
delete-absent id id' [] h = refl
delete-absent id id' (r ∷ t) h = ground (arith, delete-absent id id' t)

mark_as_published-absent :
    (print : Uuid → Text) (reply : ExecReply) (id id' : Uuid) (t : Table)
    → contains (ids t) id ≡ false
    → contains (ids (mark_as_published print reply id' t).1) id ≡ false
unfolding mark_as_published
mark_as_published-absent print reply id id' t h = ground (arith, delete-absent id id' t h)

mark_as_published-gone :
    (print : Uuid → Text) (reply : ExecReply) (id : Uuid) (t : Table)
    → reply ≡ done
    → contains (ids (mark_as_published print reply id t).1) id ≡ false
unfolding mark_as_published
mark_as_published-gone print reply id t h = ground (arith, delete-gone id t)

module _ (json : JsonCodec) (p : OutboxPoller) (db : Db) (uuid : UuidCodec) (now : Uuid → Time)
    (id : Uuid) (payload : Bytes) (event : Event) where
  -- The poller with a JetStreamAdapter that has no JetStream.
  abbrev unconnected : Round Table
  unconnected = record {
    repo = sql_repository db;
    publisher = jet_stream_adapter uuid json none;
    now = now;
  }

  -- The record is gone, and nothing was sent.
  abbrev IsGone : Sent → World Table → Type 0
  IsGone sent w = (contains (ids w.repo_state) id ≡ false) × (w.sent ≡ sent)

  poll_decoded-sent :
      (r : OutboxRecord) (x : Result Event) (w : World Table)
      → (poll_decoded json p unconnected r x w).sent ≡ w.sent
  unfolding poll_decoded after_publish jet_stream_adapter
  poll_decoded-sent r (err e) w = refl
  poll_decoded-sent r (ok e) w = refl

  poll_decoded-absent :
      (r : OutboxRecord) (x : Result Event) (w : World Table)
      → contains (ids w.repo_state) id ≡ false
      → contains (ids (poll_decoded json p unconnected r x w).repo_state) id ≡ false
  unfolding poll_decoded after_publish jet_stream_adapter
  poll_decoded-absent r (err e) w h =
      rw (ids-mark_as_failed (db.on_fail r.id) r.id e (now r.id) w.repo_state) h
  poll_decoded-absent r (ok e) w h =
      mark_as_published-absent db.print (db.on_publish r.id) id r.id w.repo_state h

  poll_decoded-gone :
      (r : OutboxRecord) (x : Result Event) (w : World Table)
      → r.id ≡ id
      → db.on_publish id ≡ done
      → x ≡ ok event
      → contains (ids (poll_decoded json p unconnected r x w).repo_state) id ≡ false
  unfolding poll_decoded after_publish jet_stream_adapter
  poll_decoded-gone r (err e) w i d h = cc
  poll_decoded-gone r (ok e) w i d h =
      subst
        (λ j.
          contains (ids (mark_as_published db.print (db.on_publish j) j w.repo_state).1) id ≡ false)
        (sym i) (mark_as_published-gone db.print (db.on_publish id) id w.repo_state d)

  poll_all-IsGone :
      (records : List OutboxRecord) (w : World Table) (sent : Sent)
      → db.on_publish id ≡ done
      → from_json json payload ≡ ok event
      → has_payload id payload records ≡ true
      → w.sent ≡ sent
      → (contains (ids w.repo_state) id ≡ false) ⊎ (contains (ids records) id ≡ true)
      → IsGone sent (poll_all json p unconnected records w)
  unfolding poll_all
  poll_all-IsGone [] w sent d j h s (inl g) = (g, s)
  poll_all-IsGone [] w sent d j h s (inr c) = cc
  poll_all-IsGone (r ∷ rest) w sent d j h s g =
      let x = from_json json r.payload in
      let w' = poll_decoded json p unconnected r x w in
      poll_all-IsGone rest w' sent d j (ground arith) (poll_decoded-sent r x w ∙ s)
        (elim (Bool-cases (r.id == id)) [
          | inl same ↦
              let e : r.payload ≡ payload = (text_eq_iff r.payload payload).0 (ground arith) in
              inl (poll_decoded-gone r x w (ground arith) d (rw e j))
          | inr differs ↦ elim g [
            | inl gone ↦ inl (poll_decoded-absent r x w gone)
            | inr c ↦ inr (ground arith)
          ]
        ])

  after_claim :
      (c : Result (List OutboxRecord) × Table) (sent : Sent)
      → db.on_publish id ≡ done
      → from_json json payload ≡ ok event
      → Claimed id payload c
      → contains (ids_of c.0) id ≡ true
      → IsGone sent (poll_claimed json p unconnected c.0 (record { repo_state = c.1; sent = sent }))
  after_claim (err e, t) sent d j h g = cc
  after_claim (ok records, t) sent d j h g =
      poll_all-IsGone records (record { repo_state = t; sent = sent }) sent d j h.1 refl (inr g)

  -- With a JetStreamAdapter that has no JetStream, a poll that is handed a record whose payload
  -- decodes deletes its row, if the database carries the deletion out, though nothing was sent: the
  -- event is lost.
  pub unconnected_loses :
      (w : World Table)
      → contains (ids w.repo_state) id ≡ true
      → has_payload id payload w.repo_state ≡ true
      → from_json json payload ≡ ok event
      → contains
          (ids_of
            (get_pending_records db.on_query db.locked db.query_time p.batch_size w.repo_state).0)
          id
        ≡ true
      → db.on_publish id ≡ done
      → (contains (ids (poll json p unconnected w).repo_state) id ≡ false)
        × ((poll json p unconnected w).sent ≡ w.sent)
  unfolding poll
  unconnected_loses w h q j c d =
      after_claim (unconnected.repo.get_pending_records p.batch_size w.repo_state) w.sent d j
        (get_pending-Claimed id payload db.on_query db.locked db.query_time p.batch_size
          w.repo_state h q)
        c
