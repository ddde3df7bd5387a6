-- ===== src/Publisher/Cluster/NoLoss.antt =====
-- No event is lost, however the replicas interleave and crash.
use shared_events.Prelude.{
  ℕ-Eq, Text-Eq, Bytes, List, Result, Text, arith, contains, err, inl, inr, none, ok, refl, some,
  true, ℕ, ◌&&◌, ◌∷◌, ◌≡◌, ◌⊎◌,
}
use mathlib.Core.Path.{subst}
use shared_events.Event.{Uuid, Time, UuidCodec, JsonCodec, from_json}
use shared_events.Event.Headers.{NatsMsg}
use shared_events.Outbox.{OutboxRecord}
use shared_events.Outbox.Repository.{Table, ids, get_pending_records}
use shared_events.Outbox.Repository.Payloads.{
  has_payload, Claimed, get_pending-Claimed, has_payload-get_pending,
}
use shared_events.Outbox.Store.{Db}
use shared_events.Publisher.{Publisher, Answer, Sent, World}
use shared_events.Publisher.NoLoss.{IsDelivered}
use shared_events.Publisher.Cluster.{
  Worker, Mark, marked, attempt, idle, Move, claims, claim_fails, attempts, marks, crashes, Cluster,
  put, started, Step, moves, writes, Reach, here, later,
}
use shared_events.Publisher.Cluster.Attempts.{
  is_safe, is_kept, create-contains, create-has_payload, marked-contains, marked-has_payload,
  decoded-Attempted, decoded-Delivered,
}

module _ (id : Uuid) (payload : Bytes) (uuid : UuidCodec) (json : JsonCodec)
    (publisher : Publisher) where
  -- The row is there, and the replica is not about to delete it.
  abbrev pub Held : Table → Worker → Type 0
  Held t w =
      (contains (ids t) id ≡ true)
      × (has_payload id payload t ≡ true)
      × (is_safe id payload w ≡ true)

  Claimed-Held :
      (x : Result (List OutboxRecord) × Table) (records : List OutboxRecord) (t : Table)
      → Claimed id payload x
      → has_payload id payload x.1 ≡ true
      → x ≡ (ok records, t)
      → Held t (record { batch = records; marking = none })
  Claimed-Held (err e, t') records t c p q = cc
  Claimed-Held (ok records', t') records t c p q = ground (arith, c, p, q)

  unclaimed-Held :
      (x : Result (List OutboxRecord) × Table) (e : Text) (t : Table)
      → Claimed id payload x
      → has_payload id payload x.1 ≡ true
      → x ≡ (err e, t)
      → Held t idle
  unclaimed-Held (err e', t') e t c p q = ground (arith, c, p, q)
  unclaimed-Held (ok records, t') e t c p q = cc

  attempt-Held :
      (t : Table) (sent : Sent) (answers : NatsMsg → Answer) (r : OutboxRecord)
      (rest : List OutboxRecord)
      → Held t (record { batch = r ∷ rest; marking = none })
      → let a = attempt uuid json publisher answers r sent in
        Held t (record { batch = rest; marking = some (r.id, a.0) })
        ⊎ IsDelivered uuid json payload a.1
  unfolding attempt
  attempt-Held t sent answers r rest (h, p, b) =
      elim (decoded-Attempted id payload uuid json publisher answers r (from_json json r.payload)
        sent (ground arith) refl) [ inl kept ↦ inl (h, p, ground (arith, kept, b)) | inr d ↦ inr d ]

  marked-Held :
      (db : Db) (at : Time) (i : Uuid) (m : Mark) (batch : List OutboxRecord) (t : Table)
      → Held t (record { batch = batch; marking = some (i, m) })
      → Held (marked db at i m t) (record { batch = batch; marking = none })
  marked-Held db at i m batch t (h, p, b) = (
    marked-contains id payload db at i m t (ground arith) h,
    marked-has_payload id payload db at i m t p,
    ground arith,
  )

  Move-Held :
      {c c' : World Table} {w w' : Worker}
      → Move uuid json publisher c w c' w'
      → Held c.repo_state w
      → Held c'.repo_state w' ⊎ IsDelivered uuid json payload c'.sent
  Move-Held {c} (claims db records t i q) (h, p, b) = inl (
      Claimed-Held
        (get_pending_records db.on_query db.locked db.query_time publisher.batch_size c.repo_state)
        records t
        (get_pending-Claimed id payload db.on_query db.locked db.query_time publisher.batch_size
          c.repo_state h p)
        (has_payload-get_pending id payload db.on_query db.locked db.query_time publisher.batch_size
          c.repo_state p)
        q)
  Move-Held {c} (claim_fails db e t i q) (h, p, b) = inl (
      unclaimed-Held
        (get_pending_records db.on_query db.locked db.query_time publisher.batch_size c.repo_state)
        e t
        (get_pending-Claimed id payload db.on_query db.locked db.query_time publisher.batch_size
          c.repo_state h p)
        (has_payload-get_pending id payload db.on_query db.locked db.query_time publisher.batch_size
          c.repo_state p)
        q)
  Move-Held {c} (attempts answers r rest q) h =
      attempt-Held c.repo_state c.sent answers r rest (subst (Held c.repo_state) q h)
  Move-Held {c} {w = w} (marks db at i m q) (h, p, b) = inl (
      marked-Held db at i m w.batch c.repo_state
        (h, p, subst (λ x. has_payload id payload w.batch && is_kept id payload x ≡ true) q b))
  Move-Held crashes (h, p, b) = inl (h, p, refl)

  Move-Delivered :
      {c c' : World Table} {w w' : Worker}
      → Move uuid json publisher c w c' w'
      → IsDelivered uuid json payload c.sent
      → IsDelivered uuid json payload c'.sent
  unfolding attempt
  Move-Delivered (claims db records t i q) d = d
  Move-Delivered (claim_fails db e t i q) d = d
  Move-Delivered {c} (attempts answers r rest q) d =
      decoded-Delivered id payload uuid json publisher answers r (from_json json r.payload) c.sent d
  Move-Delivered (marks db at i m q) d = d
  Move-Delivered crashes d = d

  abbrev pub IsSafe : Cluster → Type 0
  IsSafe s =
      ((j : ℕ) → Held s.shared.repo_state (s.worker j))
      ⊎ IsDelivered uuid json payload s.shared.sent

  -- The other replicas, after a call of one.
  others-Held :
      (i j : ℕ) (w : Worker) (worker : ℕ → Worker) (t : Table)
      → Held t w
      → is_safe id payload (worker j) ≡ true
      → Held t (put i w worker j)
  others-Held i j w worker t (h, p, b) g = (h, p, ground (arith, b, g))

  Step-IsSafe : {s s' : Cluster} → Step uuid json publisher s s' → IsSafe s → IsSafe s'
  Step-IsSafe {s} (moves i {c} {w} m) (inl h) = elim (Move-Held m (h i)) [
    | inl held ↦ inl (λ j. others-Held i j w s.worker c.repo_state held (h j).2)
    | inr d ↦ inr d
  ]
  Step-IsSafe (moves i m) (inr d) = inr (Move-Delivered m d)
  Step-IsSafe {s} (writes reply r) (inl h) = inl (λ j.
      let (c, p, b) = h j in
      (
        create-contains id payload reply r s.shared.repo_state c,
        create-has_payload id payload reply r s.shared.repo_state c p,
        b,
      ))
  Step-IsSafe (writes reply r) (inr d) = inr d

  pub Reach-IsSafe : {s s' : Cluster} → Reach uuid json publisher s s' → IsSafe s → IsSafe s'
  Reach-IsSafe here k = k
  Reach-IsSafe (later r m) k = Step-IsSafe m (Reach-IsSafe r k)

  pub Reach-Delivered :
      {s s' : Cluster}
      → Reach uuid json publisher s s'
      → IsDelivered uuid json payload s.shared.sent
      → IsDelivered uuid json payload s'.shared.sent
  Reach-Delivered here d = d
  Reach-Delivered (later r (moves i m)) d = Move-Delivered m (Reach-Delivered r d)
  Reach-Delivered (later r (writes reply new)) d = Reach-Delivered r d

  -- No event is lost by any number of replicas that publish from one table, in whatever order their
  -- calls come, whatever the database and the stream answer to each, whichever of them crash
  -- between two calls, and whatever rows are written meanwhile: if the outbox has a row for the id,
  -- and its rows hold the payload, then it still has one at every moment after that, or the stream
  -- has the message of the event that the payload encodes.
  pub cluster_no_loss :
      (c : World Table) (s : Cluster)
      → Reach uuid json publisher (started c) s
      → contains (ids c.repo_state) id ≡ true
      → has_payload id payload c.repo_state ≡ true
      → (contains (ids s.shared.repo_state) id ≡ true) ⊎ IsDelivered uuid json payload s.shared.sent
  cluster_no_loss c s r h p = elim (Reach-IsSafe r (inl (λ j. (h, p, refl)))) [
    | inl k ↦ inl (k 0).0
    | inr d ↦ inr d
  ]
