-- ===== src/Publisher/Cluster/Rounds.antt =====
-- The publisher's code in the steps of the cluster.
use shared_events.Prelude.{
  ℕ-Eq, Text-Eq, Bool-cases, Bytes, List, Result, [], ap, arith, err, false, inl, inr, leb, map,
  none, ok, refl, some, sym, ℕ, ◌==◌, ◌∙◌, ◌∷◌, ◌≡◌,
}
use shared_events.Event.{Uuid, Time, Event, UuidCodec, JsonCodec, to_json, from_json}
use shared_events.Event.Headers.{NatsMsg}
use shared_events.Outbox.{OutboxRecord}
use shared_events.Outbox.Repository.{Table, get_pending_records}
use shared_events.Outbox.Store.{Db, sql_repository}
use shared_events.Publisher.{
  Publisher, Answer, Sent, acked, rejected, unacked, World, Round, Signal, tick, message,
  mark_failed, settle, publish_encoded, publish_decoded, publish_record, publish_all,
  process_claimed, process_batch, loop, start,
}
use shared_events.Publisher.Cluster.{
  Worker, Mark, answered, attempt_encoded, attempt_decoded, attempt, marked, idle, claims,
  claim_fails, attempts, marks, Cluster, put, moves, Reach, later,
}

-- What the environment does in one round of a replica.
pub record Turn : Type 0 where
  pub db : Db
  pub answers : NatsMsg → Answer
  pub now : Uuid → Time

abbrev pub round_of : Turn → Round Table
round_of x = record { repo = sql_repository x.db; publish_msg = x.answers; now = x.now }

module _ (uuid : UuidCodec) (json : JsonCodec) (publisher : Publisher) where
  module _ (x : Turn) where
    -- The mark after an attempt.
    abbrev after : Uuid → Mark × Sent → Table → World Table
    after id (m, sent) t = record { repo_state = marked x.db (x.now id) id m t; sent = sent }

    settle_marks :
        (r : OutboxRecord) (msg : NatsMsg) (a : Answer) (w : World Table)
        → (settle uuid json publisher (round_of x) r msg a w).1
          ≡ after r.id (answered msg w.sent a) w.repo_state
    unfolding settle marked
    settle_marks r msg acked w = refl
    settle_marks r msg (rejected e) w = refl
    settle_marks r msg (unacked e) w = refl

    encoded_marks :
        (r : OutboxRecord) (event : Event) (b : Result Bytes) (w : World Table)
        → (publish_encoded uuid json publisher (round_of x) r event b w).1
          ≡ after r.id (attempt_encoded uuid json publisher x.answers event b w.sent) w.repo_state
    unfolding publish_encoded mark_failed marked
    encoded_marks r event (err e) w = refl
    encoded_marks r event (ok body) w =
        settle_marks r (message uuid event body) (x.answers (message uuid event body)) w

    decoded_marks :
        (r : OutboxRecord) (d : Result Event) (w : World Table)
        → (publish_decoded uuid json publisher (round_of x) r d w).1
          ≡ after r.id (attempt_decoded uuid json publisher x.answers r d w.sent) w.repo_state
    unfolding publish_decoded mark_failed marked
    decoded_marks r (err e) w = refl
    decoded_marks r (ok event) w = elim (Bool-cases (leb publisher.max_attempts r.attempts)) [
      | inl spent ↦ rw spent refl
      | inr left ↦ rw left (encoded_marks r event (to_json json event) w)
    ]

    record_marks :
        (r : OutboxRecord) (w : World Table)
        → (publish_record uuid json publisher (round_of x) r w).1
          ≡ after r.id (attempt uuid json publisher x.answers r w.sent) w.repo_state
    unfolding publish_record attempt
    record_marks r w = decoded_marks r (from_json json r.payload) w

  -- A run in which a replica comes to the end of its round with the given table and stream.
  abbrev pub RanTo : Cluster → ℕ → World Table → Type 0
  RanTo s i c =
      (s' : Cluster) × Reach uuid json publisher s s' × (s'.shared ≡ c) × (s'.worker i ≡ idle)

  pub put_self : (i : ℕ) (w : Worker) (worker : ℕ → Worker) → put i w worker i ≡ w
  put_self i w worker = ground arith

  publish_all_runs :
      (i : ℕ) (x : Turn) (records : List OutboxRecord) (s0 s : Cluster)
      → Reach uuid json publisher s0 s
      → s.worker i ≡ record { batch = records; marking = none }
      → RanTo s0 i (publish_all uuid json publisher (round_of x) records s.shared)
  unfolding publish_all
  publish_all_runs i x [] s0 s reach at = (s, reach, refl, at)
  publish_all_runs i x (r ∷ rest) s0 s reach at =
      let a = attempt uuid json publisher x.answers r s.shared.sent in
      let w1 : Worker = record { batch = rest; marking = some (r.id, a.0) } in
      let one = later reach (moves i (attempts x.answers r rest at)) in
      let self = put_self i w1 s.worker in
      let step = marks x.db (x.now r.id) r.id a.0 (ap (λ (w : Worker). w.marking) self) in
      let two = later one (moves i step) in
      let (s', run, end, free) = publish_all_runs i x rest s0 _ two (
        put_self i _ (put i w1 s.worker)
        ∙ ap (λ (w : Worker). record { batch = w.batch; marking = none }) self) in
      (
        s',
        run,
        end
            ∙ ap (publish_all uuid json publisher (round_of x) rest)
                (sym (record_marks x r s.shared)),
        free,
      )

  round_claimed :
      (i : ℕ) (x : Turn) (s0 s : Cluster) (c : Result (List OutboxRecord) × Table)
      → Reach uuid json publisher s0 s
      → s.worker i ≡ idle
      → get_pending_records x.db.on_query x.db.locked x.db.query_time publisher.batch_size
          s.shared.repo_state
        ≡ c
      → RanTo s0 i
          (process_claimed uuid json publisher
            (round_of x)
            c.0
            (record s.shared { repo_state = c.1 })).1
  round_claimed i x s0 s (err e, t) reach at q =
      (_, later reach (moves i (claim_fails x.db e t at q)), refl, put_self i idle s.worker)
  round_claimed i x s0 s (ok records, t) reach at q =
      publish_all_runs i x records s0 _ (later reach (moves i (claims x.db records t at q)))
        (put_self i _ s.worker)

  round_runs :
      (i : ℕ) (x : Turn) (s0 s : Cluster)
      → Reach uuid json publisher s0 s
      → s.worker i ≡ idle
      → RanTo s0 i (process_batch uuid json publisher (round_of x) s.shared).1
  unfolding process_batch
  round_runs i x s0 s reach at = round_claimed i x s0 s _ reach at refl

  abbrev pub ticks_of : List Turn → List (Signal Table)
  ticks_of turns = map (λ x. tick (round_of x)) turns

  pub loop_runs :
      (i : ℕ) (turns : List Turn) (s0 s : Cluster)
      → Reach uuid json publisher s0 s
      → s.worker i ≡ idle
      → RanTo s0 i (loop uuid json publisher (ticks_of turns) s.shared)
  unfolding loop
  loop_runs i [] s0 s reach at = (s, reach, refl, at)
  loop_runs i (x ∷ turns) s0 s reach at =
      let (s1, run, end, free) = round_runs i x s0 s reach at in
      let (s2, runs, ends, frees) = loop_runs i turns s0 s1 run free in
      (s2, runs, ends ∙ ap (loop uuid json publisher (ticks_of turns)) end, frees)

  -- What Start does, round by round and whatever the database and the stream answer in each, the
  -- cluster can do call by call: from a state that it has reached, in which the replica is between
  -- two rounds, it reaches one in which the replica is between two rounds again, and the table and
  -- the stream are those that Start leaves. For an interval that is not 0.
  pub start_runs :
      (i : ℕ) (turns : List Turn) (s0 s : Cluster)
      → (publisher.poll_interval == 0) ≡ false
      → Reach uuid json publisher s0 s
      → s.worker i ≡ idle
      → (c : World Table) × (start uuid json publisher (ticks_of turns) s.shared ≡ some c)
        × RanTo s0 i c
  unfolding start
  start_runs i turns s0 s z reach at =
      let c = loop uuid json publisher (ticks_of turns) s.shared in
      (c, rw z refl, loop_runs i turns s0 s reach at)
