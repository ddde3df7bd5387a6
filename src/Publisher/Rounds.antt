-- ===== src/Publisher/Rounds.antt =====
-- How fast the outbox empties while the database and the stream answer.
use shared_events.Prelude.{
  ℕ-Eq, Text-Eq, Bool, Bool-cases, List, Text, [], all_of, arith, count_by, false, inl, inr, leb,
  length, map, not, refl, true, ◌*◌, ◌+◌, ◌-◌, ◌==◌, ◌||◌, ◌∷◌, ◌≡◌, ◌≤◌, ◌⊎◌,
}
use shared_events.Event.{Uuid, Time, UuidCodec, JsonCodec}
use shared_events.Outbox.Repository.{Table, is_eligible, processing_claim_stale_after}
use shared_events.Outbox.Repository.Batches.{free, length-others-candidates, none_free-others}
use shared_events.Publisher.{Publisher, World, Signal, tick, process_batch, loop}
use shared_events.Publisher.Calm.{calm, all_served, all-others, served-others, process_batch-calm}

-- The rows that GetPendingRecords may claim at the cutoff, or at any later one.
abbrev pub none_due : Time → Table → Bool
none_due since t = all_of (λ r. not (is_eligible since r)) t

-- Every row of the id is PENDING, or PROCESSING since a time before the cutoff.
abbrev pub all_due : Time → Uuid → Table → Bool
all_due since id t = all_of (λ r. not (r.id == id) || is_eligible since r) t

-- Each tick comes more than two minutes after the time.
abbrev pub is_after : Time → Time → Bool
is_after since now = leb since (now - processing_claim_stale_after)

none_due_of_free :
    (since cutoff : Time) (t : Table)
    → since ≤ cutoff
    → all_of (λ r. not (free (λ id. false) cutoff 0 r)) t ≡ true
    → none_due since t ≡ true
unfolding is_eligible
none_due_of_free since cutoff [] l h = refl
none_due_of_free since cutoff (r ∷ t) l h =
    ground (arith, none_due_of_free since cutoff t, r.status, r.last_attempt_at)

-- The ticks of the ticker, at their times.
abbrev pub ticks : (Uuid → Text) → List Time → List (Signal Table)
ticks print times = map (λ now. tick (calm print now)) times

module _ (uuid : UuidCodec) (json : JsonCodec) (publisher : Publisher) (print : Uuid → Text)
    (since : Time) where
  pub served-process_batch :
      (now : Time) (w : World Table)
      → all_served json publisher w.repo_state ≡ true
      → all_served json publisher
          (process_batch uuid json publisher (calm print now) w).1.repo_state
        ≡ true
  served-process_batch now w h =
      rw (process_batch-calm uuid json publisher print now w h)
        (served-others json publisher _ w.repo_state h)

  none_due-process_batch :
      (now : Time) (w : World Table)
      → all_served json publisher w.repo_state ≡ true
      → none_due since w.repo_state ≡ true
      → none_due since (process_batch uuid json publisher (calm print now) w).1.repo_state ≡ true
  none_due-process_batch now w h n =
      rw (process_batch-calm uuid json publisher print now w h) (all-others _ _ w.repo_state n)

  -- A round leaves no pending row, or it removes a whole batch.
  round_progress :
      (now : Time) (w : World Table)
      → is_after since now ≡ true
      → all_served json publisher w.repo_state ≡ true
      → let t' = (process_batch uuid json publisher (calm print now) w).1.repo_state in
        (none_due since t' ≡ true) ⊎ (length t' + publisher.batch_size ≤ length w.repo_state)
  round_progress now w a h =
      let t = w.repo_state in
      let cutoff = now - processing_claim_stale_after in
      let n = count_by (free (λ id. false) cutoff publisher.batch_size) t in
      rw (process_batch-calm uuid json publisher print now w h)
        (elim (Bool-cases (leb n publisher.batch_size)) [
          | inl room ↦ inl (
              none_due_of_free since cutoff _ (ground (arith, a)) (
                none_free-others (λ id. false) cutoff publisher.batch_size t
                  (ground (arith, room))))
          | inr full ↦ inr (
              ground
                (arith, full, length-others-candidates (λ id. false) cutoff publisher.batch_size t))
        ])

  loop_idle :
      (times : List Time) (w : World Table)
      → all_served json publisher w.repo_state ≡ true
      → none_due since w.repo_state ≡ true
      → none_due since (loop uuid json publisher (ticks print times) w).repo_state ≡ true
  unfolding loop
  loop_idle [] w h n = n
  loop_idle (now ∷ times) w h n =
      loop_idle times (process_batch uuid json publisher (calm print now) w).1
        (served-process_batch now w h) (none_due-process_batch now w h n)

  empty_idle : (t : Table) → length t ≤ 0 → none_due since t ≡ true
  empty_idle [] h = refl
  empty_idle (r ∷ t) h = ground arith

  pub loop-none_due :
      (times : List Time) (w : World Table)
      → all_of (is_after since) times ≡ true
      → all_served json publisher w.repo_state ≡ true
      → length w.repo_state ≤ length times * publisher.batch_size
      → none_due since (loop uuid json publisher (ticks print times) w).repo_state ≡ true
  unfolding loop
  loop-none_due [] w a h l = empty_idle w.repo_state (omega (arith, l))
  loop-none_due (now ∷ times) w a h l =
      let w' = (process_batch uuid json publisher (calm print now) w).1 in
      let h' = served-process_batch now w h in
      elim (round_progress now w (ground (arith, a)) h) [
        | inl idle ↦ loop_idle times w' h' idle
        | inr less ↦ loop-none_due times w' (ground (arith, a)) h' (omega (arith, less, l))
      ]
