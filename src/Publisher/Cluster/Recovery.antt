-- ===== src/Publisher/Cluster/Recovery.antt =====
-- Replicas that have crashed, and one that starts again when the database and the stream answer.
use shared_events.Prelude.{
  ℕ-Eq, Text-Eq, Bytes, List, Text, [], all_of, ap, contains, false, inl, inr, length, map, refl,
  some, true, ℕ, ◌*◌, ◌==◌, ◌∷◌, ◌≡◌, ◌≤◌,
}
use mathlib.Core.Path.{subst}
use shared_events.Event.{Uuid, Time, UuidCodec, JsonCodec}
use shared_events.Outbox.Repository.{Table, ids}
use shared_events.Outbox.Repository.Payloads.{has_payload}
use shared_events.Publisher.{Publisher, acked, World, tick, loop, start}
use shared_events.Publisher.NoLoss.{IsDelivered}
use shared_events.Publisher.Calm.{calm_db, calm, all_served}
use shared_events.Publisher.Rounds.{ticks, all_due, is_after}
use shared_events.Publisher.Drain.{loop_leaves, loop_publishes}
use shared_events.Publisher.Cluster.{idle, Cluster, crashes, moves, started, Reach, here, later}
use shared_events.Publisher.Cluster.NoLoss.{IsSafe, Reach-IsSafe, Reach-Delivered}
use shared_events.Publisher.Cluster.Rounds.{Turn, RanTo, ticks_of, loop_runs, put_self}

abbrev calm_turn : (Uuid → Text) → Time → Turn
calm_turn print now = record { db = calm_db print now; answers = λ msg. acked; now = λ id. now }

module _ (uuid : UuidCodec) (json : JsonCodec) (publisher : Publisher) (print : Uuid → Text) where
  calm_ticks :
      (times : List Time)
      → ticks_of uuid json publisher (map (calm_turn print) times) ≡ ticks print times
  calm_ticks [] = refl
  calm_ticks (now ∷ times) = ap (λ l. tick (calm print now) ∷ l) (calm_ticks times)

  restart_runs :
      (i : ℕ) (times : List Time) (s : Cluster)
      → RanTo uuid json publisher s i (loop uuid json publisher (ticks print times) s.shared)
  restart_runs i times s =
      subst (λ l. RanTo uuid json publisher s i (loop uuid json publisher l s.shared))
        (calm_ticks times)
        (loop_runs uuid json publisher i (map (calm_turn print) times) s _
          (later here (moves i crashes)) (put_self uuid json publisher i idle s.worker))

  module _ (since : Time) (id : Uuid) (payload : Bytes) where
    restart_publishes :
        (i : ℕ) (times : List Time) (s : Cluster)
        → all_of (is_after since) times ≡ true
        → all_served json publisher s.shared.repo_state ≡ true
        → length s.shared.repo_state ≤ length times * publisher.batch_size
        → all_due since id s.shared.repo_state ≡ true
        → IsSafe id payload uuid json publisher s
        → let w = loop uuid json publisher (ticks print times) s.shared in
          (contains (ids w.repo_state) id ≡ false) × IsDelivered uuid json payload w.sent
    restart_publishes i times s a h l q (inl held) =
        let (c, p, b) = held i in
        loop_publishes uuid json publisher print since id payload times s.shared a h l c p q
    restart_publishes i times s a h l q (inr d) =
        let (s', run, end, free) = restart_runs i times s in
        (
          loop_leaves uuid json publisher print since id payload times s.shared a h l q,
          subst (λ w. IsDelivered uuid json payload w.sent) end
              (Reach-Delivered id payload uuid json publisher run d),
        )

    -- A crash does not keep an event in the outbox. Replicas publish from one table, in whatever
    -- order their calls come, whatever is answered to them and whichever crash. From the state that
    -- they have reached, one of them can be restarted and run Start while the database and the
    -- stream answer; after as many ticks as there are batches in the table then, the event's row
    -- has left the outbox, and the stream has the message of the event that its payload encodes.
    -- For an id of which the outbox had a row at first, and whose rows held the payload; for a
    -- reached state in which the rows of the id are PENDING, or claimed more than two minutes
    -- before the ticks, and in which each row has an event for payload and attempts that are not
    -- used up, or its id is parked; and with an interval that is not 0.
    pub restart_recovers :
        (i : ℕ) (times : List Time) (c : World Table) (s : Cluster)
        → (publisher.poll_interval == 0) ≡ false
        → all_of (is_after since) times ≡ true
        → Reach uuid json publisher (started c) s
        → contains (ids c.repo_state) id ≡ true
        → has_payload id payload c.repo_state ≡ true
        → all_served json publisher s.shared.repo_state ≡ true
        → length s.shared.repo_state ≤ length times * publisher.batch_size
        → all_due since id s.shared.repo_state ≡ true
        → (w : World Table) × (start uuid json publisher (ticks print times) s.shared ≡ some w)
          × RanTo uuid json publisher s i w
          × (contains (ids w.repo_state) id ≡ false)
          × IsDelivered uuid json payload w.sent
    unfolding start
    restart_recovers i times c s z a r k p h l q =
        let (gone, d) =
          restart_publishes i times s a h l q
            (Reach-IsSafe id payload uuid json publisher r (inl (λ j. (k, p, refl)))) in
        (
          loop uuid json publisher (ticks print times) s.shared,
          rw z refl,
          restart_runs i times s,
          gone,
          d,
        )
