-- ===== src/Idempotency.antt =====
-- idempotency.go: the store of processed events, over the table processed_events as a list of rows.
-- One statement is one atomic step, and its reply is an argument, as in Outbox/Repository. The
-- primary key is (event_id, consumer).
pub mod Consumers
mod EndToEnd
pub mod Exact
pub mod Once
pub mod Passes
pub mod Pruned
pub mod Ids
mod Schema
mod Tests
use shared_events.Prelude.{
  ℕ-Eq, Text-Eq, Bool, List, Option, Text, [], any_of, codes, false, if◌then◌else◌, length, ltb,
  none, not, positive_or, some, suc, zero, ℕ, ℤ, ◌&&◌, ◌++◌, ◌+◌, ◌-◌, ◌==◌, ◌∷◌,
}
use shared_events.Event.{Uuid, Time}
use shared_events.Outbox.Repository.{ExecReply, done, refused, lost, uncounted}

pub record Claim : Type 0 where
  pub event_id : Uuid
  pub consumer : Text
  pub processed_at : Time

abbrev pub Claims : Type 0
Claims = List Claim

-- Thirty days, in nanoseconds.
abbrev pub default_processed_retention : ℕ
default_processed_retention = 2_592_000_000_000_000

abbrev pub is_claim : Uuid → Text → Claim → Bool
is_claim event_id consumer c = c.event_id == event_id && c.consumer == consumer

abbrev pub has_claim : Uuid → Text → Claims → Bool
has_claim event_id consumer t = any_of (is_claim event_id consumer) t

-- INSERT ... ON CONFLICT DO NOTHING; the schema sets processed_at to the time of the insert.
unfoldable pub insert_claim : Uuid → Text → Time → Claims → Claims
insert_claim event_id consumer now t =
    if has_claim event_id consumer t
    then t
    else record { event_id = event_id; consumer = consumer; processed_at = now } ∷ t

-- The result, the error and the table.
unfoldable pub claim : ExecReply → Uuid → Text → Time → Claims → (Bool × Option Text) × Claims
claim (refused e) event_id consumer now t =
    ((false, some (codes "claim processed event: " ++ e)), t)
claim (lost e) event_id consumer now t =
    ((false, some (codes "claim processed event: " ++ e)), insert_claim event_id consumer now t)
claim (uncounted e) event_id consumer now t =
    ((false, some (codes "claim rows affected: " ++ e)), insert_claim event_id consumer now t)
claim done event_id consumer now t =
    ((not (has_claim event_id consumer t), none), insert_claim event_id consumer now t)

-- `reply` is the error of the query, if any.
unfoldable pub already_processed : Option Text → Uuid → Text → Claims → Bool × Option Text
already_processed (some e) event_id consumer t =
    (false, some (codes "check processed event: " ++ e))
already_processed none event_id consumer t = (has_claim event_id consumer t, none)

-- RowsAffected is not read.
unfoldable pub mark_processed : ExecReply → Uuid → Text → Time → Claims → Option Text × Claims
mark_processed (refused e) event_id consumer now t = (some (codes "mark processed event: " ++ e), t)
mark_processed (lost e) event_id consumer now t =
    (some (codes "mark processed event: " ++ e), insert_claim event_id consumer now t)
mark_processed _ event_id consumer now t = (none, insert_claim event_id consumer now t)

-- DELETE of the rows before the cutoff, up to the limit. Which of them go is the database's choice;
-- here it is the first ones of its scan.
unfoldable pub delete_old : Time → ℕ → Claims → Claims
delete_old cutoff n [] = []
delete_old cutoff zero (c ∷ t) = c ∷ t
delete_old cutoff (suc n) (c ∷ t) =
    let kept = delete_old cutoff (suc n) t in
    if ltb c.processed_at cutoff then delete_old cutoff n t else c ∷ kept

-- What happens in one pass: the reply to the statement, and the error of the context after it.
pub record Pass : Type 0 where
  pub reply : ExecReply
  pub ctx_err : Option Text

-- The total, the error and the table; `none` while the loop still runs.
abbrev pub Pruning : Type 0
Pruning = Option (ℕ × Option Text) × Claims

abbrev pub or_ended : Option Text → ℕ → Claims → (ℕ → Claims → Pruning) → Pruning
or_ended (some e) total t rest = (some (total, some e), t)
or_ended none total t rest = rest total t

module _ (cutoff : Time) (batch_size : ℕ) where
  -- The end of the body: a short batch ends the loop, and so does the context.
  abbrev pub after_batch : Option Text → ℕ → ℕ → Claims → (ℕ → Claims → Pruning) → Pruning
  after_batch ctx_err n total t rest =
      if ltb n batch_size then (some (total + n, none), t) else or_ended ctx_err (total + n) t rest

  abbrev pub pass : ExecReply → Option Text → ℕ → Claims → (ℕ → Claims → Pruning) → Pruning
  pass (refused e) ctx_err total t rest =
      (some (total, some (codes "prune processed events: " ++ e)), t)
  pass (lost e) ctx_err total t rest =
      (some (total, some (codes "prune processed events: " ++ e)), delete_old cutoff batch_size t)
  pass (uncounted e) ctx_err total t rest =
      (some (total, some (codes "prune rows affected: " ++ e)), delete_old cutoff batch_size t)
  pass done ctx_err total t rest =
      let t' = delete_old cutoff batch_size t in
      after_batch ctx_err (length t - length t') total t' rest

  unfoldable pub passes : List Pass → ℕ → Claims → Pruning
  passes [] total t = (none, t)
  passes (p ∷ rest) total t = pass p.reply p.ctx_err total t (passes rest)

unfoldable pub prune : List Pass → Time → ℤ → ℤ → Claims → Pruning
prune replies now older_than batch_size t =
    passes (now - positive_or older_than default_processed_retention) (positive_or batch_size 5000)
      replies 0 t
