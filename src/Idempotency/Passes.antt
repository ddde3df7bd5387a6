-- ===== src/Idempotency/Passes.antt =====
-- What one batch of Prune keeps of the table, all of them do.
use shared_events.Prelude.{List, Option, Text, [], arith, none, some, ℕ, ◌+◌, ◌∷◌}
use shared_events.Outbox.Repository.{ExecReply, done, refused, lost, uncounted}
use shared_events.Event.{Time}
use shared_events.Idempotency.{Claims, Pass, Pruning, delete_old, after_batch, pass, passes}

module _ (P : Claims → Type 0) where
  after_batch-keeps :
      (b n : ℕ) (ctx_err : Option Text) (total : ℕ) (t : Claims) (rest : ℕ → Claims → Pruning)
      → P t
      → P (rest (total + n) t).1
      → P (after_batch 0 b ctx_err n total t rest).1
  after_batch-keeps b n none total t rest h k = ground (arith, h, k)
  after_batch-keeps b n (some e) total t rest h k = ground (arith, h)

  module _ (cutoff : Time) (b : ℕ) (keep : (t : Claims) → P t → P (delete_old cutoff b t)) where
    pass-keeps :
        (reply : ExecReply) (ctx_err : Option Text) (total : ℕ) (t : Claims)
        (rest : ℕ → Claims → Pruning)
        → P t
        → ((n : ℕ) (t' : Claims) → P t' → P (rest n t').1)
        → P (pass cutoff b reply ctx_err total t rest).1
    pass-keeps (refused e) ctx_err total t rest h k = h
    pass-keeps (lost e) ctx_err total t rest h k = keep t h
    pass-keeps (uncounted e) ctx_err total t rest h k = keep t h
    pass-keeps done ctx_err total t rest h k =
        after_batch-keeps b _ ctx_err total _ rest (keep t h) (k _ _ (keep t h))

    pub passes-keep :
        (replies : List Pass) (total : ℕ) (t : Claims) → P t → P (passes cutoff b replies total t).1
    unfolding passes
    passes-keep [] total t h = h
    passes-keep (p ∷ rest) total t h =
        pass-keeps p.reply p.ctx_err total t (passes cutoff b rest) h
          (λ n t' h'. passes-keep rest n t' h')
