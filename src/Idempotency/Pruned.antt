-- ===== src/Idempotency/Pruned.antt =====
-- The batches of Prune against one filter of the table.
use shared_events.Prelude.{
  Bool, List, Option, Text, [], all_of, arith, count_by, false, filter_by, if◌then◌else◌, length,
  ltb, negsuc, none, not, pos, positive_or, refl, some, suc, true, zero, ℕ, ℤ, ◌&&◌, ◌+◌, ◌-◌, ◌<◌,
  ◌∷◌, ◌≡◌, ◌≤◌,
}
use shared_events.Outbox.Repository.{ExecReply, done, refused, lost, uncounted}
use shared_events.Event.{Time}
use shared_events.Idempotency.{
  Claims, Pass, Pruning, delete_old, pass, passes, prune, default_processed_retention,
}

-- The rows that the cutoff spares, and the number of the others.
abbrev pub kept : Time → Claims → Claims
kept cutoff t = filter_by (λ c. not (ltb c.processed_at cutoff)) t

abbrev pub old : Time → Claims → ℕ
old cutoff t = count_by (λ c. ltb c.processed_at cutoff) t

-- A pass that the database and the context let through.
abbrev is_done : ExecReply → Bool
is_done done = true
is_done _ = false

abbrev is_none : Option Text → Bool
is_none none = true
is_none (some e) = false

abbrev pub is_fine : Pass → Bool
is_fine p = is_done p.reply && is_none p.ctx_err

old-delete_old :
    (cutoff : Time) (n : ℕ) (t : Claims) → old cutoff (delete_old cutoff n t) ≡ old cutoff t - n
unfolding delete_old
old-delete_old cutoff n [] = ground arith
old-delete_old cutoff zero (c ∷ t) = ground arith
old-delete_old cutoff (suc n) (c ∷ t) =
    ground (arith, old-delete_old cutoff n t, old-delete_old cutoff (suc n) t)

length-delete_old :
    (cutoff : Time) (n : ℕ) (t : Claims)
    → length (delete_old cutoff n t) + (old cutoff t - old cutoff (delete_old cutoff n t))
      ≡ length t
unfolding delete_old
length-delete_old cutoff n [] = ground arith
length-delete_old cutoff zero (c ∷ t) = ground arith
length-delete_old cutoff (suc n) (c ∷ t) = ground (
  arith,
  length-delete_old cutoff n t,
  length-delete_old cutoff (suc n) t,
  old-delete_old cutoff n t,
  old-delete_old cutoff (suc n) t,
)

kept-delete_old :
    (cutoff : Time) (n : ℕ) (t : Claims) → kept cutoff (delete_old cutoff n t) ≡ kept cutoff t
unfolding delete_old
kept-delete_old cutoff n [] = refl
kept-delete_old cutoff zero (c ∷ t) = refl
kept-delete_old cutoff (suc n) (c ∷ t) =
    ground (arith, kept-delete_old cutoff n t, kept-delete_old cutoff (suc n) t)

kept_all : (cutoff : Time) (t : Claims) → old cutoff t ≡ 0 → kept cutoff t ≡ t
kept_all cutoff [] h = refl
kept_all cutoff (c ∷ t) h = ground (arith, kept_all cutoff t)

module _ (cutoff : Time) (batch_size : ℕ) where
  pass-fine :
      (reply : ExecReply) (ctx_err : Option Text) (total : ℕ) (t : Claims)
      (rest : ℕ → Claims → Pruning)
      → is_done reply ≡ true
      → is_none ctx_err ≡ true
      → pass cutoff batch_size reply ctx_err total t rest ≡ (
          let t' = delete_old cutoff batch_size t in
          let n = length t - length t' in
          if ltb n batch_size then (some (total + n, none), t') else rest (total + n) t')
  pass-fine done none total t rest d c = refl
  pass-fine done (some e) total t rest d c = ground arith
  pass-fine (refused e) ctx_err total t rest d c = ground arith
  pass-fine (lost e) ctx_err total t rest d c = ground arith
  pass-fine (uncounted e) ctx_err total t rest d c = ground arith

  passes_done :
      (replies : List Pass) (total : ℕ) (t : Claims)
      → 1 ≤ batch_size
      → all_of is_fine replies ≡ true
      → old cutoff t < length replies
      → passes cutoff batch_size replies total t
        ≡ (some (total + old cutoff t, none), kept cutoff t)
  unfolding passes
  passes_done [] total t b f n = ground arith
  passes_done (p ∷ rest) total t b f n =
      let t' = delete_old cutoff batch_size t in
      rw
        (pass-fine p.reply p.ctx_err total t (passes cutoff batch_size rest) (ground arith)
          (ground arith))
        (ground (
          arith,
          passes_done rest (total + (length t - length t')) t',
          old-delete_old cutoff batch_size t,
          length-delete_old cutoff batch_size t,
          kept-delete_old cutoff batch_size t,
          kept_all cutoff t',
        ))

positive_or-positive : (z : ℤ) (d : ℕ) → 1 ≤ d → 1 ≤ positive_or z d
positive_or-positive (pos zero) d h = h
positive_or-positive (pos (suc n)) d h = ground arith
positive_or-positive (negsuc n) d h = h

-- Prune ends, and removes exactly the rows older than the retention, whatever the batch size: if
-- every batch succeeds, it is done after one pass more than there are old rows at the latest, it
-- reports their number and no error, and it leaves the other rows in their order.
pub prune_exact :
    (replies : List Pass) (now : Time) (older_than batch_size : ℤ) (t : Claims)
    → all_of is_fine replies ≡ true
    → old (now - positive_or older_than default_processed_retention) t < length replies
    → prune replies now older_than batch_size t ≡ (
      some (old (now - positive_or older_than default_processed_retention) t, none),
      kept (now - positive_or older_than default_processed_retention) t,
    )
unfolding prune
prune_exact replies now older_than batch_size t f n = ground (
  arith,
  passes_done (now - positive_or older_than default_processed_retention)
      (positive_or batch_size 5000) replies 0 t
      (positive_or-positive batch_size 5000 (ground arith)) f n,
)
