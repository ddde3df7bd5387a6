-- ===== src/Idempotency/Once.antt =====
-- A claim is won once.
use shared_events.Prelude.{
  ℕ-Eq, Text-Eq, Bool, List, Text, [], all_of, any_of, arith, false, if◌then◌else◌, leb,
  positive_or, refl, suc, text_eq_iff, true, zero, ℕ, ℤ, ◌&&◌, ◌+◌, ◌-◌, ◌==◌, ◌∷◌, ◌≡◌, ◌≤◌,
}
use shared_events.Outbox.Repository.{ExecReply, done, refused, lost, uncounted}
use shared_events.Event.{Uuid, Time}
use shared_events.Idempotency.{
  Claims, Pass, default_processed_retention, is_claim, has_claim, insert_claim, claim,
  mark_processed, delete_old, prune,
}
use shared_events.Idempotency.Passes.{passes-keep}

-- What the replicas of all consumers do, in the order in which the database serves it.
pub data Step : Type 0 where
  to_claim : ExecReply → Uuid → Text → Time → Step
  to_mark : ExecReply → Uuid → Text → Time → Step
  to_prune : List Pass → Time → ℤ → ℤ → Step

abbrev pub after : Step → Claims → Claims
after (to_claim reply event_id consumer now) t = (claim reply event_id consumer now t).1
after (to_mark reply event_id consumer now) t = (mark_processed reply event_id consumer now t).1
after (to_prune replies now older_than batch_size) t = (prune replies now older_than batch_size t).1

-- Whether the step is a call of Claim for the event and the consumer that returned true.
abbrev pub wins : Uuid → Text → Step → Claims → Bool
wins event_id consumer (to_claim reply e c now) t =
    e == event_id && c == consumer && (claim reply e c now t).0.0
wins event_id consumer _ t = false

abbrev pub count_wins : Uuid → Text → List Step → Claims → ℕ
count_wins event_id consumer [] t = 0
count_wins event_id consumer (s ∷ steps) t =
    (if wins event_id consumer s t then 1 else 0) + count_wins event_id consumer steps (after s t)

-- Rows are written at `since` or later, and a prune takes only rows older than that.
abbrev pub is_recent : Time → Step → Bool
is_recent since (to_claim reply e c now) = leb since now
is_recent since (to_mark reply e c now) = leb since now
is_recent since (to_prune replies now older_than batch_size) =
    leb (now - positive_or older_than default_processed_retention) since

-- The claim is in the table, no older than `since`.
abbrev pub holds : Time → Uuid → Text → Claims → Bool
holds since event_id consumer t =
    any_of (λ c. is_claim event_id consumer c && leb since c.processed_at) t

module _ (since : Time) (event_id : Uuid) (consumer : Text) where
  holds-has_claim :
      (t : Claims) → holds since event_id consumer t ≡ true → has_claim event_id consumer t ≡ true
  holds-has_claim [] h = h
  holds-has_claim (c ∷ t) h = ground (arith, holds-has_claim t)

  holds-delete_old :
      (cutoff : Time) (n : ℕ) (t : Claims)
      → cutoff ≤ since
      → holds since event_id consumer t ≡ true
      → holds since event_id consumer (delete_old cutoff n t) ≡ true
  unfolding delete_old
  holds-delete_old cutoff n [] c h = h
  holds-delete_old cutoff zero (r ∷ t) c h = h
  holds-delete_old cutoff (suc n) (r ∷ t) c h =
      ground (arith, holds-delete_old cutoff n t, holds-delete_old cutoff (suc n) t)

  holds-insert_claim :
      (e : Uuid) (c : Text) (now : Time) (t : Claims)
      → holds since event_id consumer t ≡ true
      → holds since event_id consumer (insert_claim e c now t) ≡ true
  unfolding insert_claim
  holds-insert_claim e c now t h = ground arith

  holds-after :
      (s : Step) (t : Claims)
      → is_recent since s ≡ true
      → holds since event_id consumer t ≡ true
      → holds since event_id consumer (after s t) ≡ true
  unfolding claim mark_processed prune
  holds-after (to_claim (refused e) i c now) t r h = h
  holds-after (to_claim (lost e) i c now) t r h = holds-insert_claim i c now t h
  holds-after (to_claim (uncounted e) i c now) t r h = holds-insert_claim i c now t h
  holds-after (to_claim done i c now) t r h = holds-insert_claim i c now t h
  holds-after (to_mark (refused e) i c now) t r h = h
  holds-after (to_mark (lost e) i c now) t r h = holds-insert_claim i c now t h
  holds-after (to_mark (uncounted e) i c now) t r h = holds-insert_claim i c now t h
  holds-after (to_mark done i c now) t r h = holds-insert_claim i c now t h
  holds-after (to_prune replies now o b) t r h =
      let cutoff = now - positive_or o default_processed_retention in
      let n = positive_or b 5000 in
      passes-keep (λ x. holds since event_id consumer x ≡ true) cutoff n
        (λ x k. holds-delete_old cutoff n x (ground arith) k) replies 0 t h

  held_not_won :
      (s : Step) (t : Claims)
      → holds since event_id consumer t ≡ true
      → wins event_id consumer s t ≡ false
  unfolding claim
  held_not_won (to_claim (refused e) i c now) t h = ground arith
  held_not_won (to_claim (lost e) i c now) t h = ground arith
  held_not_won (to_claim (uncounted e) i c now) t h = ground arith
  held_not_won (to_claim done i c now) t h =
      ground (arith, holds-has_claim t, text_eq_iff c consumer)
  held_not_won (to_mark reply i c now) t h = refl
  held_not_won (to_prune replies now o b) t h = refl

  pub won_holds :
      (s : Step) (t : Claims)
      → is_recent since s ≡ true
      → wins event_id consumer s t ≡ true
      → holds since event_id consumer (after s t) ≡ true
  unfolding claim insert_claim
  won_holds (to_claim (refused e) i c now) t r h = ground arith
  won_holds (to_claim (lost e) i c now) t r h = ground arith
  won_holds (to_claim (uncounted e) i c now) t r h = ground arith
  won_holds (to_claim done i c now) t r h = ground (arith, text_eq_iff c consumer)
  won_holds (to_mark reply i c now) t r h = ground arith
  won_holds (to_prune replies now o b) t r h = ground arith

  pub no_more_wins :
      (steps : List Step) (t : Claims)
      → all_of (is_recent since) steps ≡ true
      → holds since event_id consumer t ≡ true
      → count_wins event_id consumer steps t ≡ 0
  no_more_wins [] t r h = refl
  no_more_wins (s ∷ steps) t r h =
      ground (arith, no_more_wins steps (after s t), holds-after s t, held_not_won s t h)

-- Whatever the replicas do and whatever the database answers, Claim returns true for an event and a
-- consumer at most once: as long as the rows are written at some time or later, and no prune's
-- cutoff is after that time. From any table.
pub claim_once :
    (since : Time) (event_id : Uuid) (consumer : Text) (steps : List Step) (t : Claims)
    → all_of (is_recent since) steps ≡ true
    → count_wins event_id consumer steps t ≤ 1
claim_once since event_id consumer [] t r = ground arith
claim_once since event_id consumer (s ∷ steps) t r = ground (
  arith,
  claim_once since event_id consumer steps (after s t),
  won_holds since event_id consumer s t,
  no_more_wins since event_id consumer steps (after s t),
)
