-- ===== src/Idempotency/Exact.antt =====
-- A claim that nothing disturbs is won exactly once.
use shared_events.Prelude.{
  ℕ-Eq, Text-Eq, Bool, List, Text, [], all_of, any_of, arith, false, not, positive_or, refl, suc,
  text_eq_iff, true, zero, ℕ, ◌&&◌, ◌-◌, ◌==◌, ◌||◌, ◌∷◌, ◌≡◌,
}
use shared_events.Outbox.Repository.{ExecReply, done, refused, lost, uncounted}
use shared_events.Event.{Uuid, Time}
use shared_events.Idempotency.{
  default_processed_retention, Claims, has_claim, insert_claim, claim, mark_processed, delete_old,
  prune,
}
use shared_events.Idempotency.Passes.{passes-keep}
use shared_events.Idempotency.Once.{
  Step, to_claim, to_mark, to_prune, after, wins, count_wins, is_recent, won_holds, no_more_wins,
}

abbrev is_answered : ExecReply → Bool
is_answered done = true
is_answered _ = false

-- The database answers each Claim of the event and the consumer, and nobody marks them.
abbrev pub is_undisturbed : Uuid → Text → Step → Bool
is_undisturbed event_id consumer (to_claim reply e c now) =
    not (e == event_id && c == consumer) || is_answered reply
is_undisturbed event_id consumer (to_mark reply e c now) = not (e == event_id && c == consumer)
is_undisturbed event_id consumer (to_prune replies now older_than batch_size) = true

abbrev pub asks : Uuid → Text → Step → Bool
asks event_id consumer (to_claim reply e c now) = e == event_id && c == consumer
asks event_id consumer _ = false

module _ (event_id : Uuid) (consumer : Text) where
  unclaimed-delete_old :
      (cutoff : Time) (n : ℕ) (t : Claims)
      → has_claim event_id consumer t ≡ false
      → has_claim event_id consumer (delete_old cutoff n t) ≡ false
  unfolding delete_old
  unclaimed-delete_old cutoff n [] h = h
  unclaimed-delete_old cutoff zero (r ∷ t) h = h
  unclaimed-delete_old cutoff (suc n) (r ∷ t) h =
      ground (arith, unclaimed-delete_old cutoff n t, unclaimed-delete_old cutoff (suc n) t)

  unclaimed-insert_claim :
      (e : Uuid) (c : Text) (now : Time) (t : Claims)
      → (e == event_id && c == consumer) ≡ false
      → has_claim event_id consumer t ≡ false
      → has_claim event_id consumer (insert_claim e c now t) ≡ false
  unfolding insert_claim
  unclaimed-insert_claim e c now t n h = ground arith

  unclaimed-after :
      (s : Step) (t : Claims)
      → is_undisturbed event_id consumer s ≡ true
      → asks event_id consumer s ≡ false
      → has_claim event_id consumer t ≡ false
      → has_claim event_id consumer (after s t) ≡ false
  unfolding claim mark_processed prune
  unclaimed-after (to_claim (refused e) i c now) t u a h = h
  unclaimed-after (to_claim (lost e) i c now) t u a h = unclaimed-insert_claim i c now t a h
  unclaimed-after (to_claim (uncounted e) i c now) t u a h = unclaimed-insert_claim i c now t a h
  unclaimed-after (to_claim done i c now) t u a h = unclaimed-insert_claim i c now t a h
  unclaimed-after (to_mark (refused e) i c now) t u a h = h
  unclaimed-after (to_mark (lost e) i c now) t u a h =
      unclaimed-insert_claim i c now t (ground (arith, u)) h
  unclaimed-after (to_mark (uncounted e) i c now) t u a h =
      unclaimed-insert_claim i c now t (ground (arith, u)) h
  unclaimed-after (to_mark done i c now) t u a h =
      unclaimed-insert_claim i c now t (ground (arith, u)) h
  unclaimed-after (to_prune replies now o b) t u a h =
      let cutoff = now - positive_or o default_processed_retention in
      let n = positive_or b 5000 in
      passes-keep (λ x. has_claim event_id consumer x ≡ false) cutoff n
        (λ x k. unclaimed-delete_old cutoff n x k) replies 0 t h

  not_asked_not_won :
      (s : Step) (t : Claims)
      → asks event_id consumer s ≡ false
      → wins event_id consumer s t ≡ false
  not_asked_not_won (to_claim reply i c now) t a = ground arith
  not_asked_not_won (to_mark reply i c now) t a = refl
  not_asked_not_won (to_prune replies now o b) t a = refl

  asked_wins :
      (s : Step) (t : Claims)
      → is_undisturbed event_id consumer s ≡ true
      → asks event_id consumer s ≡ true
      → has_claim event_id consumer t ≡ false
      → wins event_id consumer s t ≡ true
  unfolding claim
  asked_wins (to_claim (refused e) i c now) t u a h = ground arith
  asked_wins (to_claim (lost e) i c now) t u a h = ground arith
  asked_wins (to_claim (uncounted e) i c now) t u a h = ground arith
  asked_wins (to_claim done i c now) t u a h = ground (arith, text_eq_iff c consumer)
  asked_wins (to_mark reply i c now) t u a h = ground arith
  asked_wins (to_prune replies now o b) t u a h = ground arith

  pub claim_exactly_once :
      (since : Time) (steps : List Step) (t : Claims)
      → all_of (is_recent since) steps ≡ true
      → all_of (is_undisturbed event_id consumer) steps ≡ true
      → any_of (asks event_id consumer) steps ≡ true
      → has_claim event_id consumer t ≡ false
      → count_wins event_id consumer steps t ≡ 1
  claim_exactly_once since [] t r u a h = ground arith
  claim_exactly_once since (s ∷ steps) t r u a h = ground (
    arith,
    claim_exactly_once since steps (after s t),
    not_asked_not_won s t,
    unclaimed-after s t,
    asked_wins s t,
    won_holds since event_id consumer s t,
    no_more_wins since event_id consumer steps (after s t),
  )
