-- ===== src/Poller/Lifecycle/Stopped.antt =====
-- What holds once Stop has returned.
use shared_events.Prelude.{
  ℕ-Eq, Text-Eq, List, [], ap, arith, false, refl, suc, sym, true, ℕ, ◌*◌, ◌++◌, ◌+◌, ◌||◌, ◌∙◌,
  ◌∷◌, ◌≡◌, ◌≤◌,
}
use shared_events.Event.{JsonCodec}
use shared_events.Publisher.{World}
use mathlib.Core.List.{append_assoc}
use shared_events.Poller.{OutboxPoller, Round}
use shared_events.Poller.Lifecycle.{
  Loop, polling, selecting, ended, Stopping, not_called, waiting, back, Lifecycle, created, stop,
  Step, starts, stops, stop_returns, polls, ticks, sees_stop, sees_done, Reach, is_start, Quiet,
  unmoved, then_step, is_tick, Calm, begun, and_then,
}
use shared_events.Poller.Lifecycle.Invariants.{Reach-Sound, Calm-Sound}
use shared_events.Poller.Lifecycle.Loops.{
  live, live-append, is_called, weights, weights-append, to_return, weights-le,
}

module _ {S : Type 0} (json : JsonCodec) (p : OutboxPoller) where
  -- With no loop left nothing moves.
  Step-still :
      {s t : Lifecycle S} (m : Step json p s t)
      → is_start m ≡ false
      → live s.loops ≡ 0
      → (t.world ≡ s.world) × (live t.loops ≡ 0)
  unfolding stop
  Step-still starts f z = cc
  Step-still (stops t q) f z = ground (arith, q, z)
  Step-still (stop_returns q w) f z = (refl, z)
  Step-still (polls before after round q) f z =
      absurd (omega (arith, z, ap live q, live-append before (polling ∷ after)))
  Step-still (ticks before after q) f z =
      absurd (omega (arith, z, ap live q, live-append before (selecting ∷ after)))
  Step-still (sees_stop before after q c) f z =
      absurd (omega (arith, z, ap live q, live-append before (selecting ∷ after)))
  Step-still (sees_done before after q) f z =
      absurd (omega (arith, z, ap live q, live-append before (selecting ∷ after)))

  Quiet-still :
      {s t : Lifecycle S}
      → Quiet json p s t
      → live s.loops ≡ 0
      → (t.world ≡ s.world) × (live t.loops ≡ 0)
  Quiet-still unmoved z = (refl, z)
  Quiet-still (then_step r m f) z =
      let (w, z') = Quiet-still r z in let (w', z'') = Step-still m f z' in (w' ∙ w, z'')

  -- The steps that are left between two ticks.
  abbrev pub left : Lifecycle S → ℕ
  left s = weights s.loops + to_return s.stopping

  abbrev pub steps : {s t : Lifecycle S} → Calm json p s t → ℕ
  steps begun = 0
  steps (and_then r m f) = suc (steps r)

  Step-left :
      {s t : Lifecycle S} (m : Step json p s t)
      → is_start m || is_tick m ≡ false
      → s.stop_closed ≡ true
      → (left t + 1 ≤ left s) × (t.stop_closed ≡ true)
  unfolding stop
  Step-left starts f c = cc
  Step-left (stops t q) f c = ground (arith, q, c)
  Step-left (stop_returns q z) f c = ground (arith, q, c)
  Step-left (polls before after round q) f c = (
    omega (
      arith,
      ap weights q,
      weights-append before (polling ∷ after),
      weights-append before (selecting ∷ after),
    ),
    c,
  )
  Step-left (ticks before after q) f c = cc
  Step-left (sees_stop before after q k) f c = (
    omega (
      arith,
      ap weights q,
      weights-append before (selecting ∷ after),
      weights-append before (ended ∷ after),
    ),
    c,
  )
  Step-left (sees_done before after q) f c = (
    omega (
      arith,
      ap weights q,
      weights-append before (selecting ∷ after),
      weights-append before (ended ∷ after),
    ),
    c,
  )

  Calm-left :
      {s t : Lifecycle S} (r : Calm json p s t)
      → s.stop_closed ≡ true
      → (left t + steps r ≤ left s) × (t.stop_closed ≡ true)
  Calm-left begun c = (omega arith, c)
  Calm-left (and_then r m f) c =
      let (l, c') = Calm-left r c in let (l', c'') = Step-left m f c' in (omega (arith, l, l'), c'')

  -- No step but a tick or a Start can be made.
  abbrev pub IsIdle : Lifecycle S → Type 0
  IsIdle e = (t : Lifecycle S) (m : Step json p e t) → is_start m || is_tick m ≡ true

  idle-live :
      (round : Round S) (e : Lifecycle S) (before loops : List Loop)
      → e.loops ≡ before ++ loops
      → e.stop_closed ≡ true
      → IsIdle e
      → live loops ≡ 0
  idle-live round e before [] q c i = refl
  idle-live round e before (polling ∷ loops) q c i = cc (i _ (polls before loops round q))
  idle-live round e before (selecting ∷ loops) q c i = cc (i _ (sees_stop before loops q c))
  idle-live round e before (ended ∷ loops) q c i = omega (
    arith,
    idle-live round e (before ++ ended ∷ []) loops
        (q ∙ sym (append_assoc before (ended ∷ []) loops)) c i,
  )

  idle_back :
      (e : Lifecycle S) (x : Stopping)
      → e.stopping ≡ x
      → is_called x ≡ true
      → e.wg ≡ 0
      → IsIdle e
      → e.stopping ≡ back
  idle_back e not_called q c z i = cc
  idle_back e waiting q c z i = cc (i _ (stop_returns q z))
  idle_back e back q c z i = q

  -- Stop returns once the polls that run have returned, and then nothing more is polled: between two
  -- ticks, and with no further Start, at most two steps for each loop that has not returned lead
  -- from the close of the channel to the return of Stop, whichever the loops choose; and where no
  -- step can be made but a tick or a Start, Stop has returned. From then on, until Start is called
  -- again, the poller changes neither the outbox nor the stream.
  pub stop_ends :
      (w : World S) (round : Round S) {s e t : Lifecycle S}
      → Reach json p (created w) s
      → s.stopping ≡ waiting
      → (r : Calm json p s e) → IsIdle e
      → Quiet json p e t
      → (steps r ≤ 2 * live s.loops + 1) × (e.stopping ≡ back) × (t.world ≡ e.world)
  stop_ends w round {s} {e} reach q r idle quiet =
      let (count, sound) = Reach-Sound json p reach (refl, refl) in
      let closed : s.stop_closed ≡ true = ground (arith, q, sound) in
      let (l, still_closed) = Calm-left r closed in
      let ((count', sound'), called) = Calm-Sound json p r (count, sound) (rw q refl) in
      let none_live = idle-live round e [] e.loops refl still_closed idle in
      (
        omega (arith, l, weights-le s.loops, ap to_return q),
        idle_back e e.stopping refl called (count' ∙ none_live) idle,
        (Quiet-still quiet none_live).0,
      )
