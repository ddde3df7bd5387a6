-- ===== src/Poller/Lifecycle/Invariants.antt =====
-- The WaitGroup and the stop channel in every state of the poller.
use shared_events.Prelude.{ℕ-Eq, Text-Eq, Bool, ap, arith, not, refl, some, true, ◌||◌, ◌∷◌, ◌≡◌}
use shared_events.Event.{JsonCodec}
use shared_events.Poller.{OutboxPoller}
use shared_events.Poller.Lifecycle.{
  polling, selecting, ended, Lifecycle, start, stop, Step, starts, stops, stop_returns, polls,
  ticks, sees_stop, sees_done, Reach, here, later, Calm, begun, and_then,
}
use shared_events.Poller.Lifecycle.Loops.{live, live-append, is_called}

module _ {S : Type 0} (json : JsonCodec) (p : OutboxPoller) where
  stopped-wg : (s t : Lifecycle S) → stop s ≡ some t → s.wg ≡ live s.loops → t.wg ≡ live t.loops
  unfolding stop
  stopped-wg s t q h = ground (arith, q, h)

  -- The WaitGroup counts the loops that have not returned.
  Step-wg : {s t : Lifecycle S} → Step json p s t → s.wg ≡ live s.loops → t.wg ≡ live t.loops
  unfolding start
  Step-wg starts h = omega (arith, h)
  Step-wg {s} (stops t q) h = stopped-wg s t q h
  Step-wg (stop_returns q z) h = h
  Step-wg {s} (polls before after round q) h = omega (
    arith,
    h,
    ap live q,
    live-append before (polling ∷ after),
    live-append before (selecting ∷ after),
  )
  Step-wg {s} (ticks before after q) h = omega (
    arith,
    h,
    ap live q,
    live-append before (polling ∷ after),
    live-append before (selecting ∷ after),
  )
  Step-wg {s} (sees_stop before after q c) h = omega (
    arith,
    h,
    ap live q,
    live-append before (selecting ∷ after),
    live-append before (ended ∷ after),
  )
  Step-wg {s} (sees_done before after q) h = omega (
    arith,
    h,
    ap live q,
    live-append before (selecting ∷ after),
    live-append before (ended ∷ after),
  )

  abbrev pub is_sound : Lifecycle S → Bool
  is_sound s = not (is_called s.stopping) || s.stop_closed

  stopped-is_sound : (s t : Lifecycle S) → stop s ≡ some t → is_sound t ≡ true
  unfolding stop
  stopped-is_sound s t q = ground (arith, q)

  Step-is_sound : {s t : Lifecycle S} → Step json p s t → is_sound s ≡ true → is_sound t ≡ true
  unfolding start
  Step-is_sound starts h = h
  Step-is_sound {s} (stops t q) h = stopped-is_sound s t q
  Step-is_sound (stop_returns q z) h = ground (arith, q, h)
  Step-is_sound (polls before after round q) h = h
  Step-is_sound (ticks before after q) h = h
  Step-is_sound (sees_stop before after q c) h = h
  Step-is_sound (sees_done before after q) h = h

  abbrev pub Sound : Lifecycle S → Type 0
  Sound s = (s.wg ≡ live s.loops) × (is_sound s ≡ true)

  pub Reach-Sound : {s t : Lifecycle S} → Reach json p s t → Sound s → Sound t
  Reach-Sound here h = h
  Reach-Sound (later r m) h = let (w, c) = Reach-Sound r h in (Step-wg m w, Step-is_sound m c)

  called-stop : (s t : Lifecycle S) → stop s ≡ some t → is_called t.stopping ≡ true
  unfolding stop
  called-stop s t q = ground (arith, q)

  Step-is_called :
      {s t : Lifecycle S}
      → Step json p s t
      → is_called s.stopping ≡ true
      → is_called t.stopping ≡ true
  unfolding start
  Step-is_called starts h = h
  Step-is_called {s} (stops t q) h = called-stop s t q
  Step-is_called (stop_returns q z) h = refl
  Step-is_called (polls before after round q) h = h
  Step-is_called (ticks before after q) h = h
  Step-is_called (sees_stop before after q c) h = h
  Step-is_called (sees_done before after q) h = h

  pub Calm-Sound :
      {s t : Lifecycle S}
      → Calm json p s t
      → Sound s
      → is_called s.stopping ≡ true
      → Sound t × (is_called t.stopping ≡ true)
  Calm-Sound begun h c = (h, c)
  Calm-Sound (and_then r m f) h c =
      let ((w, k), c') = Calm-Sound r h c in ((Step-wg m w, Step-is_sound m k), Step-is_called m c')
