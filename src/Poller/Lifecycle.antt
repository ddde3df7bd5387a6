-- ===== src/Poller/Lifecycle.antt =====
-- poller.go: Start, Stop and the goroutine of `run` over one stop channel and one WaitGroup. A step is
-- one call, or one case of the loop's `select`; the goroutines take their steps in any order. The
-- context of a loop may end at any time. What a poll does is done at its end.
pub mod Loops
pub mod Invariants
pub mod NoLoss
pub mod Stopped
mod Tests
use shared_events.Prelude.{
  ℕ-Eq, Text-Eq, Bool, List, Option, [], false, if◌then◌else◌, none, some, true, ℕ, ◌++◌, ◌+◌, ◌-◌,
  ◌||◌, ◌∷◌, ◌≡◌,
}
use shared_events.Event.{JsonCodec}
use shared_events.Publisher.{World}
use shared_events.Poller.{OutboxPoller, Round, poll}

-- Where a goroutine of `run` stands: in a poll, in its `select`, or returned.
pub data Loop : Type 0 where
  polling : Loop
  selecting : Loop
  ended : Loop

-- Where the call of Stop stands.
pub data Stopping : Type 0 where
  not_called : Stopping
  waiting : Stopping
  back : Stopping

-- `wg` is the counter of the WaitGroup.
pub record Lifecycle (S : Type 0) : Type 0 where
  pub stop_closed : Bool
  pub wg : ℕ
  pub loops : List Loop
  pub stopping : Stopping
  pub world : World S

module _ {S : Type 0} where
  abbrev pub created : World S → Lifecycle S
  created w = record { stop_closed = false; wg = 0; loops = []; stopping = not_called; world = w }

  -- Start: the loop polls once before it selects.
  unfoldable pub start : Lifecycle S → Lifecycle S
  start s = record s { wg = s.wg + 1; loops = polling ∷ s.loops }

  -- Stop up to its Wait; `none` is the panic of the second close.
  unfoldable pub stop : Lifecycle S → Option (Lifecycle S)
  stop s =
      if s.stop_closed then none else some (record s { stop_closed = true; stopping = waiting })

  -- The return of a loop, with the deferred Done.
  abbrev pub leave : List Loop → List Loop → Lifecycle S → Lifecycle S
  leave before after s = record s { wg = s.wg - 1; loops = before ++ ended ∷ after }

-- The step of a loop is that of the one between `before` and `after`.
pub data Step {S : Type 0} (json : JsonCodec) (p : OutboxPoller) (s : Lifecycle S)
    : Lifecycle S → Type 0 where
  starts : Step json p s (start s)
  stops : (t : Lifecycle S) → stop s ≡ some t → Step json p s t
  stop_returns : s.stopping ≡ waiting → s.wg ≡ 0 → Step json p s (record s { stopping = back })
  polls :
      (before after : List Loop) (round : Round S)
      → s.loops ≡ before ++ polling ∷ after
      → Step json p s
          (record s { loops = before ++ selecting ∷ after; world = poll json p round s.world })
  ticks :
      (before after : List Loop)
      → s.loops ≡ before ++ selecting ∷ after
      → Step json p s (record s { loops = before ++ polling ∷ after })
  sees_stop :
      (before after : List Loop)
      → s.loops ≡ before ++ selecting ∷ after
      → s.stop_closed ≡ true
      → Step json p s (leave before after s)
  sees_done :
      (before after : List Loop)
      → s.loops ≡ before ++ selecting ∷ after
      → Step json p s (leave before after s)

pub data Reach {S : Type 0} (json : JsonCodec) (p : OutboxPoller) (s : Lifecycle S)
    : Lifecycle S → Type 0 where
  here : Reach json p s s
  later : {t u : Lifecycle S} → Reach json p s t → Step json p t u → Reach json p s u

abbrev pub is_start :
    {S : Type 0} {json : JsonCodec} {p : OutboxPoller} {s t : Lifecycle S} → Step json p s t → Bool
is_start starts = true
is_start _ = false

abbrev pub is_tick :
    {S : Type 0} {json : JsonCodec} {p : OutboxPoller} {s t : Lifecycle S} → Step json p s t → Bool
is_tick (ticks before after q) = true
is_tick _ = false

-- A run between two ticks, in which Start is not called.
pub data Calm {S : Type 0} (json : JsonCodec) (p : OutboxPoller) (s : Lifecycle S)
    : Lifecycle S → Type 0 where
  begun : Calm json p s s
  and_then :
      {t u : Lifecycle S}
      → Calm json p s t
      → (m : Step json p t u) → is_start m || is_tick m ≡ false
      → Calm json p s u

-- A run in which Start is not called.
pub data Quiet {S : Type 0} (json : JsonCodec) (p : OutboxPoller) (s : Lifecycle S)
    : Lifecycle S → Type 0 where
  unmoved : Quiet json p s s
  then_step :
      {t u : Lifecycle S}
      → Quiet json p s t
      → (m : Step json p t u) → is_start m ≡ false
      → Quiet json p s u
