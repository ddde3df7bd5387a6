-- ===== src/Rebind.antt =====
-- subscribe.go: the goroutines of SubscribeWithRebind and SubscribeQueueWithRebind. The server's
-- answers to the subscribe calls are a list, one for each call: `none` for success, or the text of
-- the error. The loops recur on it; where it ends, the goroutine still waits for an answer. The
-- result is what the goroutine does, in order, and how it ends. Logging is left out.
pub mod Settle
mod Backoff
pub mod Schedule
pub mod Waits
pub mod Bounds
mod Tests
use shared_events.Prelude.{
  Text-Eq, Bool, List, Option, Text, [], codes, false, has_text, if◌then◌else◌, ltb, negsuc, none,
  not, pos, some, true, ℕ, ℤ, ◌&&◌, ◌*◌, ◌+◌, ◌==◌, ◌∷◌,
}

-- Durations in nanoseconds.
abbrev pub second : ℕ
second = 1_000_000_000

abbrev pub first_backoff : ℕ
first_backoff = 3 * second

abbrev pub max_backoff : ℕ
max_backoff = 30 * second

abbrev pub max_attempts : ℕ
max_attempts = 40

unfoldable pub is_already_bound : Text → Bool
is_already_bound e = has_text e (codes "already bound")

unfoldable pub missing_deliver_group : Text → Bool
missing_deliver_group e = has_text e (codes "without a deliver group")

unfoldable pub stream_missing : Text → Bool
stream_missing e = has_text e (codes "stream not found")

-- `js.DeleteConsumer(stream, queue)`; its error is only logged.
pub data Act : Type 0 where
  sleep : ℕ → Act
  subscribe : Act
  delete_consumer : Text → Text → Act

pub data Ending : Type 0 where
  active : Ending
  fatal : Text → Ending
  gave_up : Ending
  waiting : Ending

pub record LoopState : Type 0 where
  pub attempt : ℕ
  pub backoff : ℕ
  pub deleted_stale : Bool

-- What one pass of the loop's body leads to.
pub data Next : Type 0 where
  finish : Ending → Next
  again : Act → LoopState → Next

abbrev pub doubled : ℕ → ℕ
doubled backoff = if ltb backoff max_backoff then backoff * 2 else backoff

-- The end of the body: wait, double the delay, count the attempt.
abbrev pub retry : LoopState → Next
retry st =
    again (sleep st.backoff) (record st { attempt = st.attempt + 1; backoff = doubled st.backoff })

unfoldable pub after_subscribe : Option Text → LoopState → Next
after_subscribe none st = finish active
after_subscribe (some e) st = if not (is_already_bound e) then finish (fatal e) else retry st

unfoldable pub after_queue_subscribe : Text → Text → Option Text → LoopState → Next
after_queue_subscribe stream queue none st = finish active
after_queue_subscribe stream queue (some e) st =
    if missing_deliver_group e && not st.deleted_stale && not (stream == [])
    then again (delete_consumer stream queue)
        (record st { attempt = st.attempt + 1; deleted_stale = true })
    else if stream_missing e
    then again (sleep max_backoff) st
    else if not (is_already_bound e) && not (missing_deliver_group e)
    then finish (fatal e)
    else retry st

-- What follows a pass: nothing, or its act and the rest of the loop.
abbrev pub go_on : Next → (LoopState → List Act × Ending) → List Act × Ending
go_on (finish ending) rest = (subscribe ∷ [], ending)
go_on (again act st) rest = let (acts, ending) = rest st in (subscribe ∷ act ∷ acts, ending)

-- The loop over a body. No call is made once the attempts are used up.
module _ (body : Option Text → LoopState → Next) where
  unfoldable pub loop : List (Option Text) → LoopState → List Act × Ending
  loop [] st = ([], if ltb max_attempts st.attempt then gave_up else waiting)
  loop (answer ∷ answers) st =
      let rest = go_on (body answer st) (loop answers) in
      if ltb max_attempts st.attempt then ([], gave_up) else rest

abbrev pub fresh : LoopState
fresh = record { attempt = 1; backoff = first_backoff; deleted_stale = false }

-- Layer 2, then the loop.
-- `time.Sleep` returns at once for a negative duration.
abbrev pub slept : ℤ → ℕ
slept (pos n) = n
slept (negsuc n) = 0

abbrev pub settled : ℤ → List Act × Ending → List Act × Ending
settled settle (acts, ending) = (sleep (slept settle) ∷ acts, ending)

unfoldable pub subscribe_with_rebind : ℤ → List (Option Text) → List Act × Ending
subscribe_with_rebind settle answers = settled settle (loop after_subscribe answers fresh)

unfoldable pub subscribe_queue_with_rebind :
    ℤ → Text → Text → List (Option Text) → List Act × Ending
subscribe_queue_with_rebind settle stream queue answers =
    settled settle (loop (after_queue_subscribe stream queue) answers fresh)

-- QueueSubscribe on a core connection: what the connection answers to its own call, on its state.
unfoldable queue_subscribe :
    {C Subscription : Type 0}
    → (Text → Text → C → (Option Subscription × Option Text) × C)
    → Text
    → Text
    → C
    → (Option Subscription × Option Text) × C
queue_subscribe conn subject queue c = conn subject queue c
