-- ===== src/Rebind/Schedule.antt =====
-- The waits of the two loops against a formula for them.
use shared_events.Prelude.{
  Text-Eq, Bool, List, Option, Text, [], all_of, ap, arith, false, if◌then◌else◌, length, ltb, map,
  not, refl, some, suc, true, zero, ℕ, ℤ, ◌&&◌, ◌*◌, ◌++◌, ◌+◌, ◌∙◌, ◌∷◌, ◌≡◌, ◌≤◌,
}
use Prim.Native.Nat.{◌^◌}
use native.Mathlib.Nat.{zero-add}
use shared_events.Rebind.{
  settled, fresh, slept, second, max_attempts, doubled, is_already_bound, missing_deliver_group,
  stream_missing, Act, sleep, subscribe, Ending, LoopState, Next, again, retry,
  after_queue_subscribe, after_subscribe, loop, subscribe_with_rebind, subscribe_queue_with_rebind,
}

-- The wait after a conflict that so many came before: 3 seconds, doubled for each, up to 48 seconds.
unfoldable pub delay : ℕ → ℕ
delay i = 3 * second * 2 ^ (if ltb i 4 then i else 4)

-- A call and a wait for each conflict.
abbrev pub schedule : ℕ → ℕ → List Act
schedule i zero = []
schedule i (suc n) = subscribe ∷ sleep (delay i) ∷ schedule (suc i) n

-- The error is a bind conflict and nothing else.
abbrev pub is_conflict : Text → Bool
is_conflict e = is_already_bound e && not (missing_deliver_group e) && not (stream_missing e)

abbrev pub at_attempt : ℕ → LoopState
at_attempt i = record { attempt = i + 1; backoff = delay i; deleted_stale = false }

abbrev pub followed_by : List Act → List Act × Ending → List Act × Ending
followed_by acts (rest, ending) = (acts ++ rest, ending)

doubled-delay : (i : ℕ) → doubled (delay i) ≡ delay (suc i)
unfolding delay
doubled-delay zero = refl
doubled-delay (suc zero) = refl
doubled-delay (suc (suc zero)) = refl
doubled-delay (suc (suc (suc zero))) = refl
doubled-delay (suc (suc (suc (suc i)))) = ground arith

retried : (i : ℕ) → retry (at_attempt i) ≡ again (sleep (delay i)) (at_attempt (suc i))
retried i = ground (arith, doubled-delay i)

module _ (body : Option Text → LoopState → Next)
    (retries : (e : Text) (i : ℕ)
      → is_conflict e ≡ true
      → body (some e) (at_attempt i) ≡ again (sleep (delay i)) (at_attempt (suc i))) where
  loop-conflicts :
      (es : List Text) (answers : List (Option Text)) (i : ℕ)
      → all_of is_conflict es ≡ true
      → length es + i ≤ max_attempts
      → loop body (map some es ++ answers) (at_attempt i)
        ≡ followed_by (schedule i (length es)) (loop body answers (at_attempt (length es + i)))
  unfolding loop
  loop-conflicts [] answers i c l = rw zero-add refl
  loop-conflicts (e ∷ es) answers i c l =
      let rest = loop-conflicts es answers (suc i) (ground (arith, c)) (omega (arith, l)) in
      let room : ltb max_attempts (i + 1) ≡ false = ground (arith, l) in
      rw (retries e i (ground (arith, c))) (
        rw room (
          rw rest (
            ap (λ m. followed_by (schedule i (suc (length es))) (loop body answers (at_attempt m)))
              (omega arith))))

  fresh-conflicts :
      (es : List Text) (answers : List (Option Text))
      → all_of is_conflict es ≡ true
      → length es ≤ max_attempts
      → loop body (map some es ++ answers) fresh
        ≡ followed_by (schedule 0 (length es)) (loop body answers (at_attempt (length es)))
  unfolding delay
  fresh-conflicts es answers c l =
      loop-conflicts es answers 0 c (omega (arith, l))
      ∙ ap (λ m. followed_by (schedule 0 (length es)) (loop body answers (at_attempt m)))
          (omega arith)

subscribe_retries :
    (e : Text) (i : ℕ)
    → is_conflict e ≡ true
    → after_subscribe (some e) (at_attempt i) ≡ again (sleep (delay i)) (at_attempt (suc i))
unfolding after_subscribe
subscribe_retries e i c = ground (arith, retried i)

queue_subscribe_retries :
    (stream queue e : Text) (i : ℕ)
    → is_conflict e ≡ true
    → after_queue_subscribe stream queue (some e) (at_attempt i)
      ≡ again (sleep (delay i)) (at_attempt (suc i))
unfolding after_queue_subscribe
queue_subscribe_retries stream queue e i c = ground (arith, retried i)

-- The waits of both loops: the first call comes when the settle time is over, and the n-th bind
-- conflict in a row is followed by a wait of 3 seconds, doubled n - 1 times, but of 48 seconds from
-- the fifth on. For any errors that are bind conflicts and nothing else, up to forty of them, and
-- whatever is answered then: the loop goes on with the next attempt and the next wait.
pub conflicts_schedule :
    (es : List Text) (answers : List (Option Text)) (settle : ℤ) (stream queue : Text)
    → all_of is_conflict es ≡ true
    → length es ≤ max_attempts
    → let n = length es in
      let so_far = sleep (slept settle) ∷ schedule 0 n in
      let asked = map some es ++ answers in
      (subscribe_with_rebind settle asked
        ≡ followed_by so_far (loop after_subscribe answers (at_attempt n)))
      × (subscribe_queue_with_rebind settle stream queue asked
          ≡ followed_by so_far (loop (after_queue_subscribe stream queue) answers (at_attempt n)))
unfolding subscribe_with_rebind subscribe_queue_with_rebind
conflicts_schedule es answers settle stream queue c l = (
  ap (settled settle) (fresh-conflicts after_subscribe subscribe_retries es answers c l),
  ap (settled settle) (
      fresh-conflicts (after_queue_subscribe stream queue) (queue_subscribe_retries stream queue) es
        answers c l),
)
