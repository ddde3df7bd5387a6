-- ===== src/Rebind/Backoff.antt =====
-- The delays between the attempts.
use shared_events.Prelude.{
  Text-Eq, Bool, List, Option, Text, [], all_of, arith, leb, nat_eq, none, refl, some, true, ℕ,
  ◌&&◌, ◌*◌, ◌||◌, ◌∷◌, ◌≡◌,
}
use shared_events.Rebind.{
  second, Act, sleep, Ending, LoopState, Next, finish, again, after_queue_subscribe,
  after_subscribe, go_on, loop, fresh,
}

-- A wait of at most 48 seconds.
abbrev sleep_bounded : Act → Bool
sleep_bounded (sleep n) = leb n (48 * second)
sleep_bounded _ = true

-- The delay is 3, 6, 12 or 24 seconds, or the last one, 48 seconds.
abbrev is_delay : ℕ → Bool
is_delay n =
    nat_eq n (3 * second)
    || nat_eq n (6 * second)
    || nat_eq n (12 * second)
    || nat_eq n (24 * second)
    || nat_eq n (48 * second)

abbrev next_delay : Next → Bool
next_delay (finish ending) = true
next_delay (again act st) = sleep_bounded act && is_delay st.backoff

after_queue_subscribe_delay :
    (stream queue : Text) (answer : Option Text) (st : LoopState)
    → is_delay st.backoff ≡ true
    → next_delay (after_queue_subscribe stream queue answer st) ≡ true
unfolding after_queue_subscribe
after_queue_subscribe_delay stream queue none st h = refl
after_queue_subscribe_delay stream queue (some e) st h = ground arith

after_subscribe_delay :
    (answer : Option Text) (st : LoopState)
    → is_delay st.backoff ≡ true
    → next_delay (after_subscribe answer st) ≡ true
unfolding after_subscribe
after_subscribe_delay none st h = refl
after_subscribe_delay (some e) st h = ground arith

module _ (body : Option Text → LoopState → Next)
    (keeps : (answer : Option Text) (st : LoopState)
      → is_delay st.backoff ≡ true
      → next_delay (body answer st) ≡ true) where
  go_on-bounded :
      (n : Next) (rest : LoopState → List Act × Ending)
      → next_delay n ≡ true
      → ((st : LoopState) → is_delay st.backoff ≡ true → all_of sleep_bounded (rest st).0 ≡ true)
      → all_of sleep_bounded (go_on n rest).0 ≡ true
  go_on-bounded (finish ending) rest h k = refl
  go_on-bounded (again act st) rest h k = ground (arith, k st)

  loop-bounded :
      (answers : List (Option Text)) (st : LoopState)
      → is_delay st.backoff ≡ true
      → all_of sleep_bounded (loop body answers st).0 ≡ true
  unfolding loop
  loop-bounded [] st h = refl
  loop-bounded (answer ∷ answers) st h = ground (
    arith,
    go_on-bounded (body answer st) (loop body answers) (keeps answer st h)
        (λ st'. loop-bounded answers st'),
  )

-- Whatever the server answers, no wait between two attempts of either loop is longer than 48
-- seconds.
waits_bounded :
    (stream queue : Text) (answers : List (Option Text))
    → (all_of sleep_bounded (loop after_subscribe answers fresh).0 ≡ true)
      × (all_of sleep_bounded (loop (after_queue_subscribe stream queue) answers fresh).0 ≡ true)
waits_bounded stream queue answers = (
  loop-bounded after_subscribe after_subscribe_delay answers fresh refl,
  loop-bounded (after_queue_subscribe stream queue) (after_queue_subscribe_delay stream queue)
      answers fresh refl,
)
