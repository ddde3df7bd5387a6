-- ===== src/Rebind/Waits.antt =====
-- The queue loop with a server that has no stream yet, against one that has it.
use shared_events.Prelude.{
  Text-Eq, ℕ-Eq, Bool, Bool-cases, List, Option, Text, [], ap, arith, count_by, false, filter_by,
  if◌then◌else◌, inl, inr, ltb, none, not, refl, some, true, ℤ, ◌&&◌, ◌+◌, ◌==◌, ◌∙◌, ◌∷◌, ◌≡◌, ◌≤◌,
}
use shared_events.Rebind.{
  max_attempts, max_backoff, missing_deliver_group, stream_missing, Act, sleep, subscribe, Ending,
  gave_up, LoopState, Next, finish, again, after_queue_subscribe, go_on, loop, fresh,
  subscribe_queue_with_rebind,
}
use shared_events.Rebind.Bounds.{is_missing, is_subscribe, is_delete, subscribe_queue_calls}

-- The answer says that the stream is not there, and not that the consumer is a legacy one.
abbrev pub is_wait : Option Text → Bool
is_wait none = false
is_wait (some e) = stream_missing e && not (missing_deliver_group e)

-- The answers without those.
abbrev pub heard : List (Option Text) → List (Option Text)
heard answers = filter_by (λ a. not (is_wait a)) answers

-- A wait of thirty seconds.
abbrev pub is_pause : Act → Bool
is_pause (sleep n) = n == max_backoff
is_pause _ = false

abbrev pub others : List Act → List Act
others acts = filter_by (λ a. not (is_subscribe a) && not (is_pause a)) acts

-- The runs end alike and do the same, but for as many more calls as there are more pauses.
abbrev pub SameBut : List Act × Ending → List Act × Ending → Type 0
SameBut (acts, ending) (acts', ending') =
    (ending ≡ ending')
    × (count_by is_subscribe acts + count_by is_pause acts'
        ≡ count_by is_subscribe acts' + count_by is_pause acts)
    × (others acts ≡ others acts')

module _ (stream queue : Text) where
  abbrev body : Option Text → LoopState → Next
  body = after_queue_subscribe stream queue

  spent_loop :
      (answers : List (Option Text)) (st : LoopState)
      → ltb max_attempts st.attempt ≡ true
      → loop body answers st ≡ ([], gave_up)
  unfolding loop
  spent_loop [] st h = rw h refl
  spent_loop (answer ∷ answers) st h = rw h refl

  body-waits :
      (e : Text) (st : LoopState)
      → is_wait (some e) ≡ true
      → body (some e) st ≡ again (sleep max_backoff) st
  unfolding after_queue_subscribe
  body-waits e st h = ground arith

  go_on-SameBut :
      (n : Next) (rest rest' : LoopState → List Act × Ending)
      → ((st : LoopState) → SameBut (rest st) (rest' st))
      → SameBut (go_on n rest) (go_on n rest')
  go_on-SameBut (finish ending) rest rest' r = (refl, refl, refl)
  go_on-SameBut (again act st) rest rest' r =
      let (e, c, o) = r st in (e, ground (arith, c), ground (arith, o))

  pause-SameBut :
      (x y : List Act × Ending) → SameBut x y → SameBut (subscribe ∷ sleep max_backoff ∷ x.0, x.1) y
  pause-SameBut x y (e, c, o) = (e, omega (arith, c), o)

  loop-go_on :
      (answer : Option Text) (answers : List (Option Text)) (st : LoopState)
      → ltb max_attempts st.attempt ≡ false
      → loop body (answer ∷ answers) st ≡ go_on (body answer st) (loop body answers)
  unfolding loop
  loop-go_on answer answers st h = rw h refl

  heard-drops :
      (answer : Option Text) (answers : List (Option Text))
      → is_wait answer ≡ true
      → heard (answer ∷ answers) ≡ heard answers
  heard-drops answer answers h = rw h refl

  heard-keeps :
      (answer : Option Text) (answers : List (Option Text))
      → is_wait answer ≡ false
      → heard (answer ∷ answers) ≡ answer ∷ heard answers
  heard-keeps answer answers h = rw h refl

  loop-paused :
      (answer : Option Text) (answers : List (Option Text)) (st : LoopState)
      → ltb max_attempts st.attempt ≡ false
      → is_wait answer ≡ true
      → loop body (answer ∷ answers) st
        ≡ (subscribe ∷ sleep max_backoff ∷ (loop body answers st).0, (loop body answers st).1)
  loop-paused none answers st l h = ground (arith, h)
  loop-paused (some e) answers st l h =
      loop-go_on (some e) answers st l ∙ ap (λ n. go_on n (loop body answers)) (body-waits e st h)

  loop-SameBut :
      (answers : List (Option Text)) (st : LoopState)
      → SameBut (loop body answers st) (loop body (heard answers) st)
  loop-SameBut [] st = (refl, refl, refl)
  loop-SameBut (answer ∷ answers) st =
      let same = loop-SameBut answers in
      elim (Bool-cases (ltb max_attempts st.attempt)) [
        | inl spent ↦
            rw (spent_loop (answer ∷ answers) st spent)
              (rw (spent_loop (heard (answer ∷ answers)) st spent) (refl, refl, refl))
        | inr left ↦ elim (Bool-cases (is_wait answer)) [
          | inl wait ↦ rw (loop-paused answer answers st left wait) (
              rw (heard-drops answer answers wait)
                (pause-SameBut (loop body answers st) (loop body (heard answers) st) (same st)))
          | inr other ↦ rw (loop-go_on answer answers st left) (
              rw (heard-keeps answer answers other) (
                rw (loop-go_on answer (heard answers) st left) (
                  go_on-SameBut (body answer st) (loop body answers) (loop body (heard answers))
                    same)))
        ]
      ]

  -- Waiting for the stream does not use up the attempts. The answers which say that the stream is not
  -- there, and not that the consumer is a legacy one, make no difference but calls with a pause of
  -- thirty seconds after each: without them the goroutine ends in the same way, and its other waits
  -- and its deletion are the same in the same order. Of its calls, those that are not answered that
  -- the stream is not there are at most forty; the stale consumer is deleted once at most, and never
  -- when the stream's name is empty.
  pub stream_waits_free :
      (settle : ℤ) (answers : List (Option Text))
      → let run = subscribe_queue_with_rebind settle stream queue answers in
        SameBut run (subscribe_queue_with_rebind settle stream queue (heard answers))
        × (count_by is_subscribe run.0 ≤ max_attempts + count_by is_missing answers)
        × (count_by is_delete run.0 ≤ (if stream == [] then 0 else 1))
  unfolding subscribe_queue_with_rebind
  stream_waits_free settle answers =
      let (e, c, o) = loop-SameBut answers fresh in
      let (calls, deletes) = subscribe_queue_calls stream queue settle answers in
      ((e, omega (arith, c), ground (arith, o)), calls, deletes)
