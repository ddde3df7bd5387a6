-- ===== src/Rebind/Bounds.antt =====
-- How often the queue loop tries, what it deletes, and when it ends.
use shared_events.Prelude.{
  Text-Eq, Bool, Bool-cases, List, Option, Text, [], arith, count_by, false, if◌then◌else◌, inl,
  inr, ltb, none, not, some, true, ℕ, ℤ, ◌+◌, ◌-◌, ◌<◌, ◌==◌, ◌||◌, ◌∷◌, ◌≡◌, ◌≢◌, ◌≤◌,
}
use shared_events.Rebind.{
  max_attempts, stream_missing, Act, subscribe, delete_consumer, Ending, waiting, LoopState, Next,
  finish, again, after_queue_subscribe, go_on, loop, fresh, subscribe_queue_with_rebind,
}

-- The answer says that the stream is not there yet.
abbrev pub is_missing : Option Text → Bool
is_missing none = false
is_missing (some e) = stream_missing e

abbrev pub is_subscribe : Act → Bool
is_subscribe subscribe = true
is_subscribe _ = false

abbrev pub is_delete : Act → Bool
is_delete (delete_consumer stream queue) = true
is_delete _ = false

-- The pass ends the loop, or counts at least this many attempts, and makes no call in its act.
abbrev Counts : ℕ → LoopState → Next → Type 0
Counts k st (finish ending) = ending ≢ waiting
Counts k st (again act st') =
    (st.attempt + k ≤ st'.attempt) × (st'.attempt ≤ st.attempt + 1) × (is_subscribe act ≡ false)

abbrev one_unless : Bool → ℕ
one_unless missing = if missing then 0 else 1

module _ (stream queue : Text) where
  abbrev body : Option Text → LoopState → Next
  body = after_queue_subscribe stream queue

  body-Counts :
      (answer : Option Text) (st : LoopState)
      → Counts (one_unless (is_missing answer)) st (body answer st)
  unfolding after_queue_subscribe
  body-Counts none st = λ e. cc
  body-Counts (some e) st = ground arith

  go_on_ends :
      (k : ℕ) (n : Next) (st : LoopState) (rest : LoopState → List Act × Ending) (left : ℕ)
      → Counts k st n
      → max_attempts < st.attempt + (k + left)
      → ((st' : LoopState) → max_attempts < st'.attempt + left → (rest st').1 ≢ waiting)
      → (go_on n rest).1 ≢ waiting
  go_on_ends k (finish ending) st rest left c h r = c
  go_on_ends k (again act st') st rest left c h r = r st' (omega arith)

  loop_ends :
      (answers : List (Option Text)) (st : LoopState)
      → max_attempts < st.attempt + count_by (λ a. not (is_missing a)) answers
      → (loop body answers st).1 ≢ waiting
  unfolding loop
  loop_ends [] st h = ground arith
  loop_ends (answer ∷ answers) st h = elim (Bool-cases (ltb max_attempts st.attempt)) [
    | inl spent ↦ rw spent (λ e. cc)
    | inr left ↦ rw left (
        go_on_ends (one_unless (is_missing answer)) (body answer st) st (loop body answers)
          (count_by (λ a. not (is_missing a)) answers) (body-Counts answer st) (ground arith)
          (λ st' h'. loop_ends answers st' h'))
  ]

  -- The goroutine ends: after forty answers that do not say that the stream is missing, at most, it
  -- has subscribed, met an error that it does not retry, or given up.
  pub subscribe_queue_ends :
      (settle : ℤ) (answers : List (Option Text))
      → max_attempts ≤ count_by (λ a. not (is_missing a)) answers
      → (subscribe_queue_with_rebind settle stream queue answers).1 ≢ waiting
  unfolding subscribe_queue_with_rebind
  subscribe_queue_ends settle answers h = loop_ends answers fresh (omega arith)

  go_on_calls :
      (k : ℕ) (n : Next) (st : LoopState) (rest : LoopState → List Act × Ending) (missing : ℕ)
      → Counts k st n
      → k ≤ 1
      → st.attempt ≤ max_attempts
      → ((st' : LoopState)
          → st'.attempt ≤ max_attempts + 1
          → count_by is_subscribe (rest st').0 + st'.attempt ≤ max_attempts + 1 + missing)
      → count_by is_subscribe (go_on n rest).0 + st.attempt ≤ max_attempts + 1 + ((1 - k) + missing)
  go_on_calls k (finish ending) st rest missing c k1 h r = omega arith
  go_on_calls k (again act st') st rest missing c k1 h r = ground (arith, r st')

  loop_calls :
      (answers : List (Option Text)) (st : LoopState)
      → st.attempt ≤ max_attempts + 1
      → count_by is_subscribe (loop body answers st).0 + st.attempt
        ≤ max_attempts + 1 + count_by is_missing answers
  unfolding loop
  loop_calls [] st h = ground arith
  loop_calls (answer ∷ answers) st h = elim (Bool-cases (ltb max_attempts st.attempt)) [
    | inl spent ↦ rw spent (omega arith)
    | inr left ↦
        let c =
          go_on_calls (one_unless (is_missing answer)) (body answer st) st (loop body answers)
            (count_by is_missing answers) (body-Counts answer st) (ground arith) (ground arith)
            (λ st' h'. loop_calls answers st' h') in
        rw left (ground (arith, c))
  ]

  abbrev still : LoopState → ℕ
  still st = if st.deleted_stale || stream == [] then 0 else 1

  abbrev Deletes : LoopState → Next → Type 0
  Deletes st (finish ending) = Unit {0}
  Deletes st (again act st') = (if is_delete act then 1 else 0) + still st' ≤ still st

  body-Deletes : (answer : Option Text) (st : LoopState) → Deletes st (body answer st)
  unfolding after_queue_subscribe
  body-Deletes none st = tt
  body-Deletes (some e) st = ground arith

  go_on-Deletes :
      (n : Next) (st : LoopState) (rest : LoopState → List Act × Ending)
      → Deletes st n
      → ((st' : LoopState) → count_by is_delete (rest st').0 ≤ still st')
      → count_by is_delete (go_on n rest).0 ≤ still st
  go_on-Deletes (finish ending) st rest d r = omega arith
  go_on-Deletes (again act st') st rest d r = omega (arith, r st')

  loop_deletes :
      (answers : List (Option Text)) (st : LoopState)
      → count_by is_delete (loop body answers st).0 ≤ still st
  unfolding loop
  loop_deletes [] st = omega arith
  loop_deletes (answer ∷ answers) st = elim (Bool-cases (ltb max_attempts st.attempt)) [
    | inl spent ↦ rw spent (omega arith)
    | inr left ↦ rw left (
        go_on-Deletes (body answer st) st (loop body answers) (body-Deletes answer st)
          (λ st'. loop_deletes answers st'))
  ]

  -- The stale consumer is deleted once at most, and never when the stream's name is empty.
  subscribe_queue_deletes :
      (settle : ℤ) (answers : List (Option Text))
      → count_by is_delete (subscribe_queue_with_rebind settle stream queue answers).0
        ≤ (if stream == [] then 0 else 1)
  unfolding subscribe_queue_with_rebind
  subscribe_queue_deletes settle answers = ground (arith, loop_deletes answers fresh)

  -- Of the calls to QueueSubscribe, those that are not answered that the stream is missing are at most
  -- forty. The stale consumer is deleted
  -- once at most, and never when the stream's name is empty.
  pub subscribe_queue_calls :
      (settle : ℤ) (answers : List (Option Text))
      → let acts = (subscribe_queue_with_rebind settle stream queue answers).0 in
        (count_by is_subscribe acts ≤ max_attempts + count_by is_missing answers)
        × (count_by is_delete acts ≤ (if stream == [] then 0 else 1))
  unfolding subscribe_queue_with_rebind
  subscribe_queue_calls settle answers = (
    omega (arith, loop_calls answers fresh (omega arith)),
    subscribe_queue_deletes settle answers,
  )
