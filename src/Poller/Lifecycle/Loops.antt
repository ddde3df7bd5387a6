-- ===== src/Poller/Lifecycle/Loops.antt =====
-- Counts on the goroutines of the poller.
use shared_events.Prelude.{
  Bool, List, [], arith, count_by, false, true, ℕ, ◌*◌, ◌++◌, ◌+◌, ◌∷◌, ◌≡◌, ◌≤◌,
}
use shared_events.Poller.Lifecycle.{Loop, polling, selecting, ended, Stopping, not_called, waiting}

abbrev pub is_live : Loop → Bool
is_live ended = false
is_live _ = true

-- The loops that have not returned.
abbrev pub live : List Loop → ℕ
live loops = count_by is_live loops

pub live-append : (xs ys : List Loop) → live (xs ++ ys) ≡ live xs + live ys
live-append [] ys = omega arith
live-append (x ∷ xs) ys = omega (arith, live-append xs ys)

-- Once Stop is called its channel is closed.
abbrev pub is_called : Stopping → Bool
is_called not_called = false
is_called _ = true

abbrev pub weight : Loop → ℕ
weight polling = 2
weight selecting = 1
weight ended = 0

abbrev pub weights : List Loop → ℕ
weights [] = 0
weights (l ∷ loops) = weight l + weights loops

pub weights-append : (xs ys : List Loop) → weights (xs ++ ys) ≡ weights xs + weights ys
weights-append [] ys = omega arith
weights-append (x ∷ xs) ys = omega (arith, weights-append xs ys)

abbrev pub to_return : Stopping → ℕ
to_return waiting = 1
to_return _ = 0

pub weights-le : (loops : List Loop) → weights loops ≤ 2 * live loops
weights-le [] = omega arith
weights-le (polling ∷ loops) = omega (arith, weights-le loops)
weights-le (selecting ∷ loops) = omega (arith, weights-le loops)
weights-le (ended ∷ loops) = omega (arith, weights-le loops)
