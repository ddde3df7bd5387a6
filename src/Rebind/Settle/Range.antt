-- ===== src/Rebind/Settle/Range.antt =====
-- Which settings RebindSettle takes as they are.
use shared_events.Prelude.{
  Text-Eq, ℕ-Eq, Bool, Text, [], arith, decimal, decimal_from, false, if◌then◌else◌, leb, ltb, none,
  pos, refl, some, suc, true, zero, ℕ, ◌&&◌, ◌*◌, ◌+◌, ◌<◌, ◌==◌, ◌↔◌, ◌∷◌, ◌≡◌, ◌≤◌,
}
use Prim.Native.Nat.{◌%◌, ◌/◌}
use shared_events.Rebind.{second}
use shared_events.Rebind.Settle.{digits, atoi, rebind_settle, int_limit}

abbrev starts_digit : Text → Bool
starts_digit [] = false
starts_digit (c ∷ s) = leb 48 c && leb c 57

decimal_from-starts_digit :
    (fuel n : ℕ) (rest : Text)
    → starts_digit rest ≡ true
    → starts_digit (decimal_from fuel n rest) ≡ true
unfolding decimal_from
decimal_from-starts_digit zero n rest h = h
decimal_from-starts_digit (suc fuel) n rest h =
    ground (arith, decimal_from-starts_digit fuel (n / 10) ((48 + n % 10) ∷ rest))

decimal-starts_digit : (n : ℕ) → starts_digit (decimal n) ≡ true
unfolding decimal decimal_from
decimal-starts_digit n = ground (arith, decimal_from-starts_digit n (n / 10) ((48 + n % 10) ∷ []))

digits-decimal_from :
    (fuel n : ℕ) (rest : Text) → n < fuel → digits 0 (decimal_from fuel n rest) ≡ digits n rest
unfolding decimal_from digits
digits-decimal_from zero n rest h = ground arith
digits-decimal_from (suc fuel) n rest h =
    ground (arith, digits-decimal_from fuel (n / 10) ((48 + n % 10) ∷ rest))

digits-decimal : (n : ℕ) → digits 0 (decimal n) ≡ some n
unfolding decimal digits
digits-decimal n = digits-decimal_from (suc n) n [] (omega arith)

-- A text of a digit and more is an unsigned number.
atoi-digits :
    (s : Text) (n : ℕ)
    → starts_digit s ≡ true
    → digits 0 s ≡ some n
    → atoi s ≡ (if ltb n int_limit then some (pos n) else none)
unfolding atoi digits
atoi-digits [] n h d = ground arith
atoi-digits (c ∷ s) n h d = ground (arith, d)

atoi-decimal : (n : ℕ) → atoi (decimal n) ≡ (if ltb n int_limit then some (pos n) else none)
atoi-decimal n = atoi-digits (decimal n) n (decimal-starts_digit n) (digits-decimal n)

is_given : (s : Text) → starts_digit s ≡ true → (s == []) ≡ false
is_given [] h = ground arith
is_given (c ∷ s) h = refl

-- RebindSettle takes a setting of n seconds as n seconds, in nanoseconds, for the n up to
-- 9223372036, and for no other: above, the product leaves the range of an int64 and wraps around,
-- and from 2 ^ 63 on Atoi fails and the delay is the default.
pub settle_exact : (n : ℕ) → (rebind_settle (decimal n) ≡ pos (n * second)) ↔ (n ≤ 9_223_372_036)
unfolding rebind_settle
settle_exact n =
    rw (is_given (decimal n) (decimal-starts_digit n)) (rw (atoi-decimal n) (ground arith))
