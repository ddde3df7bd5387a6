-- ===== src/Rebind/Settle.antt =====
-- RebindSettle: a duration in nanoseconds, an int64 with its sign; and what it uses of `strconv.Atoi`.
pub mod Range
use shared_events.Prelude.{
  ℕ-Eq, Text-Eq, Option, Text, [], if◌then◌else◌, leb, ltb, negsuc, none, pos, some, suc, zero, ℕ,
  ℤ, ◌&&◌, ◌*◌, ◌+◌, ◌-◌, ◌==◌, ◌∷◌,
}
use Prim.Native.Nat.{◌^◌, ◌%◌}
use shared_events.Rebind.{second}

abbrev pub int_limit : ℕ
int_limit = 2 ^ 63

-- The digits read so far, as a number; `none` is a syntax error.
unfoldable pub digits : ℕ → Text → Option ℕ
digits n [] = some n
digits n (c ∷ s) = if leb 48 c && leb c 57 then digits (n * 10 + (c - 48)) s else none

-- One digit at least.
abbrev pub unsigned : Text → Option ℕ
unsigned [] = none
unsigned (c ∷ s) = digits 0 (c ∷ s)

abbrev positive : Option ℕ → Option ℤ
positive none = none
positive (some n) = if ltb n int_limit then some (pos n) else none

abbrev negative : Option ℕ → Option ℤ
negative none = none
negative (some zero) = some (pos 0)
negative (some (suc n)) = if ltb n int_limit then some (negsuc n) else none

-- `none` is an error: of syntax, or out of the range of an int.
unfoldable pub atoi : Text → Option ℤ
unfolding digits
atoi [] = none
atoi (c ∷ s) =
    if c == b'+'
    then positive (unsigned s)
    else if c == b'-'
    then negative (unsigned s)
    else positive (unsigned (c ∷ s))

-- The int64 that has the bits of a number below 2 ^ 64.
abbrev of_bits : ℕ → ℤ
of_bits n = if ltb n int_limit then pos n else negsuc (2 ^ 64 - 1 - n)

abbrev seconds_or : Option ℤ → ℤ
seconds_or (some (pos n)) = of_bits ((n * second) % 2 ^ 64)
seconds_or _ = pos (25 * second)

-- `env` is what `os.Getenv` gives. The product wraps as that of int64 does.
unfoldable pub rebind_settle : Text → ℤ
rebind_settle env = if env == [] then pos (25 * second) else seconds_or (atoi env)
