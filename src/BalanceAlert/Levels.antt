-- ===== src/BalanceAlert/Levels.antt =====
-- The two ways to raise an alert: from a movement, and from a balance.
use shared_events.Prelude.{
  Text-Eq, Bool, Option, Text, arith, false, if◌then◌else◌, none, some, true, ◌==◌, ◌||◌, ◌≡◌,
}
use shared_events.BalanceAlert.{Amounts, crossed, level_of}

-- The comparison of float64 without NaN.
pub record IsOrder (m : Amounts) : Type 0 where
  pub total : (a b : m.Amount) → (m.le a b || m.le b a) ≡ true
  pub trans : (a b c : m.Amount) → m.le a b ≡ true → m.le b c ≡ true → m.le a c ≡ true

-- Whether the two levels are one.
abbrev pub same_level : Option Text → Option Text → Bool
same_level none none = true
same_level (some a) (some b) = a == b
same_level _ _ = false

-- A movement crosses a mark exactly when it goes down and the level of the balance after it is not
-- the level before it, and then it crosses into that level: Crossed says of a movement what LevelOf
-- says before and after. For amounts in a total order, so without NaN.
pub crossed-level_of :
    (m : Amounts) (before after low_mark : m.Amount)
    → IsOrder m
    → crossed m before after low_mark ≡ (
        if m.le before after || same_level (level_of m before low_mark) (level_of m after low_mark)
        then none
        else level_of m after low_mark)
unfolding crossed level_of
crossed-level_of m before after low_mark o = ground (
  arith,
  o.total before after,
  o.total low_mark m.nought,
  o.trans before m.nought low_mark,
  o.trans after before m.nought,
  o.trans after before low_mark,
)
