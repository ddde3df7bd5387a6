-- ===== src/BalanceAlert/Tests.antt =====
-- Amounts in hundredths. Three calls of two replicas, and the theorems at concrete amounts and alerts.
use shared_events.Prelude.{
  ℕ-Eq, Text-Eq, List, Text, [], arith, codes, decimal, err, false, if◌then◌else◌, leb, length,
  negsuc, none, pos, refl, text_eq_refl, true, ℕ, ℤ, ◌*◌, ◌+◌, ◌==◌, ◌||◌, ◌∷◌, ◌≡◌, ◌≤◌,
}
use Prim.Native.Nat.{◌/◌}
use shared_events.Event.{Time}
use shared_events.BalanceAlert.{
  ClaimFunc, low_mark, Amounts, level_low, crossed, level_of, Alert, Surroundings, dedupe_key,
  owner, validate, event, notify,
}
use shared_events.BalanceAlert.Levels.{IsOrder, same_level, crossed-level_of}
use shared_events.BalanceAlert.Once.{IsClaimOnce, Call, count_published, notify_once}

abbrev cents : Amounts
cents = record {
  Amount = ℕ;
  le = leb;
  times = λ a b. a * b / 100;
  nought = 0;
  one = 100;
  default_low_ratio = 20;
}

default_mark : low_mark cents 500 0 ≡ 100
unfolding low_mark
default_mark = refl

cents-IsOrder : IsOrder cents
cents-IsOrder = record { total = λ a b. ground arith; trans = λ a b c h k. ground arith }

crossed-level_of_example : crossed cents 25 20 20 ≡ (
    if leb 25 20 || same_level (level_of cents 25 20) (level_of cents 20 20)
    then none
    else level_of cents 20 20)
crossed-level_of_example = crossed-level_of cents 25 20 20 cents-IsOrder

abbrev low_sms : Alert
low_sms = record {
  scope = codes "platform";
  tenant_id = [];
  resource = codes "sms";
  resource_label = [];
  level = level_low;
  remaining = 19;
  unit = codes "messages";
  threshold = 20;
  period = codes "2026-11";
  buy_url = [];
  estimate = false;
  occurred_at = none;
  epoch = codes "1500";
}

abbrev around : Surroundings
around = record {
  uuid = record { print = λ u. u ∷ []; parse = λ s. err (codes "invalid UUID") };
  quoted = λ s. s;
  sha1 = length;
  round2 = λ v. v;
  stamp = decimal;
  fresh = 3;
  now = 4;
}

-- The keys with the times up to which they are taken.
abbrev Taken : Type 0
Taken = List (Text × Time)

abbrev until : Text → Taken → Time
until key [] = 0
until key ((k, t) ∷ rest) = if k == key then t else until key rest

-- A time to live below zero is refused by taking nothing.
abbrev taken_to : Time → ℤ → Time
taken_to now (pos ttl) = now + ttl
taken_to now (negsuc n) = now

abbrev claim : Time → ClaimFunc Taken
claim now key ttl s =
    if leb (until key s) now then (true, (key, taken_to now ttl) ∷ s) else (false, s)

claim-IsClaimOnce : IsClaimOnce claim until
claim-IsClaimOnce = record {
  won = λ now key ttl s. ground arith;
  takes = λ now key ttl s p h. ground (arith, text_eq_refl key);
  keeps = λ now key ttl s h. ground arith;
  others = λ now key other ttl s h. ground arith;
}

-- A call at the time, with a claim for a hundred.
abbrev call_at : Time → Call
call_at now = record {
  at = now;
  around = around;
  ttl = pos 100;
  publish = λ evt. none;
  alert = low_sms;
}

abbrev key : Text
key = codes "balance-low:platform:platform:sms:low:2026-11:1500"

abbrev calls : List Call
calls = call_at 20 ∷ call_at 70 ∷ call_at 119 ∷ []

-- After its time to live the key is won again.
published_again : count_published claim key (call_at 20 ∷ call_at 119 ∷ call_at 120 ∷ []) [] ≡ 2
unfolding notify event validate dedupe_key owner
published_again = refl

notify_once_example : count_published claim key calls [] ≤ 1
notify_once_example = notify_once claim until key 20 100 calls [] claim-IsClaimOnce refl
