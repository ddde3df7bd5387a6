-- ===== src/BalanceAlert/Once.antt =====
-- One alert for each key while a claim lives.
use shared_events.Prelude.{
  ℕ-Eq, Text-Eq, Bool, Bool-cases, List, Option, Result, Text, [], all_of, ap, arith, err, false,
  if◌then◌else◌, inl, inr, leb, ltb, negsuc, none, ok, pos, refl, some, sym, text_eq_iff, true, ℕ,
  ℤ, ◌&&◌, ◌+◌, ◌<◌, ◌==◌, ◌∙◌, ◌∷◌, ◌≡◌, ◌≤◌,
}
use mathlib.Core.Path.{subst}
use shared_events.Event.{Event, Time}
use shared_events.BalanceAlert.{
  Alert, Surroundings, ClaimFunc, dedupe_key, event, Notified, if_won, claimed, notify,
}

-- A claim backend with a clock, such as SET NX with an expiry: `until` is the time up to which a key
-- is taken.
pub record IsClaimOnce {S : Type 0} (claim : Time → ClaimFunc S) (until : Text → S → Time)
    : Type 0 where
  -- a claim is won exactly if the key is not taken any more
  pub won :
      (now : Time) (key : Text) (ttl : ℤ) (s : S) → (claim now key ttl s).0 ≡ leb (until key s) now
  -- and then it takes the key for its time to live at least
  pub takes :
      (now : Time) (key : Text) (ttl : ℕ) (s : S)
      → 0 < ttl
      → until key s ≤ now
      → now + ttl ≤ until key (claim now key (pos ttl) s).1
  -- a claim that is not won changes nothing, and no claim changes another key
  pub keeps :
      (now : Time) (key : Text) (ttl : ℤ) (s : S)
      → now < until key s
      → until key (claim now key ttl s).1 ≡ until key s
  pub others :
      (now : Time) (key other : Text) (ttl : ℤ) (s : S)
      → (other == key) ≡ false
      → until key (claim now other ttl s).1 ≡ until key s

abbrev is_some : Option Event → Bool
is_some none = false
is_some (some evt) = true

abbrev is_ok : Result Event → Bool
is_ok (ok evt) = true
is_ok (err e) = false

-- A call of Notify, by some replica: the backend's time of its claim, and its arguments.
pub record Call : Type 0 where
  pub at : Time
  pub around : Surroundings
  pub ttl : ℤ
  pub publish : Event → Option Text
  pub alert : Alert

module _ {S : Type 0} (claim : Time → ClaimFunc S) where
  abbrev pub call : Call → S → Notified S
  call c s = notify c.around c.publish (some (claim c.at)) c.ttl c.alert s

  -- The number of the calls that hand an event with the key to their publish.
  abbrev pub count_published : Text → List Call → S → ℕ
  count_published key [] s = 0
  count_published key (c ∷ calls) s =
      (if dedupe_key c.alert == key && is_some (call c s).1 then 1 else 0)
      + count_published key calls (call c s).2

abbrev lives : ℕ → ℤ → Bool
lives d (pos n) = leb d n
lives d (negsuc n) = false

-- The call is made between the two times, with a claim that lives as long.
abbrev pub is_within : Time → ℕ → Call → Bool
is_within since d c = leb since c.at && ltb c.at (since + d) && lives d c.ttl

-- The call has an alert of the key that is valid.
abbrev pub alerts : Text → Call → Bool
alerts key c = dedupe_key c.alert == key && is_ok (event c.around c.alert)

module _ {S : Type 0} (claim : Time → ClaimFunc S) (until : Text → S → Time)
    (k : IsClaimOnce claim until) (key : Text) where
  if_won-state :
      (x : Surroundings) (publish : Event → Option Text) (evt : Event) (r : Bool × S)
      → (if_won x publish evt r).2 ≡ r.1
  if_won-state x publish evt (false, s) = refl
  if_won-state x publish evt (true, s) = refl

  if_won-event :
      (x : Surroundings) (publish : Event → Option Text) (evt : Event) (r : Bool × S)
      → is_some (if_won x publish evt r).1 ≡ r.0
  if_won-event x publish evt (false, s) = refl
  if_won-event x publish evt (true, s) = refl

  -- A call hands its event on exactly if the alert is valid and its key free.
  claimed-event :
      (x : Surroundings) (publish : Event → Option Text) (now : Time) (ttl : ℤ) (a : Alert)
      (r : Result Event) (s : S)
      → is_some (claimed x publish (some (claim now)) ttl a r s).1
        ≡ (is_ok r && leb (until (dedupe_key a) s) now)
  claimed-event x publish now ttl a (err e) s = refl
  claimed-event x publish now ttl a (ok evt) s =
      if_won-event x publish evt (claim now (dedupe_key a) ttl s) ∙ k.won now (dedupe_key a) ttl s

  claim-takes :
      (now : Time) (other : Text) (ttl : ℕ) (s : S)
      → 0 < ttl
      → (other == key && leb (until key s) now) ≡ true
      → now + ttl ≤ until key (claim now other (pos ttl) s).1
  claim-takes now other ttl s p h =
      subst (λ o. now + ttl ≤ until key (claim now o (pos ttl) s).1)
        (sym ((text_eq_iff other key).0 (ground (arith, h))))
        (k.takes now key ttl s p (ground (arith, h)))

  claim-keeps :
      (now : Time) (other : Text) (ttl : ℤ) (s : S)
      → (other == key && leb (until key s) now) ≡ false
      → until key (claim now other ttl s).1 ≡ until key s
  claim-keeps now other ttl s h = elim (Bool-cases (other == key)) [
    | inl same ↦
        subst (λ o. until key (claim now o ttl s).1 ≡ until key s)
          (sym ((text_eq_iff other key).0 same)) (k.keeps now key ttl s (ground (arith, same, h)))
    | inr differs ↦ k.others now key other ttl s differs
  ]

  abbrev wins : Time → Alert → Result Event → S → Bool
  wins now a r s = dedupe_key a == key && is_ok r && leb (until key s) now

  claimed-takes :
      (x : Surroundings) (publish : Event → Option Text) (now : Time) (ttl : ℕ) (a : Alert)
      (r : Result Event) (s : S)
      → 0 < ttl
      → wins now a r s ≡ true
      → now + ttl ≤ until key (claimed x publish (some (claim now)) (pos ttl) a r s).2
  claimed-takes x publish now ttl a (err e) s p h = absurd (ground (arith, h))
  claimed-takes x publish now ttl a (ok evt) s p h =
      rw (if_won-state x publish evt (claim now (dedupe_key a) (pos ttl) s))
        (claim-takes now (dedupe_key a) ttl s p (ground (arith, h)))

  claimed-keeps :
      (x : Surroundings) (publish : Event → Option Text) (now : Time) (ttl : ℤ) (a : Alert)
      (r : Result Event) (s : S)
      → wins now a r s ≡ false
      → until key (claimed x publish (some (claim now)) ttl a r s).2 ≡ until key s
  claimed-keeps x publish now ttl a (err e) s h = refl
  claimed-keeps x publish now ttl a (ok evt) s h =
      rw (if_won-state x publish evt (claim now (dedupe_key a) ttl s))
        (claim-keeps now (dedupe_key a) ttl s (ground (arith, h)))

  -- The call publishes under the key.
  abbrev publishes : Call → S → Bool
  publishes c s = alerts key c && leb (until key s) c.at

  call-publishes :
      (c : Call) (s : S) → (dedupe_key c.alert == key && is_some (call claim c s).1) ≡ publishes c s
  unfolding notify
  call-publishes c s = elim (Bool-cases (dedupe_key c.alert == key)) [
    | inl same ↦ rw same (
        claimed-event c.around c.publish c.at c.ttl c.alert (event c.around c.alert) s
        ∙ ap (λ o. is_ok (event c.around c.alert) && leb (until o s) c.at)
            ((text_eq_iff (dedupe_key c.alert) key).0 same))
    | inr differs ↦ rw differs refl
  ]

  -- What a call in the window leaves of the key.
  ttl-takes :
      (since : Time) (d : ℕ) (c : Call) (s : S) (ttl : ℤ)
      → c.ttl ≡ ttl
      → is_within since d c ≡ true
      → publishes c s ≡ true
      → since + d ≤ until key (call claim c s).2
  unfolding notify
  ttl-takes since d c s (pos n) q w h = rw q (
      let taken =
        claimed-takes c.around c.publish c.at n c.alert (event c.around c.alert) s
          (ground (arith, q, w)) (ground (arith, h)) in
      omega (arith, taken, room))
    where
      room : since + d ≤ c.at + n
      room = ground (arith, q, w)
  ttl-takes since d c s (negsuc n) q w h = absurd (ground (arith, q, w))

  call-keeps :
      (c : Call) (s : S) → publishes c s ≡ false → until key (call claim c s).2 ≡ until key s
  unfolding notify
  call-keeps c s h =
      claimed-keeps c.around c.publish c.at c.ttl c.alert (event c.around c.alert) s
        (ground (arith, h))

  no_more_published :
      (since : Time) (d : ℕ) (calls : List Call) (s : S)
      → all_of (is_within since d) calls ≡ true
      → since + d ≤ until key s
      → count_published claim key calls s ≡ 0
  no_more_published since d [] s w h = refl
  no_more_published since d (c ∷ calls) s w h = ground (
    arith,
    ttl-takes since d c s c.ttl refl,
    call-keeps c s,
    call-publishes c s,
    no_more_published since d calls (call claim c s).2,
  )

  at_most_once :
      (since : Time) (d : ℕ) (calls : List Call) (s : S)
      → all_of (is_within since d) calls ≡ true
      → count_published claim key calls s ≤ 1
  at_most_once since d [] s w = ground arith
  at_most_once since d (c ∷ calls) s w = ground (
    arith,
    ttl-takes since d c s c.ttl refl,
    call-keeps c s,
    call-publishes c s,
    no_more_published since d calls (call claim c s).2,
    at_most_once since d calls (call claim c s).2,
  )

-- However many replicas call Notify, with whatever alerts and publishes and in whatever order, an
-- event is published once at most for each dedupe key while a claim lives: in any span of time, if
-- the claims of the calls made in it live at least as long as the span. For a claim backend that
-- lets a key be won when it is not taken, takes it for the time to live, at least, of the claim that
-- won, and leaves it in all other claims.
pub notify_once :
    {S : Type 0} (claim : Time → ClaimFunc S) (until : Text → S → Time) (key : Text) (since : Time)
    (d : ℕ) (calls : List Call) (s : S)
    → IsClaimOnce claim until
    → all_of (is_within since d) calls ≡ true
    → count_published claim key calls s ≤ 1
notify_once claim until key since d calls s k w = at_most_once claim until k key since d calls s w
