-- ===== src/BalanceAlert.antt =====
-- balancealert/balancealert.go: when a balance is low, the key that makes an alert unique, and
-- Notify. An amount is a float64; the code only compares amounts here, so they are a type with a
-- comparison, a product and the constants of the code where it computes with them, and the bit pattern
-- of one in the payload, whose rounding is an argument.
pub mod Levels
pub mod Once
mod Subject
mod Tests
use shared_events.Prelude.{
  Text-Eq, Bool, Option, Result, Text, [], codes, err, false, if◌then◌else◌, join, none, not, ok,
  some, true, ℕ, ℤ, ◌&&◌, ◌++◌, ◌==◌, ◌||◌, ◌∷◌,
}
use shared_events.Event.{
  Value, string, number, boolean, Uuid, nil_uuid, Time, Dict, Event, UuidCodec, new_event,
}

-- `le a b` is `a <= b`, and the order of the code's comparisons; `times` is the product.
pub record Amounts : Type 1 where
  pub Amount : Type 0
  pub le : Amount → Amount → Bool
  pub times : Amount → Amount → Amount
  pub nought : Amount
  pub one : Amount
  pub default_low_ratio : Amount

module _ (m : Amounts) where
  abbrev ratio_or_default : m.Amount → m.Amount
  ratio_or_default ratio =
      if m.le ratio m.nought || m.le m.one ratio then m.default_low_ratio else ratio

  unfoldable pub low_mark : m.Amount → m.Amount → m.Amount
  low_mark total ratio =
      if m.le total m.nought then m.nought else m.times total (ratio_or_default ratio)

abbrev aggregate_type : Text
aggregate_type = codes "billing"

abbrev event_type : Text
event_type = codes "balance.low"

abbrev pub subject : Text
subject = aggregate_type ++ codes "." ++ event_type

abbrev stream_subjects : Text
stream_subjects = aggregate_type ++ codes ".>"

abbrev pub level_low : Text
level_low = codes "low"

abbrev pub level_empty : Text
level_empty = codes "empty"

module _ (m : Amounts) where
  -- `none` is crossed = false.
  unfoldable pub crossed : m.Amount → m.Amount → m.Amount → Option Text
  crossed before after low_mark =
      if m.le before after
      then none
      else if not (m.le before m.nought) && m.le after m.nought
      then some level_empty
      else if not (m.le low_mark m.nought) && not (m.le before low_mark) && m.le after low_mark
      then some level_low
      else none

  -- `none` is low = false.
  unfoldable pub level_of : m.Amount → m.Amount → Option Text
  level_of remaining low_mark =
      if m.le remaining m.nought
      then some level_empty
      else if not (m.le low_mark m.nought) && m.le remaining low_mark
      then some level_low
      else none

-- `occurred_at` is `none` for the zero time.
pub record Alert : Type 0 where
  pub scope : Text
  pub tenant_id : Text
  pub resource : Text
  pub resource_label : Text
  pub level : Text
  pub remaining : ℕ
  pub unit : Text
  pub threshold : ℕ
  pub period : Text
  pub buy_url : Text
  pub estimate : Bool
  pub occurred_at : Option Time
  pub epoch : Text

abbrev pub scope_tenant : Text
scope_tenant = codes "tenant"

abbrev pub scope_platform : Text
scope_platform = codes "platform"

unfoldable pub owner : Alert → Text
owner a = if a.scope == scope_tenant then a.tenant_id else scope_platform

unfoldable pub dedupe_key : Alert → Text
unfolding owner
dedupe_key a =
    let k =
      join (codes ":")
        (codes "balance-low" ∷ a.scope ∷ owner a ∷ a.resource ∷ a.level ∷ a.period ∷ []) in
    if a.epoch == [] then k else k ++ codes ":" ++ a.epoch

-- `%q` is an argument, `quoted`.
unfoldable pub validate : (Text → Text) → Alert → Option Text
validate quoted a =
    if not (a.scope == scope_tenant) && not (a.scope == scope_platform)
    then some (codes "balancealert: scope " ++ quoted a.scope)
    else if a.scope == scope_tenant && a.tenant_id == []
    then some (codes "balancealert: tenant scope needs tenant_id")
    else if a.resource == []
    then some (codes "balancealert: resource is required")
    else if not (a.level == level_low) && not (a.level == level_empty)
    then some (codes "balancealert: level " ++ quoted a.level)
    else if a.period == []
    then some (codes "balancealert: period is required")
    else none

abbrev label : Alert → Text
label a = if a.resource_label == [] then a.resource else a.resource_label

-- An entry of the map that is set under a condition.
abbrev when : Bool → Text → Value → Dict
when true key value = (key, value) ∷ []
when false key value = []

abbrev time_or : Time → Option Time → Time
time_or now none = now
time_or now (some at) = at

-- `round2` rounds a float64 to two places, `stamp` prints a time as RFC 3339 in UTC.
unfoldable pub payload : (ℕ → ℕ) → (Time → Text) → Time → Alert → Dict
payload round2 stamp now a =
    (codes "scope", string a.scope)
      ∷ (codes "resource", string a.resource)
      ∷ (codes "resource_label", string (label a))
      ∷ (codes "level", string a.level)
      ∷ (codes "remaining", number (round2 a.remaining))
      ∷ (codes "unit", string a.unit)
      ∷ (codes "threshold", number (round2 a.threshold))
      ∷ (codes "period", string a.period)
      ∷ (codes "occurred_at", string (stamp (time_or now a.occurred_at)))
      ∷ when (not (a.tenant_id == [])) (codes "tenant_id") (string a.tenant_id)
    ++ when (not (a.buy_url == [])) (codes "buy_url") (string a.buy_url)
    ++ when a.estimate (codes "estimate") (boolean true)

-- What Event takes from its surroundings: the UUID package, with `uuid.NewSHA1` of a name under the
-- namespace of URLs, `uuid.New` and the clock.
pub record Surroundings : Type 0 where
  pub uuid : UuidCodec
  pub quoted : Text → Text
  pub sha1 : Text → Uuid
  pub round2 : ℕ → ℕ
  pub stamp : Time → Text
  pub fresh : Uuid
  pub now : Time

-- A claim of a key for a time to live, on the state of its backend.
abbrev pub ClaimFunc : Type 0 → Type 0
ClaimFunc S = Text → ℤ → S → Bool × S

-- A publish, by its error.
abbrev pub PublishFunc : Type 0
PublishFunc = Event → Option Text

abbrev pub Notified : Type 0 → Type 0
Notified S = (Bool × Option Text) × Option Event × S

module _ (x : Surroundings) where
  abbrev pub with_tenant : Alert → Result Uuid → Result Event
  with_tenant a (err e) = err (codes "balancealert: tenant_id: " ++ e)
  with_tenant a (ok tenant) = ok (
      new_event x.fresh x.now event_type aggregate_type (x.sha1 (dedupe_key a)) tenant
        (payload x.round2 x.stamp x.now a))

  abbrev pub if_valid : Alert → Option Text → Result Event
  if_valid a (some e) = err e
  if_valid a none =
      with_tenant a (if a.scope == scope_tenant then x.uuid.parse a.tenant_id else ok nil_uuid)

  unfoldable pub event : Alert → Result Event
  event a = if_valid a (validate x.quoted a)

  -- The claim of a key on the state of its backend; `none` is the nil function. `publish` gives the
  -- error of the publish. The result is what Notify returns, the event handed to publish, if any,
  -- and the state.
  module _ {S : Type 0} (publish : PublishFunc) where
    abbrev pub published : Event → S → Notified S
    published evt s = ((true, publish evt), some evt, s)

    abbrev pub if_won : Event → Bool × S → Notified S
    if_won evt (false, s) = ((false, none), none, s)
    if_won evt (true, s) = published evt s

    abbrev pub claimed : Option (ClaimFunc S) → ℤ → Alert → Result Event → S → Notified S
    claimed claim ttl a (err e) s = ((false, some e), none, s)
    claimed none ttl a (ok evt) s = published evt s
    claimed (some claim) ttl a (ok evt) s = if_won evt (claim (dedupe_key a) ttl s)

    unfoldable pub notify : Option (ClaimFunc S) → ℤ → Alert → S → Notified S
    notify claim ttl a s = claimed claim ttl a (event a) s
