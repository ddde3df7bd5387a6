-- ===== src/BalanceAlert/Subject.antt =====
-- The subject on which an alert is published.
use shared_events.Prelude.{ℕ-Eq, Text-Eq, Result, arith, err, none, ok, some, ℕ, ◌≡◌}
use shared_events.Event
use shared_events.Event.{Event, new_event}
use shared_events.BalanceAlert.{
  Alert, Surroundings, with_tenant, if_valid, validate, event, subject,
}

with_tenant-subject :
    (x : Surroundings) (a : Alert) (t : Result ℕ) (e : Event)
    → with_tenant x a t ≡ ok e
    → Event.subject e ≡ subject
unfolding shared_events.Event.subject new_event
with_tenant-subject x a (err m) e h = cc
with_tenant-subject x a (ok t) e h = ground (arith, h)

-- Whatever the alert, its event is published on billing.balance.low.
event-subject :
    (x : Surroundings) (a : Alert) (e : Event) → event x a ≡ ok e → Event.subject e ≡ subject
unfolding event
event-subject x a e h =
    elim (validate x.quoted a) as (λ v. if_valid x a v ≡ ok e → Event.subject e ≡ subject) [
      | none ↦ λ k. with_tenant-subject x a _ e k
      | some m ↦ λ k. cc
    ]
      h
