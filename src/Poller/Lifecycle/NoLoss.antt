-- ===== src/Poller/Lifecycle/NoLoss.antt =====
-- What Start, Stop and the polls of a poller leave of a record.
use shared_events.Prelude.{
  ℕ-Eq, Text-Eq, Bytes, List, Option, Result, Text, [], arith, contains, err, inl, inr, none, ok,
  some, sym, true, ◌∷◌, ◌≡◌, ◌⊎◌,
}
use mathlib.Core.Path.{subst}
use shared_events.Event.{Uuid, Time, Event, JsonCodec, from_json}
use shared_events.Outbox.{OutboxRecord}
use shared_events.Outbox.Repository.{Table, ids, get_pending_records}
use shared_events.Outbox.Repository.Payloads.{
  has_payload, has_payload-get_pending, has_payload-mark_as_failed, has_payload-mark_as_published,
}
use shared_events.Outbox.Store.{Db, sql_repository}
use shared_events.Publisher.{Sent, World}
use shared_events.Adapters.Faithful.{IsFaithful}
use shared_events.Adapters.{EventPublisher}
use shared_events.Poller.{
  OutboxPoller, Round, after_publish, poll_decoded, poll_all, poll_claimed, poll,
}
use shared_events.Poller.NoLoss.{IsDelivered, poll_no_loss}
use shared_events.Poller.Lifecycle.{
  Lifecycle, Step, starts, stops, stop_returns, polls, ticks, sees_stop, sees_done, start, stop,
  Reach, here, later,
}

module _ (json : JsonCodec) (p : OutboxPoller) (Has : Event → Sent → Type 0) where
  -- The poll runs on the SQL repository and on a transport that loses nothing.
  pub record IsServed (round : Round Table) : Type 0 where
    pub db : Db
    pub publisher : EventPublisher
    pub now : Uuid → Time
    pub faithful : IsFaithful publisher Has
    pub made_of : round ≡ record { repo = sql_repository db; publisher = publisher; now = now }

  abbrev StepServed : {s t : Lifecycle Table} → Step json p s t → Type 0
  StepServed (polls before after round q) = IsServed round
  StepServed _ = Unit {0}

  -- Every poll of the run does.
  abbrev pub AllServed : {s t : Lifecycle Table} → Reach json p s t → Type 0
  AllServed here = Unit {0}
  AllServed (later r m) = AllServed r × StepServed m

  module _ (id : Uuid) (payload : Bytes) where
    abbrev Safe : World Table → Type 0
    Safe w =
        ((contains (ids w.repo_state) id ≡ true) × (has_payload id payload w.repo_state ≡ true))
        ⊎ IsDelivered json Has payload w.sent

    module _ (db : Db) (publisher : EventPublisher) (now : Uuid → Time)
        (faithful : IsFaithful publisher Has) where
      abbrev served_round : Round Table
      served_round = record { repo = sql_repository db; publisher = publisher; now = now }

      -- What a call keeps of the rows' payload and of the transport.
      abbrev IsKept : World Table → World Table → Type 0
      IsKept w w' =
          (has_payload id payload w.repo_state ≡ true → has_payload id payload w'.repo_state ≡ true)
          × (IsDelivered json Has payload w.sent → IsDelivered json Has payload w'.sent)

      published-IsKept :
          (r : OutboxRecord) (event : Event) (x : Option Text × Sent) (w : World Table)
          → (IsDelivered json Has payload w.sent → IsDelivered json Has payload x.1)
          → IsKept w (after_publish json p served_round r x w.repo_state)
      unfolding after_publish
      published-IsKept r event (some e, sent) w k = (
        has_payload-mark_as_failed id payload (db.on_fail r.id) r.id e (now r.id) w.repo_state,
        k,
      )
      published-IsKept r event (none, sent) w k = (
        has_payload-mark_as_published id payload db.print (db.on_publish r.id) r.id w.repo_state,
        k,
      )

      decoded-IsKept :
          (r : OutboxRecord) (x : Result Event) (w : World Table)
          → IsKept w (poll_decoded json p served_round r x w)
      unfolding poll_decoded
      decoded-IsKept r (err e) w = (
        has_payload-mark_as_failed id payload (db.on_fail r.id) r.id e (now r.id) w.repo_state,
        λ d. d,
      )
      decoded-IsKept r (ok event) w = published-IsKept r event (publisher event w.sent) w (λ d.
          record {
            event = d.event;
            decoded = d.decoded;
            has_event = faithful.keeps event d.event w.sent d.has_event;
          })

      all-IsKept :
          (records : List OutboxRecord) (w : World Table)
          → IsKept w (poll_all json p served_round records w)
      unfolding poll_all
      all-IsKept [] w = (λ h. h, λ d. d)
      all-IsKept (r ∷ rest) w =
          let (p1, d1) = decoded-IsKept r (from_json json r.payload) w in
          let (p2, d2) =
            all-IsKept rest (poll_decoded json p served_round r (from_json json r.payload) w) in
          (λ h. p2 (p1 h), λ d. d2 (d1 d))

      claimed-IsKept :
          (x : Result (List OutboxRecord)) (w : World Table)
          → IsKept w (poll_claimed json p served_round x w)
      claimed-IsKept (err e) w = (λ h. h, λ d. d)
      claimed-IsKept (ok records) w = all-IsKept records w

      poll-IsKept : (w : World Table) → IsKept w (poll json p served_round w)
      unfolding poll
      poll-IsKept w =
          let x =
            get_pending_records db.on_query db.locked db.query_time p.batch_size w.repo_state in
          let (p1, d1) = claimed-IsKept x.0 (record { repo_state = x.1; sent = w.sent }) in
          (
            λ h. p1 (
                has_payload-get_pending id payload db.on_query db.locked db.query_time p.batch_size
                  w.repo_state h),
            d1,
          )

      poll-Safe : (w : World Table) → Safe w → Safe (poll json p served_round w)
      poll-Safe w (inr d) = inr ((poll-IsKept w).1 d)
      poll-Safe w (inl (h, q)) =
          elim (poll_no_loss json p db publisher now Has faithful id payload w h q) [
            | inl k ↦ inl (k, (poll-IsKept w).0 q)
            | inr d ↦ inr d
          ]

    Step-Safe :
        {s t : Lifecycle Table} (m : Step json p s t) → StepServed m → Safe s.world → Safe t.world
    unfolding start stop
    Step-Safe starts v h = h
    Step-Safe {s} (stops t q) v h = ground (arith, q, h)
    Step-Safe (stop_returns q z) v h = h
    Step-Safe {s} (polls before after round q) v h =
        subst (λ x. Safe (poll json p x s.world)) (sym v.made_of)
          (poll-Safe v.db v.publisher v.now v.faithful s.world h)
    Step-Safe (ticks before after q) v h = h
    Step-Safe (sees_stop before after q c) v h = h
    Step-Safe (sees_done before after q) v h = h

    Reach-Safe :
        {s t : Lifecycle Table} (r : Reach json p s t) → AllServed r → Safe s.world → Safe t.world
    Reach-Safe here v h = h
    Reach-Safe (later r m) v h = Step-Safe m v.1 (Reach-Safe r v.0 h)

    -- A poller loses no event if its transport is faithful, however Start, Stop, the ends of
    -- contexts and the polls of its loops follow each other, and whatever the database and the
    -- transport answer in each poll: if the outbox has a row for the id, and its rows hold the
    -- payload, then at every moment after that it still has a row for the id, or the transport has
    -- the event that the payload encodes.
    pub lifecycle_no_loss :
        {s t : Lifecycle Table} (r : Reach json p s t)
        → AllServed r
        → contains (ids s.world.repo_state) id ≡ true
        → has_payload id payload s.world.repo_state ≡ true
        → (contains (ids t.world.repo_state) id ≡ true) ⊎ IsDelivered json Has payload t.world.sent
    lifecycle_no_loss r v h q = elim (Reach-Safe r v (inl (h, q))) [
      | inl k ↦ inl k.0
      | inr d ↦ inr d
    ]
