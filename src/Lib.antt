-- ===== src/Lib.antt =====
-- A Go library for events between services: a transactional outbox, its two publishers over NATS,
-- durable subscriptions, fan-out to the replicas of a service and to their clients, the rules on
-- users' events, the connections of clients, a store of processed events, the purge of a tenant's
-- rows, and low-balance alerts.
--
-- event.go, headers.go
--   Event: the event and its builders, the map of payload values; Event/Headers: EventHeaders.
--   json.Marshal and json.Unmarshal at the type Event, and the printing and parsing of a UUID, are
--   the fields of two codecs, arguments of what uses them. Event/ReadBack: what is relied on of an
--   event that is written and read back; its metadata are not, since an empty map of them is dropped.
-- outbox.go
--   Outbox: OutboxRecord, the interface OutboxRepository as a record of operations on a state,
--   CreateOutboxRecordInTx and PublishWithOutbox.
-- repository_sql.go
--   Outbox/Repository: the table outbox_events as a list of rows, and each statement as a function
--   on it: GetPendingRecords (the subquery, its order, its limit and its locks, the UPDATE, the
--   RETURNING), MarkAsPublished, MarkAsFailed, CreateOutboxRecord. What the database answers to a
--   call, also that its effect is lost or its answer is, is an argument. Outbox/Store makes of them
--   an OutboxRepository.
-- publisher.go, poller.go, adapters.go
--   Publisher and Poller: one round as a function of the repository, of the transport and of the
--   clock, and the loop over the list of what its select receives, on which it recurs. Adapters: the
--   transports of the poller. The messages that a transport has taken are part of the state.
--   Publisher/Calm is a round with no error from outside, Publisher/Rounds and Publisher/Drain the
--   rounds of a table, and Publisher/EndToEnd the way from PublishWithOutbox to the stream.
--   Publisher/Cluster: several replicas on one table and one stream as a step relation, one step for
--   each call; Publisher/Cluster/Recovery: one that starts again after crashes. Poller/Lifecycle:
--   Start, Stop, the stop channel and the WaitGroup, as a step relation too; Poller/Lifecycle/NoLoss:
--   a record through any run of it.
-- relevance.go
--   Relevance: the reading of the payload and the rules; Relevance/Space: TrimSpace.
-- subscribe.go
--   Rebind: the retry loops, which recur on the list of the server's answers: a loop that waits for
--   a stream asks without end, and the list is as long as the server lets it. Rebind/Settle:
--   RebindSettle, with the wrap-around of its product; Rebind/Settle/Range: its range.
--   Rebind/Schedule: the waits by a formula; Rebind/Waits: a loop that waits for its stream.
-- broadcast.go, fanout.go
--   Broadcast: one pod's handlers and subscriptions, the message it relays, and the receipt of a
--   message by a pod. Fanout: the registry of connected clients and their buffers; a panic is `none`.
--   Replica: a hub over a broadcaster, NewFanoutHub and Publish with a relay. The hub's handler is one
--   of the numbers that Broadcast calls.
-- pump.go
--   Pump: the reader, the main loop, the hub and the context as a step relation on one connection. A
--   step holds what the socket answers, and each `select` may take any case that is ready; nothing
--   is assumed of its fairness.
-- decode.go
--   Decode: DecodeEvent over what json.Unmarshal gives of the envelope and of the payload.
-- idempotency.go
--   Idempotency: the table processed_events as a list of rows, with the reply of the database to each
--   statement. Prune recurs on the list of its passes. Idempotency/Ids: EventIDFromMsg;
--   Idempotency/Schema: EnsureSchema. Idempotency/Consumers: a handler that claims the id which
--   EventIDFromMsg reads, as the comments of both functions say; Idempotency/EndToEnd: from
--   PublishWithOutbox to that handler.
-- tenantpurge.go
--   TenantPurge/Message: the event. TenantPurge: Purge over a record of what the database answers in a
--   state of it, and the handler; its passes recur on how many of the 30 are left. TenantPurge/Sql:
--   the text of the statements. TenantPurge/Contract: what Purge relies on the database for.
--   TenantPurge/Acyclic: the foreign keys between the tables. TenantPurge/EndToEnd: from the sender's
--   event to the rows. TenantPurge/Subscription: Subscribe, over Rebind.
-- balancealert/balancealert.go
--   BalanceAlert: LowMark, Crossed and LevelOf over a type of amounts with a comparison and a product,
--   the dedupe key, the payload, the event and Notify over a claim backend with a time to live.
--
-- Not modelled: logging, locks (the operations of a mutex-guarded object are taken one after the
-- other), what a call of the NATS client, of the database driver or of a socket does and the time it
-- takes (its answer is an argument), tests.
--
-- Numbers are natural numbers: a timestamp or a duration counts nanoseconds. Where the code has an
-- int that may be negative, an integer stands for it. A text is the list of its runes and a UUID is a
-- number.
pub mod Prelude
pub mod Event
pub mod Outbox
pub mod Publisher
pub mod Adapters
pub mod Poller
pub mod Relevance
pub mod Rebind
pub mod Broadcast
pub mod Fanout
pub mod Idempotency
pub mod TenantPurge
pub mod BalanceAlert
pub mod Pump
pub mod Replica
pub mod Decode
