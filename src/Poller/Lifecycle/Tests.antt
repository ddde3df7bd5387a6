-- ===== src/Poller/Lifecycle/Tests.antt =====
-- A poller that is started twice and stopped.
use shared_events.Prelude.{
  ℕ-Eq, Text-Eq, [], ap, arith, codes, err, false, none, ok, refl, some, true, ◌*◌, ◌+◌, ◌||◌, ◌∷◌,
  ◌≡◌, ◌≤◌,
}
use shared_events.Event.{JsonCodec, Event, UuidCodec, new_event}
use shared_events.Outbox.Repository.{Table, done, rows}
use shared_events.Outbox.Store.{Db, sql_repository}
use shared_events.Publisher.{World}
use shared_events.Adapters.{jet_stream_adapter}
use shared_events.Poller.{OutboxPoller, Round}
use shared_events.Poller.Lifecycle.{
  polling, selecting, ended, waiting, back, Lifecycle, created, start, stop, Step, starts, stops,
  stop_returns, polls, ticks, sees_stop, sees_done, Reach, here, later, is_start, is_tick, Calm,
  begun, and_then, unmoved,
}
use shared_events.Poller.Lifecycle.Loops.{live, live-append}
use shared_events.Poller.Lifecycle.Stopped.{steps, stop_ends}

abbrev uuids : UuidCodec
uuids = record { print = λ id. id ∷ []; parse = λ s. err [] }

abbrev nothing : Event
unfolding new_event
nothing = new_event 0 0 [] [] 0 0 []

abbrev json : JsonCodec
json = record {
  marshal = λ e. ok (codes "e");
  unmarshal = λ b. (nothing, some (codes "unexpected end"));
}

abbrev database : Db
database = record {
  on_create = done;
  on_query = rows;
  on_publish = λ id. done;
  on_fail = λ id. done;
  locked = λ id. false;
  query_time = 500_000_000_000;
  print = uuids.print;
}

abbrev round : Round Table
round = record {
  repo = sql_repository database;
  publisher = jet_stream_adapter uuids json none;
  now = λ id. 600;
}

abbrev poller : OutboxPoller
poller = record { batch_size = 100; poll_period = 5 }

abbrev world : World Table
world = record { repo_state = []; sent = [] }

-- Both loops poll when Stop is called.
abbrev called : Lifecycle Table
called = record {
  stop_closed = true;
  wg = 2;
  loops = polling ∷ polling ∷ [];
  stopping = waiting;
  world = world;
}

called_reached : Reach json poller (created world) called
unfolding start stop
called_reached = later (later (later here starts) starts) (stops called refl)

abbrev last_run : (e : Lifecycle Table) × Calm json poller called e
last_run = (
  _,
  and_then
      (and_then
        (and_then
          (and_then (and_then begun (polls [] (polling ∷ []) round refl) refl)
            (polls (selecting ∷ []) [] round refl) refl)
          (sees_stop [] (selecting ∷ []) refl refl) refl)
        (sees_stop (ended ∷ []) [] refl refl) refl)
      (stop_returns refl refl) refl,
)

-- With no loop left and Stop back, only Start goes on.
idle_end :
    (e t : Lifecycle Table) (m : Step json poller e t)
    → live e.loops ≡ 0
    → e.stop_closed ≡ true
    → e.stopping ≡ back
    → is_start m || is_tick m ≡ true
unfolding stop
idle_end e t starts z c b = refl
idle_end e t (stops u q) z c b = ground (arith, q, c)
idle_end e t (stop_returns q w) z c b = cc
idle_end e t (polls before after r q) z c b =
    absurd (omega (arith, z, ap live q, live-append before (polling ∷ after)))
idle_end e t (ticks before after q) z c b = refl
idle_end e t (sees_stop before after q k) z c b =
    absurd (omega (arith, z, ap live q, live-append before (selecting ∷ after)))
idle_end e t (sees_done before after q) z c b =
    absurd (omega (arith, z, ap live q, live-append before (selecting ∷ after)))

stop_ends_example :
    (steps json poller last_run.1 ≤ 2 * live called.loops + 1)
    × (last_run.0.stopping ≡ back)
    × (last_run.0.world ≡ last_run.0.world)
stop_ends_example =
    stop_ends json poller world round called_reached refl last_run.1
      (λ t m. idle_end last_run.0 t m refl refl refl) unmoved
