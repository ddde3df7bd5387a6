-- ===== src/Pump.antt =====
-- pump.go: one connection of a FanoutHub. Its two goroutines, the hub and the context share a
-- state; a step is one pass of a `select` or of the reader's loop, with what the socket answers, and
-- the steps may come in any order. The context that Pump makes is cancelled when the reader ends,
-- when Pump returns and when the caller's context ends. Every write and ping is a call that returns
-- within PumpWriteTimeout, with an error if the time is up.
pub mod Frames
pub mod Order
pub mod Progress
mod Tests
use shared_events.Prelude.{
  ℕ-Eq, Bool, Bytes, List, Option, Text, [], false, if◌then◌else◌, length, ltb, none, some, true, ℕ,
  ◌++◌, ◌∷◌, ◌≡◌,
}
use shared_events.Fanout.{Sub, push}

-- Durations in nanoseconds.
abbrev pub pump_write_timeout : ℕ
pump_write_timeout = 5_000_000_000

abbrev pub pump_ping_interval : ℕ
pump_ping_interval = 25_000_000_000

-- The capacity of `replies`.
abbrev pub replies_cap : ℕ
replies_cap = 4

-- A call of `sock.Write`, by what it writes.
pub data Frame : Type 0 where
  greeting : Bytes → Frame
  message : Bytes → Frame
  answer : Bytes → Frame

-- Where the main goroutine stands: before the write of `hello`, in the loop, or returned.
pub data Stage : Type 0 where
  starting : Option Bytes → Stage
  serving : Stage
  returned : Stage

-- `written` holds the calls of `sock.Write` in their order, a failed last one included; `reading` is
-- false once the reader's goroutine has ended.
pub record Conn : Type 0 where
  pub stage : Stage
  pub reading : Bool
  pub cancelled : Bool
  pub replies : List Bytes
  pub sub : Sub
  pub written : List Frame

abbrev pub opened : Sub → Option Bytes → Conn
opened sub hello = record {
  stage = starting hello;
  reading = true;
  cancelled = false;
  replies = [];
  sub = sub;
  written = [];
}

-- `return` of Pump, with the deferred cancel.
abbrev pub leave : Conn → Conn
leave c = record c { stage = returned; cancelled = true }

-- `write`, and the return on its error.
abbrev pub write : Frame → Option Text → Conn → Conn
write f none c = record c { written = c.written ++ f ∷ [] }
write f (some e) c = leave (record c { written = c.written ++ f ∷ [] })

-- The send on `replies`: dropped if it is full.
abbrev pub offer_reply : Option Bytes → Conn → Conn
offer_reply none c = c
offer_reply (some out) c =
    if ltb (length c.replies) replies_cap then record c { replies = c.replies ++ out ∷ [] } else c

abbrev pub reply_to : Option (Bytes → Option Bytes) → Bytes → Conn → Conn
reply_to none frame c = c
reply_to (some reply) frame c = offer_reply (reply frame) c

abbrev pub after_ping : Option Text → Conn → Conn
after_ping none c = c
after_ping (some e) c = leave c

-- A pass of the reader's loop, on what `sock.Read` gives.
pub data ReaderStep (reply : Option (Bytes → Option Bytes)) (c : Conn) : Conn → Type 0 where
  read_failed :
      c.reading ≡ true → ReaderStep reply c (record c { reading = false; cancelled = true })
  read_frame : (frame : Bytes) → c.reading ≡ true → ReaderStep reply c (reply_to reply frame c)

-- What the main goroutine does. `wrote` is the error of the write, `pinged` that of the ping; without
-- a Ping of the socket it is none.
pub data MainStep (c : Conn) : Conn → Type 0 where
  greet_none : c.stage ≡ starting none → MainStep c (record c { stage = serving })
  greet :
      (hello : Bytes) (wrote : Option Text)
      → c.stage ≡ starting (some hello)
      → MainStep c (write (greeting hello) wrote (record c { stage = serving }))
  see_done : c.stage ≡ serving → c.cancelled ≡ true → MainStep c (leave c)
  see_closed : c.stage ≡ serving → c.sub.chan ≡ [] → c.sub.is_closed ≡ true → MainStep c (leave c)
  send_message :
      (msg : Bytes) (rest : List Bytes) (wrote : Option Text)
      → c.stage ≡ serving
      → c.sub.chan ≡ msg ∷ rest
      → MainStep c (write (message msg) wrote (record c { sub = record c.sub { chan = rest } }))
  send_reply :
      (out : Bytes) (rest : List Bytes) (wrote : Option Text)
      → c.stage ≡ serving
      → c.replies ≡ out ∷ rest
      → MainStep c (write (answer out) wrote (record c { replies = rest }))
  tick : (pinged : Option Text) → c.stage ≡ serving → MainStep c (after_ping pinged c)

-- What the rest of the replica does: the hub delivers to the Sub or closes it, and the caller's
-- context ends.
pub data OutsideStep (buf : ℕ) (c : Conn) : Conn → Type 0 where
  delivered :
      (body : Bytes)
      → c.sub.is_closed ≡ false
      → OutsideStep buf c (record c { sub = push buf body c.sub })
  closed : OutsideStep buf c (record c { sub = record c.sub { is_closed = true } })
  ctx_ended : OutsideStep buf c (record c { cancelled = true })

pub data Step (reply : Option (Bytes → Option Bytes)) (buf : ℕ) (c : Conn) : Conn → Type 0 where
  reader : {d : Conn} → ReaderStep reply c d → Step reply buf c d
  main : {d : Conn} → MainStep c d → Step reply buf c d
  outside : {d : Conn} → OutsideStep buf c d → Step reply buf c d

-- A run of the connection.
pub data Reach (reply : Option (Bytes → Option Bytes)) (buf : ℕ) (c : Conn) : Conn → Type 0 where
  here : Reach reply buf c c
  later : {d e : Conn} → Reach reply buf c d → Step reply buf d e → Reach reply buf c e
