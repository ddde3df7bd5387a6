-- ===== src/Pump/Tests.antt =====
-- A client that sends one frame and gets the hello, a message and an answer; then it disconnects.
use shared_events.Prelude.{
  ℕ-Eq, Text-Eq, Bytes, Option, [], codes, if◌then◌else◌, length, none, refl, some, true, ◌++◌,
  ◌==◌, ◌∷◌, ◌≡◌, ◌≤◌,
}
use shared_events.Fanout.{Sub, new_sub, push}
use shared_events.Pump.{
  Conn, serving, greeting, message, answer, opened, read_frame, greet, see_done, send_message,
  send_reply, delivered, reader, main, outside, Reach, here, later,
}
use shared_events.Pump.Frames.{messages, answers, sent, accepted}
use shared_events.Pump.Order.{is_begun, pump_in_order}

abbrev reply : Option (Bytes → Option Bytes)
reply = some (λ frame. if frame == codes "ping" then some (codes "pong") else none)

abbrev client : Sub
client = new_sub 0 (codes "t1") []

-- The message is in the channel before the hello is written, and the answer is written before it.
abbrev served : (d : Conn) × Reach reply 32 (opened client (some (codes "hi"))) d
unfolding push
served = (
  _,
  later
      (later
        (later
          (later (later here (outside (delivered (codes "m") refl)))
            (main (greet (codes "hi") none refl)))
          (reader (read_frame (codes "ping") refl)))
        (main (send_reply (codes "pong") [] none refl refl)))
      (main (send_message (codes "m") [] none refl refl)),
)

pump_in_order_example :
    (messages served.0.written ++ served.0.sub.chan ≡ client.chan ++ sent reply 32 served.1)
    × (answers served.0.written ++ served.0.replies ≡ accepted reply 32 served.1)
    × (length served.0.replies ≤ 4)
    × (is_begun (some (codes "hi")) served.0.stage served.0.written ≡ true)
pump_in_order_example = pump_in_order reply 32 (some (codes "hi")) client served.0 served.1

three_frames :
    served.0.written ≡ greeting (codes "hi") ∷ answer (codes "pong") ∷ message (codes "m") ∷ []
unfolding served push
three_frames = refl

-- The context has ended with a message in the channel; the hub delivers another one, and the client
-- sends a frame.
abbrev ending : Conn
ending = record {
  stage = serving;
  reading = true;
  cancelled = true;
  replies = [];
  sub = record client { chan = codes "m" ∷ [] };
  written = [];
}

abbrev last_run : (e : Conn) × Reach reply 32 ending e
unfolding push
last_run = (
  _,
  later
      (later
        (later
          (later (later here (outside (delivered (codes "n") refl)))
            (main (send_message (codes "m") (codes "n" ∷ []) none refl refl)))
          (reader (read_frame (codes "ping") refl)))
        (main (send_reply (codes "pong") [] none refl refl)))
      (main (see_done refl refl)),
)
