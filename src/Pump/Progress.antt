-- ===== src/Pump/Progress.antt =====
-- When the connection is over, Pump returns, in every run of it.
use shared_events.Prelude.{
  ℕ-Eq, Bool, Bytes, Option, Text, arith, false, if◌then◌else◌, length, none, not, some, true, ℕ,
  ◌+◌, ◌||◌, ◌≡◌, ◌≤◌,
}
use shared_events.Pump.{
  Conn, Stage, starting, serving, returned, Frame, write, MainStep, tick, Step, main, Reach, here,
  later,
}

abbrev pub is_tick : {c d : Conn} → MainStep c d → Bool
is_tick (tick pinged h) = true
is_tick _ = false

abbrev stages_left : Stage → ℕ
stages_left (starting hello) = 2
stages_left serving = 1
stages_left returned = 0

-- What there is still to do: the messages and the answers that wait, and the stages.
abbrev pub left : Conn → ℕ
left c = stages_left c.stage + length c.sub.chan + length c.replies

-- The caller's context or the reader has ended, or the Sub is closed.
abbrev pub is_over : Conn → Bool
is_over c = c.cancelled || c.sub.is_closed

write-left :
    (f : Frame) (wrote : Option Text) (c : Conn)
    → c.stage ≡ serving
    → left (write f wrote c) ≤ left c
write-left f none c h = ground arith
write-left f (some e) c h = ground arith

module _ (reply : Option (Bytes → Option Bytes)) (buf : ℕ) where
  abbrev is_pass : {c d : Conn} → Step reply buf c d → Bool
  is_pass (main s) = not (is_tick s)
  is_pass _ = false

  -- The passes of Pump's loop, and the write of hello, in a run of the whole connection; ticks of the
  -- ticker are not counted.
  pub passes : {c e : Conn} → Reach reply buf c e → ℕ
  passes here = 0
  passes (later r s) = passes r + (if is_pass s then 1 else 0)

-- Nothing but a tick can come next.
abbrev pub IsIdle : Conn → Type 0
IsIdle e = (f : Conn) (s : MainStep e f) → is_tick s ≡ true
