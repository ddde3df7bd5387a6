-- ===== src/Pump/Frames.antt =====
-- The messages and the answers that pass through a connection, step by step.
use shared_events.Prelude.{
  ℕ-Eq, Bool-cases, Bytes, List, Option, Text, [], ap, arith, if◌then◌else◌, inl, inr, length, ltb,
  none, refl, some, sym, ℕ, ◌++◌, ◌∙◌, ◌∷◌, ◌≡◌,
}
use mathlib.Core.List.{append_assoc, append-nil}
use shared_events.Fanout.{push}
use shared_events.Pump.{
  Conn, serving, Frame, greeting, message, answer, write, offer_reply, reply_to, after_ping,
  replies_cap, read_failed, read_frame, greet_none, greet, see_done, see_closed, send_message,
  send_reply, tick, delivered, closed, ctx_ended, Step, reader, main, outside, Reach, here, later,
}

abbrev pub greetings : List Frame → List Bytes
greetings [] = []
greetings (greeting b ∷ w) = b ∷ greetings w
greetings (message b ∷ w) = greetings w
greetings (answer b ∷ w) = greetings w

abbrev pub messages : List Frame → List Bytes
messages [] = []
messages (greeting b ∷ w) = messages w
messages (message b ∷ w) = b ∷ messages w
messages (answer b ∷ w) = messages w

abbrev pub answers : List Frame → List Bytes
answers [] = []
answers (greeting b ∷ w) = answers w
answers (message b ∷ w) = answers w
answers (answer b ∷ w) = b ∷ answers w

greetings-append : (v w : List Frame) → greetings (v ++ w) ≡ greetings v ++ greetings w
greetings-append [] w = refl
greetings-append (greeting b ∷ v) w = ap (λ l. b ∷ l) (greetings-append v w)
greetings-append (message b ∷ v) w = greetings-append v w
greetings-append (answer b ∷ v) w = greetings-append v w

messages-append : (v w : List Frame) → messages (v ++ w) ≡ messages v ++ messages w
messages-append [] w = refl
messages-append (greeting b ∷ v) w = messages-append v w
messages-append (message b ∷ v) w = ap (λ l. b ∷ l) (messages-append v w)
messages-append (answer b ∷ v) w = messages-append v w

answers-append : (v w : List Frame) → answers (v ++ w) ≡ answers v ++ answers w
answers-append [] w = refl
answers-append (greeting b ∷ v) w = answers-append v w
answers-append (message b ∷ v) w = answers-append v w
answers-append (answer b ∷ v) w = ap (λ l. b ∷ l) (answers-append v w)

module _ (reply : Option (Bytes → Option Bytes)) (buf : ℕ) where
  -- What one step puts into the channel of the Sub, and into `replies`.
  abbrev pub taken_in : {c d : Conn} → Step reply buf c d → List Bytes
  taken_in {c} (outside (delivered body h)) = if ltb (length c.sub.chan) buf then body ∷ [] else []
  taken_in _ = []

  abbrev pub room_for : Option Bytes → List Bytes → List Bytes
  room_for none replies = []
  room_for (some out) replies = if ltb (length replies) replies_cap then out ∷ [] else []

  abbrev pub answer_to : Option (Bytes → Option Bytes) → Bytes → Option Bytes
  answer_to none frame = none
  answer_to (some r) frame = r frame

  abbrev pub accepted_in : {c d : Conn} → Step reply buf c d → List Bytes
  accepted_in {c} (reader (read_frame frame h)) = room_for (answer_to reply frame) c.replies
  accepted_in _ = []

  -- The messages that the hub put into the channel during the run, and the answers that the reader
  -- put into `replies`.
  unfoldable pub sent : {c d : Conn} → Reach reply buf c d → List Bytes
  sent here = []
  sent (later r s) = sent r ++ taken_in s

  unfoldable pub accepted : {c d : Conn} → Reach reply buf c d → List Bytes
  accepted here = []
  accepted (later r s) = accepted r ++ accepted_in s

  -- The messages on both sides of the pump.
  abbrev pub carried : Conn → List Bytes
  carried c = messages c.written ++ c.sub.chan

  abbrev pub replied : Conn → List Bytes
  replied c = answers c.written ++ c.replies

  offer_reply-carried : (o : Option Bytes) (c : Conn) → carried (offer_reply o c) ≡ carried c
  offer_reply-carried none c = refl
  offer_reply-carried (some out) c = ground arith

  reply_to-carried :
      (r : Option (Bytes → Option Bytes)) (frame : Bytes) (c : Conn)
      → carried (reply_to r frame c) ≡ carried c
  reply_to-carried none frame c = refl
  reply_to-carried (some f) frame c = offer_reply-carried (f frame) c

  write-carried :
      (f : Frame) (wrote : Option Text) (c : Conn)
      → carried (write f wrote c) ≡ messages c.written ++ (messages (f ∷ []) ++ c.sub.chan)
  write-carried f none c =
      rw (messages-append c.written (f ∷ []))
        (append_assoc (messages c.written) (messages (f ∷ [])) c.sub.chan)
  write-carried f (some e) c =
      rw (messages-append c.written (f ∷ []))
        (append_assoc (messages c.written) (messages (f ∷ [])) c.sub.chan)

  after_ping-carried : (pinged : Option Text) (c : Conn) → carried (after_ping pinged c) ≡ carried c
  after_ping-carried none c = refl
  after_ping-carried (some e) c = refl

  Step-carried : {c d : Conn} (s : Step reply buf c d) → carried d ≡ carried c ++ taken_in s
  unfolding push
  Step-carried {c} (reader (read_failed h)) = sym (append-nil (carried c))
  Step-carried {c} (reader (read_frame frame h)) =
      reply_to-carried reply frame c ∙ sym (append-nil (carried c))
  Step-carried {c} (main (greet_none h)) = sym (append-nil (carried c))
  Step-carried {c} (main (greet hello wrote h)) =
      write-carried (greeting hello) wrote (record c { stage = serving })
      ∙ sym (append-nil (carried c))
  Step-carried {c} (main (see_done h k)) = sym (append-nil (carried c))
  Step-carried {c} (main (see_closed h e k)) = sym (append-nil (carried c))
  Step-carried {c} (main (send_message msg rest wrote h e)) =
      write-carried (message msg) wrote (record c { sub = record c.sub { chan = rest } })
      ∙ ap (λ l. messages c.written ++ l) (sym e)
      ∙ sym (append-nil (carried c))
  Step-carried {c} (main (send_reply out rest wrote h e)) =
      write-carried (answer out) wrote (record c { replies = rest }) ∙ sym (append-nil (carried c))
  Step-carried {c} (main (tick pinged h)) =
      after_ping-carried pinged c ∙ sym (append-nil (carried c))
  Step-carried {c} (outside (delivered body h)) = elim (Bool-cases (ltb (length c.sub.chan) buf)) [
    | inl room ↦ rw room (sym (append_assoc (messages c.written) c.sub.chan (body ∷ [])))
    | inr full ↦ rw full (sym (append-nil (carried c)))
  ]
  Step-carried {c} (outside closed) = sym (append-nil (carried c))
  Step-carried {c} (outside ctx_ended) = sym (append-nil (carried c))

  offer_reply-replied :
      (o : Option Bytes) (c : Conn) → replied (offer_reply o c) ≡ replied c ++ room_for o c.replies
  offer_reply-replied none c = sym (append-nil (replied c))
  offer_reply-replied (some out) c = elim (Bool-cases (ltb (length c.replies) replies_cap)) [
    | inl room ↦ rw room (sym (append_assoc (answers c.written) c.replies (out ∷ [])))
    | inr full ↦ rw full (sym (append-nil (replied c)))
  ]

  reply_to-replied :
      (r : Option (Bytes → Option Bytes)) (frame : Bytes) (c : Conn)
      → replied (reply_to r frame c) ≡ replied c ++ room_for (answer_to r frame) c.replies
  reply_to-replied none frame c = sym (append-nil (replied c))
  reply_to-replied (some f) frame c = offer_reply-replied (f frame) c

  write-replied :
      (f : Frame) (wrote : Option Text) (c : Conn)
      → replied (write f wrote c) ≡ answers c.written ++ (answers (f ∷ []) ++ c.replies)
  write-replied f none c =
      rw (answers-append c.written (f ∷ []))
        (append_assoc (answers c.written) (answers (f ∷ [])) c.replies)
  write-replied f (some e) c =
      rw (answers-append c.written (f ∷ []))
        (append_assoc (answers c.written) (answers (f ∷ [])) c.replies)

  after_ping-replied : (pinged : Option Text) (c : Conn) → replied (after_ping pinged c) ≡ replied c
  after_ping-replied none c = refl
  after_ping-replied (some e) c = refl

  Step-replied : {c d : Conn} (s : Step reply buf c d) → replied d ≡ replied c ++ accepted_in s
  Step-replied {c} (reader (read_failed h)) = sym (append-nil (replied c))
  Step-replied {c} (reader (read_frame frame h)) = reply_to-replied reply frame c
  Step-replied {c} (main (greet_none h)) = sym (append-nil (replied c))
  Step-replied {c} (main (greet hello wrote h)) =
      write-replied (greeting hello) wrote (record c { stage = serving })
      ∙ sym (append-nil (replied c))
  Step-replied {c} (main (see_done h k)) = sym (append-nil (replied c))
  Step-replied {c} (main (see_closed h e k)) = sym (append-nil (replied c))
  Step-replied {c} (main (send_message msg rest wrote h e)) =
      write-replied (message msg) wrote (record c { sub = record c.sub { chan = rest } })
      ∙ sym (append-nil (replied c))
  Step-replied {c} (main (send_reply out rest wrote h e)) =
      write-replied (answer out) wrote (record c { replies = rest })
      ∙ ap (λ l. answers c.written ++ l) (sym e)
      ∙ sym (append-nil (replied c))
  Step-replied {c} (main (tick pinged h)) =
      after_ping-replied pinged c ∙ sym (append-nil (replied c))
  Step-replied {c} (outside (delivered body h)) = sym (append-nil (replied c))
  Step-replied {c} (outside closed) = sym (append-nil (replied c))
  Step-replied {c} (outside ctx_ended) = sym (append-nil (replied c))

  pub Reach-carried : {c d : Conn} (r : Reach reply buf c d) → carried d ≡ carried c ++ sent r
  unfolding sent
  Reach-carried {c} here = sym (append-nil (carried c))
  Reach-carried {c} (later r s) =
      Step-carried s
      ∙ ap (λ l. l ++ taken_in s) (Reach-carried r)
      ∙ append_assoc (carried c) (sent r) (taken_in s)

  pub Reach-replied : {c d : Conn} (r : Reach reply buf c d) → replied d ≡ replied c ++ accepted r
  unfolding accepted
  Reach-replied {c} here = sym (append-nil (replied c))
  Reach-replied {c} (later r s) =
      Step-replied s
      ∙ ap (λ l. l ++ accepted_in s) (Reach-replied r)
      ∙ append_assoc (replied c) (accepted r) (accepted_in s)
