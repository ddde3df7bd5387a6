-- ===== src/Pump/Order.antt =====
-- What a run hands to the socket: the hello, the hub's messages in their order, and the answers.
use shared_events.Prelude.{
  ℕ-Eq, Text-Eq, Bool, Bytes, List, Option, Text, [], all_of, arith, false, leb, length,
  length-append, none, refl, some, text_eq_refl, true, ℕ, ◌&&◌, ◌++◌, ◌==◌, ◌∷◌, ◌≡◌, ◌≤◌,
}
use shared_events.Fanout.{Sub, push}
use shared_events.Pump.{
  Conn, Stage, starting, serving, returned, Frame, greeting, message, answer, opened, leave, write,
  offer_reply, reply_to, replies_cap, read_failed, read_frame, greet_none, greet, see_done,
  see_closed, send_message, send_reply, tick, delivered, closed, ctx_ended, Step, reader, main,
  outside, Reach, here, later,
}
use shared_events.Pump.Frames.{messages, answers, sent, accepted, Reach-carried, Reach-replied}

abbrev pub is_body : Frame → Bool
is_body (greeting b) = false
is_body (message b) = true
is_body (answer b) = true

abbrev pub is_hello : Bytes → Frame → Bool
is_hello hello (greeting b) = b == hello
is_hello hello _ = false

-- The hello comes first, once, and there is none if it is nil.
abbrev pub is_led : Option Bytes → List Frame → Bool
is_led none w = all_of is_body w
is_led (some hello) [] = false
is_led (some hello) (f ∷ w) = is_hello hello f && all_of is_body w

abbrev pub same_hello : Option Bytes → Option Bytes → Bool
same_hello none none = true
same_hello (some a) (some b) = a == b
same_hello _ _ = false

abbrev pub is_empty : List Frame → Bool
is_empty [] = true
is_empty (f ∷ w) = false

-- Nothing is written before the loop but the hello, and the answers that wait are few.
abbrev pub is_begun : Option Bytes → Stage → List Frame → Bool
is_begun hello (starting h) w = same_hello h hello && is_empty w
is_begun hello serving w = is_led hello w
is_begun hello returned w = is_led hello w

abbrev is_sound : Option Bytes → Conn → Bool
is_sound hello c = is_begun hello c.stage c.written && leb (length c.replies) replies_cap

all_of_end :
    (w : List Frame) (f : Frame) → all_of is_body (w ++ f ∷ []) ≡ (all_of is_body w && is_body f)
all_of_end [] f = ground arith
all_of_end (g ∷ w) f = ground (arith, all_of_end w f)

is_led-append :
    (hello : Option Bytes) (w : List Frame) (f : Frame)
    → is_led hello w ≡ true
    → is_body f ≡ true
    → is_led hello (w ++ f ∷ []) ≡ true
is_led-append none w f h b = ground (arith, all_of_end w f)
is_led-append (some hello) [] f h b = ground arith
is_led-append (some hello) (g ∷ w) f h b = ground (arith, all_of_end w f)

module _ (reply : Option (Bytes → Option Bytes)) (buf : ℕ) (hello : Option Bytes) where
  write-is_sound :
      (f : Frame) (wrote : Option Text) (c : Conn)
      → c.stage ≡ serving
      → is_led hello (c.written ++ f ∷ []) ≡ true
      → leb (length c.replies) replies_cap ≡ true
      → is_sound hello (write f wrote c) ≡ true
  write-is_sound f none c s h l = ground arith
  write-is_sound f (some e) c s h l = ground arith

  offer_reply-is_sound :
      (o : Option Bytes) (c : Conn)
      → is_sound hello c ≡ true
      → is_sound hello (offer_reply o c) ≡ true
  offer_reply-is_sound none c h = h
  offer_reply-is_sound (some out) c h = ground (arith, length-append c.replies (out ∷ []))

  reply_to-is_sound :
      (r : Option (Bytes → Option Bytes)) (frame : Bytes) (c : Conn)
      → is_sound hello c ≡ true
      → is_sound hello (reply_to r frame c) ≡ true
  reply_to-is_sound none frame c h = h
  reply_to-is_sound (some f) frame c h = offer_reply-is_sound (f frame) c h

  leave-is_sound :
      (c : Conn) → c.stage ≡ serving → is_sound hello c ≡ true → is_sound hello (leave c) ≡ true
  leave-is_sound c s h = ground arith

  Step-is_sound :
      {c d : Conn} → Step reply buf c d → is_sound hello c ≡ true → is_sound hello d ≡ true
  unfolding push
  Step-is_sound (reader (read_failed h)) k = k
  Step-is_sound {c} (reader (read_frame frame h)) k = reply_to-is_sound reply frame c k
  Step-is_sound (main (greet_none h)) k = ground arith
  Step-is_sound {c} (main (greet b none h)) k = ground (arith, text_eq_refl b)
  Step-is_sound {c} (main (greet b (some e) h)) k = ground (arith, text_eq_refl b)
  Step-is_sound {c} (main (see_done h e)) k = leave-is_sound c h k
  Step-is_sound {c} (main (see_closed h e f)) k = leave-is_sound c h k
  Step-is_sound {c} (main (send_message msg rest wrote h e)) k =
      write-is_sound (message msg) wrote (record c { sub = record c.sub { chan = rest } }) h
        (is_led-append hello c.written (message msg) (ground arith) refl) (ground arith)
  Step-is_sound {c} (main (send_reply out rest wrote h e)) k =
      write-is_sound (answer out) wrote (record c { replies = rest }) h
        (is_led-append hello c.written (answer out) (ground arith) refl) (ground arith)
  Step-is_sound {c} (main (tick none h)) k = k
  Step-is_sound {c} (main (tick (some e) h)) k = leave-is_sound c h k
  Step-is_sound (outside (delivered body h)) k = k
  Step-is_sound (outside closed) k = k
  Step-is_sound (outside ctx_ended) k = k

  Reach-is_sound :
      {c d : Conn} → Reach reply buf c d → is_sound hello c ≡ true → is_sound hello d ≡ true
  Reach-is_sound here k = k
  Reach-is_sound (later r s) k = Step-is_sound s (Reach-is_sound r k)

opened-is_sound : (sub : Sub) (hello : Option Bytes) → is_sound hello (opened sub hello) ≡ true
opened-is_sound sub none = refl
opened-is_sound sub (some h) = ground (arith, text_eq_refl h)

-- However the goroutines, the hub, the context and the socket interleave: the messages that Pump has
-- handed to the socket, followed by those that still wait in the channel, are the messages of the
-- channel at the start followed by those that the hub has put into it since, each once and in their
-- order; likewise for the answers that the reader has put into its buffer, which never holds more
-- than four; and the hello, unless it is nil, is written first, and once.
pub pump_in_order :
    (reply : Option (Bytes → Option Bytes)) (buf : ℕ) (hello : Option Bytes) (sub : Sub) (d : Conn)
    (r : Reach reply buf (opened sub hello) d)
    → (messages d.written ++ d.sub.chan ≡ sub.chan ++ sent reply buf r)
      × (answers d.written ++ d.replies ≡ accepted reply buf r)
      × (length d.replies ≤ 4)
      × (is_begun hello d.stage d.written ≡ true)
pump_in_order reply buf hello sub d r =
    let sound = Reach-is_sound reply buf hello r (opened-is_sound sub hello) in
    (
      Reach-carried reply buf r,
      Reach-replied reply buf r,
      ground (arith, sound),
      ground (arith, sound),
    )
