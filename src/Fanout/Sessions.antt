-- ===== src/Fanout/Sessions.antt =====
-- The life of a hub: any sequence of calls and reads, in the order in which its lock serves them.
use shared_events.Prelude.{
  Bytes, List, Option, Text, [], ap, arith, if◌then◌else◌, leb, length, map, none, refl, some, sym,
  true, ℕ, ℤ, ◌∙◌, ◌∷◌, ◌≡◌,
}
use shared_events.Fanout.{
  SubId, Sub, FanoutHub, new_fanout_hub, subscribe, unsubscribe, deliver, count, receive, read_one,
  is_sub,
}
use shared_events.Fanout.Coherent.{
  open_ids, is_numbered, is_bounded, IsCoherent, new_fanout_hub-IsCoherent, subscribe-IsCoherent,
}
use shared_events.Fanout.Closing.{unsubscribe_once}
use shared_events.Fanout.Delivery.{deliver_exact}

pub data Call : Type 0 where
  to_subscribe : Text → List Text → Call
  to_unsubscribe : SubId → Text → Call
  to_deliver : Text → Text → Bytes → Call
  to_receive : SubId → Text → Call

abbrev pub call : Call → FanoutHub → Option FanoutHub
call (to_subscribe tenant scopes) h = some (subscribe tenant scopes h)
call (to_unsubscribe id tenant) h = unsubscribe id tenant h
call (to_deliver tenant scope body) h = deliver tenant scope body h
call (to_receive id tenant) h = some (receive id tenant h)

abbrev then_session : (FanoutHub → Option FanoutHub) → Option FanoutHub → Option FanoutHub
then_session rest none = none
then_session rest (some h) = rest h

unfoldable pub session : List Call → FanoutHub → Option FanoutHub
session [] h = some h
session (c ∷ calls) h = then_session (session calls) (call c h)

-- What one client of the list holds after the owner of the Sub has read.
abbrev read_by : SubId → Text → List Sub → List Sub
read_by id tenant clients =
    map (λ s. if is_sub id tenant s then record s { chan = read_one s.chan } else s) clients

open_ids-read_by :
    (id : SubId) (tenant t : Text) (clients : List Sub)
    → open_ids t (read_by id tenant clients) ≡ open_ids t clients
open_ids-read_by id tenant t [] = refl
open_ids-read_by id tenant t (s ∷ clients) = ground (arith, open_ids-read_by id tenant t clients)

ids-read_by :
    (id : SubId) (tenant : Text) (clients : List Sub)
    → map (λ s. s.id) (read_by id tenant clients) ≡ map (λ s. s.id) clients
ids-read_by id tenant [] = refl
ids-read_by id tenant (s ∷ clients) = ground (arith, ids-read_by id tenant clients)

is_numbered-read_by :
    (next : ℕ) (id : SubId) (tenant : Text) (clients : List Sub)
    → is_numbered next clients ≡ true
    → is_numbered next (read_by id tenant clients) ≡ true
is_numbered-read_by next id tenant [] h = refl
is_numbered-read_by next id tenant (s ∷ clients) h =
    ground (arith, is_numbered-read_by next id tenant clients, ids-read_by id tenant clients)

length-read_one : (chan : List Bytes) → leb (length (read_one chan)) (length chan) ≡ true
length-read_one [] = refl
length-read_one (m ∷ rest) = ground arith

is_bounded-read_by :
    (buf : ℕ) (id : SubId) (tenant : Text) (clients : List Sub)
    → is_bounded buf clients ≡ true
    → is_bounded buf (read_by id tenant clients) ≡ true
is_bounded-read_by buf id tenant [] h = refl
is_bounded-read_by buf id tenant (s ∷ clients) h =
    ground (arith, is_bounded-read_by buf id tenant clients, length-read_one s.chan)

receive-IsCoherent :
    (id : SubId) (tenant : Text) (h : FanoutHub) → IsCoherent h → IsCoherent (receive id tenant h)
unfolding receive
receive-IsCoherent id tenant h c = record {
  listed = λ t. c.listed t ∙ sym (open_ids-read_by id tenant t h.clients);
  keyed = c.keyed;
  numbered = is_numbered-read_by h.next id tenant h.clients c.numbered;
  bounded = is_bounded-read_by h.buf id tenant h.clients c.bounded;
}

-- A session that did not panic and left a coherent hub.
pub record IsGood (result : Option FanoutHub) : Type 0 where
  pub hub : FanoutHub
  pub reached : result ≡ some hub
  pub coherent : IsCoherent hub

call-IsGood : (c : Call) (h : FanoutHub) → IsCoherent h → IsGood (call c h)
call-IsGood (to_subscribe tenant scopes) h k = record {
  hub = _;
  reached = refl;
  coherent = subscribe-IsCoherent tenant scopes h k;
}
call-IsGood (to_unsubscribe id tenant) h k =
    let (e, k', _) = unsubscribe_once id tenant h k in
    record { hub = _; reached = e; coherent = k' }
call-IsGood (to_deliver tenant scope body) h k =
    let (e, k') = deliver_exact tenant scope body h k in
    record { hub = _; reached = e; coherent = k' }
call-IsGood (to_receive id tenant) h k = record {
  hub = _;
  reached = refl;
  coherent = receive-IsCoherent id tenant h k;
}

session-IsGood : (calls : List Call) (h : FanoutHub) → IsCoherent h → IsGood (session calls h)
unfolding session
session-IsGood [] h k = record { hub = h; reached = refl; coherent = k }
session-IsGood (c ∷ calls) h k =
    let g = call-IsGood c h k in
    let g' = session-IsGood calls g.hub g.coherent in
    record { hub = g'.hub; reached = rw g.reached g'.reached; coherent = g'.coherent }

-- Any sequence of Subscribe, Unsubscribe, deliver and reads by the clients, from a new hub, runs
-- without a panic: no send on a closed channel and no second close, whoever unsubscribes when and
-- how often. Afterwards Count is the number of the tenant's open clients, for every tenant.
pub session_safe :
    (buf : ℤ) (calls : List Call)
    → (h : FanoutHub) × (session calls (new_fanout_hub buf) ≡ some h)
      × IsCoherent h
      × ((tenant : Text) → count tenant h ≡ length (open_ids tenant h.clients))
unfolding count
session_safe buf calls =
    let g = session-IsGood calls (new_fanout_hub buf) (new_fanout_hub-IsCoherent buf) in
    (g.hub, g.reached, g.coherent, λ t. ap length (g.coherent.listed t))
