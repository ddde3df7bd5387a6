-- ===== src/Fanout.antt =====
-- fanout.go: the registry of a replica's connected clients. A *Sub is known by its number and its
-- tenant, which no code changes. The clients are the Subs that were ever made; the registry maps a
-- tenant to the numbers of its Subs. A map's order of iteration is left open in Go; here it is that
-- of the list, which does not matter (Orders). `none` is a panic: a send on a closed channel, or a second close.
pub mod Registry
pub mod Coherent
pub mod Closing
pub mod Delivery
pub mod Orders
pub mod Sessions
mod Tests
use shared_events.Prelude.{
  ℕ-Eq, Text-Eq, Bool, Bytes, List, Option, Text, [], any_of, codes, contains, false, filter_by,
  if◌then◌else◌, length, ltb, map, none, not, positive_or, some, true, ℕ, ℤ, ◌&&◌, ◌++◌, ◌+◌, ◌==◌,
  ◌||◌, ◌∷◌,
}

abbrev pub SubId : Type 0
SubId = ℕ

-- `chan` holds the messages in the buffer, the oldest first.
pub record Sub : Type 0 where
  pub id : SubId
  pub tenant : Text
  pub scopes : List Text
  pub chan : List Bytes
  pub is_closed : Bool
  pub dropped : ℕ

abbrev pub Registry : Type 0
Registry = List (Text × List SubId)

pub record FanoutHub : Type 0 where
  pub buf : ℕ
  pub subs : Registry
  pub clients : List Sub
  -- the number of the next Sub
  pub next : SubId

abbrev pub wildcard_scope : Text
wildcard_scope = codes "*"

unfoldable pub new_fanout_hub : ℤ → FanoutHub
new_fanout_hub buf = record { buf = positive_or buf 32; subs = []; clients = []; next = 0 }

-- `h.subs[tenant]`; a missing tenant reads as the empty set.
unfoldable pub ids_at : Registry → Text → List SubId
ids_at [] tenant = []
ids_at ((t, set) ∷ rest) tenant = if t == tenant then set else ids_at rest tenant

unfoldable pub add_id : Registry → Text → SubId → Registry
add_id [] tenant id = (tenant, id ∷ []) ∷ []
add_id ((t, set) ∷ rest) tenant id =
    if t == tenant then (t, id ∷ set) ∷ rest else (t, set) ∷ add_id rest tenant id

-- `delete(set, s)`
abbrev pub without : SubId → List SubId → List SubId
without id set = filter_by (λ j. not (j == id)) set

-- A set that becomes empty is taken out of the map.
abbrev keep_set : Text → List SubId → Registry → Registry
keep_set t [] rest = rest
keep_set t (id ∷ set) rest = (t, id ∷ set) ∷ rest

unfoldable pub remove_id : Registry → Text → SubId → Registry
remove_id [] tenant id = []
remove_id ((t, set) ∷ rest) tenant id =
    if t == tenant then keep_set t (without id set) rest else (t, set) ∷ remove_id rest tenant id

-- Empty scopes are left out.
abbrev pub new_sub : SubId → Text → List Text → Sub
new_sub id tenant scopes = record {
  id = id;
  tenant = tenant;
  scopes = filter_by (λ sc. not (sc == [])) scopes;
  chan = [];
  is_closed = false;
  dropped = 0;
}

unfoldable pub subscribe : Text → List Text → FanoutHub → FanoutHub
subscribe tenant scopes h = record h {
  subs = add_id h.subs tenant h.next;
  clients = new_sub h.next tenant scopes ∷ h.clients;
  next = h.next + 1;
}

abbrev pub is_sub : SubId → Text → Sub → Bool
is_sub id tenant s = s.id == id && s.tenant == tenant

-- `close(s.C)` of every client that is the Sub; `none` if it is closed already.
unfoldable pub close_sub : SubId → Text → List Sub → Option (List Sub)
close_sub id tenant clients =
    if any_of (λ s. is_sub id tenant s && s.is_closed) clients
    then none
    else some (map (λ s. if is_sub id tenant s then record s { is_closed = true } else s) clients)

abbrev with_clients : FanoutHub → Registry → Option (List Sub) → Option FanoutHub
with_clients h subs none = none
with_clients h subs (some clients) = some (record h { subs = subs; clients = clients })

-- No set of the map is ever empty, so the test for an empty set concerns one that has just lost a
-- Sub.
unfoldable pub unsubscribe : SubId → Text → FanoutHub → Option FanoutHub
unsubscribe id tenant h =
    if contains (ids_at h.subs tenant) id
    then with_clients h (remove_id h.subs tenant id) (close_sub id tenant h.clients)
    else some h

unfoldable pub wants : Text → Sub → Bool
wants scope s = scope == [] || contains s.scopes scope || contains s.scopes wildcard_scope

-- The `select` with a default: send if the buffer has room, else count the loss.
unfoldable pub push : ℕ → Bytes → Sub → Sub
push buf body s =
    if ltb (length s.chan) buf
    then record s { chan = s.chan ++ body ∷ [] }
    else record s { dropped = s.dropped + 1 }

-- One round of the loop of deliver. A send on a closed channel panics.
unfoldable pub offer : ℕ → Text → Text → Bytes → SubId → List Sub → Option (List Sub)
offer buf tenant scope body id clients =
    if any_of (λ s. is_sub id tenant s && wants scope s && s.is_closed) clients
    then none
    else some
        (map (λ s. if is_sub id tenant s && wants scope s then push buf body s else s) clients)

abbrev pub then_offer : (List Sub → Option (List Sub)) → Option (List Sub) → Option (List Sub)
then_offer rest none = none
then_offer rest (some clients) = rest clients

unfoldable pub offer_all : ℕ → Text → Text → Bytes → List SubId → List Sub → Option (List Sub)
offer_all buf tenant scope body [] clients = some clients
offer_all buf tenant scope body (id ∷ ids) clients =
    then_offer (offer_all buf tenant scope body ids) (offer buf tenant scope body id clients)

-- Also what Publish does on a hub with no relay.
unfoldable pub deliver : Text → Text → Bytes → FanoutHub → Option FanoutHub
deliver tenant scope body h =
    with_clients h h.subs (offer_all h.buf tenant scope body (ids_at h.subs tenant) h.clients)

unfoldable pub count : Text → FanoutHub → ℕ
count tenant h = length (ids_at h.subs tenant)

-- The owner of the Sub reads a message off its channel.
abbrev pub read_one : List Bytes → List Bytes
read_one [] = []
read_one (m ∷ rest) = rest

unfoldable pub receive : SubId → Text → FanoutHub → FanoutHub
receive id tenant h = record h {
  clients =
      map (λ s. if is_sub id tenant s then record s { chan = read_one s.chan } else s) h.clients;
}
