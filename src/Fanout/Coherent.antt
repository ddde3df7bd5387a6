-- ===== src/Fanout/Coherent.antt =====
-- The invariant of the hub: the registry lists the open clients of each tenant, and each Sub is
-- listed once.
use shared_events.Prelude.{
  ℕ-Eq, Text-Eq, Bool, List, Text, [], all_of, arith, contains, false, filter_by, leb, length, ltb,
  map, not, refl, true, ℕ, ℤ, ◌&&◌, ◌+◌, ◌==◌, ◌∙◌, ◌∷◌, ◌≡◌,
}
use shared_events.Fanout.{SubId, Sub, FanoutHub, new_fanout_hub, ids_at, subscribe}
use shared_events.Fanout.Registry.{is_keyed, ids_at-add_id, is_keyed-add_id}

-- The numbers of the open clients of the tenant.
abbrev pub open_ids : Text → List Sub → List SubId
open_ids tenant clients =
    map (λ s. s.id) (filter_by (λ s. s.tenant == tenant && not s.is_closed) clients)

-- Each number is given to one client, below the next number.
abbrev pub is_numbered : SubId → List Sub → Bool
is_numbered next [] = true
is_numbered next (s ∷ clients) =
    ltb s.id next && not (contains (map (λ c. c.id) clients) s.id) && is_numbered next clients

-- No buffer holds more than its capacity.
abbrev pub is_bounded : ℕ → List Sub → Bool
is_bounded buf clients = all_of (λ s. leb (length s.chan) buf) clients

pub record IsCoherent (h : FanoutHub) : Type 0 where
  pub listed : (tenant : Text) → ids_at h.subs tenant ≡ open_ids tenant h.clients
  pub keyed : is_keyed h.subs ≡ true
  pub numbered : is_numbered h.next h.clients ≡ true
  pub bounded : is_bounded h.buf h.clients ≡ true

pub new_fanout_hub-IsCoherent : (buf : ℤ) → IsCoherent (new_fanout_hub buf)
unfolding new_fanout_hub ids_at
new_fanout_hub-IsCoherent buf = record {
  listed = λ t. refl;
  keyed = refl;
  numbered = refl;
  bounded = refl;
}

below_not_contained :
    (next : SubId) (clients : List Sub)
    → is_numbered next clients ≡ true
    → contains (map (λ c. c.id) clients) next ≡ false
below_not_contained next [] h = refl
below_not_contained next (s ∷ clients) h = ground (arith, below_not_contained next clients)

is_numbered-suc :
    (next : SubId) (clients : List Sub)
    → is_numbered next clients ≡ true
    → is_numbered (next + 1) clients ≡ true
is_numbered-suc next [] h = refl
is_numbered-suc next (s ∷ clients) h = ground (arith, is_numbered-suc next clients)

pub subscribe-IsCoherent :
    (tenant : Text) (scopes : List Text) (h : FanoutHub)
    → IsCoherent h
    → IsCoherent (subscribe tenant scopes h)
unfolding subscribe
subscribe-IsCoherent tenant scopes h c = record {
  listed = λ t. ids_at-add_id h.subs tenant h.next t ∙ ground (arith, c.listed t);
  keyed = is_keyed-add_id h.subs tenant h.next c.keyed;
  numbered =
      ground
        (arith, c.numbered, below_not_contained h.next h.clients, is_numbered-suc h.next h.clients);
  bounded = ground (arith, c.bounded);
}
