-- ===== src/Fanout/Closing.antt =====
-- Unsubscribe closes the channel once, and keeps the invariant.
use shared_events.Prelude.{
  ℕ-Eq, Text-Eq, Bool-cases, List, Text, [], any_of, ap, arith, contains, false, if◌then◌else◌, inl,
  inr, map, refl, some, sym, text_eq_iff, text_eq_refl, true, ℕ, ◌&&◌, ◌==◌, ◌∙◌, ◌∷◌, ◌≡◌,
}
use shared_events.Fanout.{
  SubId, Sub, FanoutHub, ids_at, without, remove_id, is_sub, close_sub, unsubscribe,
}
use shared_events.Fanout.Registry.{ids_at-remove_id, is_keyed-remove_id}
use shared_events.Fanout.Coherent.{open_ids, is_numbered, is_bounded, IsCoherent}

-- The clients with the Sub closed.
abbrev pub closed : SubId → Text → List Sub → List Sub
closed id tenant clients =
    map (λ s. if is_sub id tenant s then record s { is_closed = true } else s) clients

pub absent_open :
    (id : SubId) (tenant : Text) (clients : List Sub)
    → contains (map (λ s. s.id) clients) id ≡ false
    → (contains (open_ids tenant clients) id ≡ false)
      × (any_of (λ s. is_sub id tenant s && s.is_closed) clients ≡ false)
absent_open id tenant [] h = (refl, refl)
absent_open id tenant (s ∷ clients) h = ground (arith, absent_open id tenant clients)

closing_open :
    (id : SubId) (tenant : Text) (clients : List Sub) (next : ℕ)
    → is_numbered next clients ≡ true
    → contains (open_ids tenant clients) id ≡ true
    → any_of (λ s. is_sub id tenant s && s.is_closed) clients ≡ false
closing_open id tenant [] next n h = refl
closing_open id tenant (s ∷ clients) next n h =
    ground (arith, absent_open id tenant clients, closing_open id tenant clients next)

open_ids-closed :
    (id : SubId) (tenant : Text) (clients : List Sub) (t : Text)
    → open_ids t (closed id tenant clients)
      ≡ (if tenant == t then without id (open_ids t clients) else open_ids t clients)
open_ids-closed id tenant [] t = ground arith
open_ids-closed id tenant (s ∷ clients) t = ground (
  arith,
  open_ids-closed id tenant clients t,
  text_eq_iff s.tenant tenant,
  text_eq_iff s.tenant t,
  text_eq_iff tenant t,
)

ids-closed :
    (id : SubId) (tenant : Text) (clients : List Sub)
    → map (λ s. s.id) (closed id tenant clients) ≡ map (λ s. s.id) clients
ids-closed id tenant [] = refl
ids-closed id tenant (s ∷ clients) = ground (arith, ids-closed id tenant clients)

is_numbered-closed :
    (next : ℕ) (id : SubId) (tenant : Text) (clients : List Sub)
    → is_numbered next clients ≡ true
    → is_numbered next (closed id tenant clients) ≡ true
is_numbered-closed next id tenant [] h = refl
is_numbered-closed next id tenant (s ∷ clients) h =
    ground (arith, is_numbered-closed next id tenant clients, ids-closed id tenant clients)

is_bounded-closed :
    (buf : ℕ) (id : SubId) (tenant : Text) (clients : List Sub)
    → is_bounded buf clients ≡ true
    → is_bounded buf (closed id tenant clients) ≡ true
is_bounded-closed buf id tenant [] h = refl
is_bounded-closed buf id tenant (s ∷ clients) h =
    ground (arith, is_bounded-closed buf id tenant clients)

-- What Unsubscribe leaves.
abbrev pub unsubscribed : SubId → Text → FanoutHub → FanoutHub
unsubscribed id tenant h =
    if contains (ids_at h.subs tenant) id
    then record h { subs = remove_id h.subs tenant id; clients = closed id tenant h.clients }
    else h

unsubscribed-IsCoherent :
    (id : SubId) (tenant : Text) (h : FanoutHub)
    → IsCoherent h
    → IsCoherent (unsubscribed id tenant h)
unsubscribed-IsCoherent id tenant h c = elim (Bool-cases (contains (ids_at h.subs tenant) id)) [
  | inr gone ↦ rw gone c
  | inl found ↦ rw found (record {
    listed = λ t.
        ids_at-remove_id h.subs tenant id t c.keyed
        ∙ rw (c.listed t) (sym (open_ids-closed id tenant h.clients t));
    keyed = is_keyed-remove_id h.subs tenant id c.keyed;
    numbered = is_numbered-closed h.next id tenant h.clients c.numbered;
    bounded = is_bounded-closed h.buf id tenant h.clients c.bounded;
  })
]

unsubscribe-unsubscribed :
    (id : SubId) (tenant : Text) (h : FanoutHub)
    → IsCoherent h
    → unsubscribe id tenant h ≡ some (unsubscribed id tenant h)
unfolding unsubscribe close_sub
unsubscribe-unsubscribed id tenant h c =
    ground (arith, c.listed tenant, closing_open id tenant h.clients h.next c.numbered)

contains-without : (id : SubId) (set : List SubId) → contains (without id set) id ≡ false
contains-without id [] = refl
contains-without id (j ∷ set) = ground (arith, contains-without id set)

unsubscribed_idem :
    (id : SubId) (tenant : Text) (h : FanoutHub)
    → IsCoherent h
    → unsubscribed id tenant (unsubscribed id tenant h) ≡ unsubscribed id tenant h
unsubscribed_idem id tenant h c = ground (
  arith,
  ids_at-remove_id h.subs tenant id tenant c.keyed,
  contains-without id (ids_at h.subs tenant),
  text_eq_refl tenant,
)

-- In a coherent hub Unsubscribe does not panic: it closes the channel of the Sub, if the hub lists
-- it, and takes it out of the registry, and the hub stays coherent; and a second Unsubscribe of the
-- same Sub changes nothing.
pub unsubscribe_once :
    (id : SubId) (tenant : Text) (h : FanoutHub)
    → IsCoherent h
    → (unsubscribe id tenant h ≡ some (unsubscribed id tenant h))
      × IsCoherent (unsubscribed id tenant h)
      × (unsubscribe id tenant (unsubscribed id tenant h) ≡ some (unsubscribed id tenant h))
unsubscribe_once id tenant h c =
    let c' = unsubscribed-IsCoherent id tenant h c in
    (
      unsubscribe-unsubscribed id tenant h c,
      c',
      unsubscribe-unsubscribed id tenant (unsubscribed id tenant h) c'
          ∙ ap some (unsubscribed_idem id tenant h c),
    )
