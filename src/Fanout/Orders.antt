-- ===== src/Fanout/Orders.antt =====
-- Go's map gives the Subs of a tenant in any order: the order does not matter.
use shared_events.Prelude.{
  ℕ-Eq, Text-Eq, Bytes, List, Text, [], ap, arith, contains, refl, some, true, ℕ, ◌∙◌, ◌∷◌, ◌≡◌,
}
use shared_events.Fanout.{SubId, Sub, FanoutHub, ids_at, offer_all}
use shared_events.Fanout.Coherent.{IsCoherent}
use shared_events.Fanout.Delivery.{
  is_nodup, agrees, delivered, offer_all-pushed, agrees-open_ids, ready_of_agrees, pushed_of_agrees,
}

module _ (buf : ℕ) (tenant scope : Text) (body : Bytes) where
  agrees-reordered :
      (ids ids' : List SubId) (clients : List Sub)
      → ((id : SubId) → contains ids id ≡ contains ids' id)
      → agrees buf tenant scope body ids' clients ≡ true
      → agrees buf tenant scope body ids clients ≡ true
  agrees-reordered ids ids' [] e h = refl
  agrees-reordered ids ids' (s ∷ clients) e h =
      ground (arith, e s.id, agrees-reordered ids ids' clients e)

-- The loop of deliver leaves the same clients, in whatever order it takes the Subs of the tenant:
-- for any list that names each of them once.
pub deliver_any_order :
    (tenant scope : Text) (body : Bytes) (h : FanoutHub) (ids : List SubId)
    → IsCoherent h
    → is_nodup h.buf tenant scope body ids ≡ true
    → ((id : SubId) → contains ids id ≡ contains (ids_at h.subs tenant) id)
    → offer_all h.buf tenant scope body ids h.clients ≡ some (delivered tenant scope body h).clients
deliver_any_order tenant scope body h ids c n e =
    let a = agrees-reordered h.buf tenant scope body ids (ids_at h.subs tenant) h.clients e (
      rw (c.listed tenant) (agrees-open_ids h.buf tenant scope body h.next h.clients c.numbered)) in
    offer_all-pushed h.buf tenant scope body ids h.clients n
      (ready_of_agrees h.buf tenant scope body ids h.clients a)
    ∙ ap some (pushed_of_agrees h.buf tenant scope body ids h.clients a)
