-- ===== src/Fanout/Delivery.antt =====
-- Who receives a message: the loop over the registry against one look at each client.
use shared_events.Prelude.{
  ℕ-Eq, Text-Eq, Bool, Bytes, List, Text, [], all_of, any_of, ap, arith, contains, false,
  if◌then◌else◌, length-append, map, not, refl, some, sym, true, ℕ, ◌&&◌, ◌==◌, ◌||◌, ◌∙◌, ◌∷◌, ◌≡◌,
}
use shared_events.Fanout.{SubId, Sub, FanoutHub, is_sub, wants, push, offer, offer_all, deliver}
use shared_events.Fanout.Closing.{absent_open}
use shared_events.Fanout.Coherent.{open_ids, is_numbered, is_bounded, IsCoherent}

-- The clients with the message pushed to those that pass the test.
abbrev pub pushed : ℕ → Bytes → (Sub → Bool) → List Sub → List Sub
pushed buf body test clients = map (λ s. if test s then push buf body s else s) clients

abbrev pub is_listed : List SubId → Text → Sub → Bool
is_listed ids tenant s = contains ids s.id && s.tenant == tenant

-- None of the listed clients is closed.
abbrev all_ready : List SubId → Text → List Sub → Bool
all_ready ids tenant clients = all_of (λ s. not (is_listed ids tenant s) || not s.is_closed) clients

module _ (buf : ℕ) (tenant scope : Text) (body : Bytes) where
  ready_head :
      (id : SubId) (ids : List SubId) (clients : List Sub)
      → all_ready (id ∷ ids) tenant clients ≡ true
      → any_of (λ s. is_sub id tenant s && wants scope s && s.is_closed) clients ≡ false
  ready_head id ids [] h = refl
  ready_head id ids (s ∷ clients) h = ground (arith, ready_head id ids clients)

  ready_tail :
      (id : SubId) (ids : List SubId) (clients : List Sub)
      → all_ready (id ∷ ids) tenant clients ≡ true
      → all_ready ids tenant (pushed buf body (λ s. is_sub id tenant s && wants scope s) clients)
        ≡ true
  unfolding push
  ready_tail id ids [] h = refl
  ready_tail id ids (s ∷ clients) h = ground (arith, ready_tail id ids clients)

  pushed-pushed :
      (id : SubId) (ids : List SubId) (clients : List Sub)
      → contains ids id ≡ false
      → pushed buf body
          (λ s. is_listed ids tenant s && wants scope s)
          (pushed buf body (λ s. is_sub id tenant s && wants scope s) clients)
        ≡ pushed buf body (λ s. is_listed (id ∷ ids) tenant s && wants scope s) clients
  unfolding push
  pushed-pushed id ids [] h = refl
  pushed-pushed id ids (s ∷ clients) h = ground (arith, pushed-pushed id ids clients h)

  pushed_none : (clients : List Sub) → pushed buf body (λ s. false) clients ≡ clients
  pushed_none [] = refl
  pushed_none (s ∷ clients) = ap (λ l. s ∷ l) (pushed_none clients)

  abbrev pub is_nodup : List SubId → Bool
  is_nodup [] = true
  is_nodup (id ∷ ids) = not (contains ids id) && is_nodup ids

  pub offer_all-pushed :
      (ids : List SubId) (clients : List Sub)
      → is_nodup ids ≡ true
      → all_ready ids tenant clients ≡ true
      → offer_all buf tenant scope body ids clients
        ≡ some (pushed buf body (λ s. is_listed ids tenant s && wants scope s) clients)
  unfolding offer_all offer
  offer_all-pushed [] clients n h = ap some (sym (pushed_none clients))
  offer_all-pushed (id ∷ ids) clients n h = rw (ready_head id ids clients h) (
      offer_all-pushed ids (pushed buf body (λ s. is_sub id tenant s && wants scope s) clients)
        (ground arith) (ready_tail id ids clients h)
      ∙ ap some (pushed-pushed id ids clients (ground arith)))

  abbrev same : Bool → Bool → Bool
  same a b = if a then b else not b

  -- The list names the open clients of the tenant and no other.
  abbrev pub agrees : List SubId → List Sub → Bool
  agrees ids clients =
      all_of (λ s. same (is_listed ids tenant s) (s.tenant == tenant && not s.is_closed)) clients

  agrees-cons :
      (id : SubId) (ids : List SubId) (clients : List Sub)
      → contains (map (λ s. s.id) clients) id ≡ false
      → agrees ids clients ≡ true
      → agrees (id ∷ ids) clients ≡ true
  agrees-cons id ids [] n h = refl
  agrees-cons id ids (s ∷ clients) n h = ground (arith, agrees-cons id ids clients)

  pub agrees-open_ids :
      (next : ℕ) (clients : List Sub)
      → is_numbered next clients ≡ true
      → agrees (open_ids tenant clients) clients ≡ true
  agrees-open_ids next [] h = refl
  agrees-open_ids next (s ∷ clients) h = ground (
    arith,
    agrees-open_ids next clients,
    agrees-cons s.id (open_ids tenant clients) clients,
    absent_open s.id tenant clients,
  )

  is_nodup-open_ids :
      (next : ℕ) (clients : List Sub)
      → is_numbered next clients ≡ true
      → is_nodup (open_ids tenant clients) ≡ true
  is_nodup-open_ids next [] h = refl
  is_nodup-open_ids next (s ∷ clients) h =
      ground (arith, is_nodup-open_ids next clients, absent_open s.id tenant clients)

  pub ready_of_agrees :
      (ids : List SubId) (clients : List Sub)
      → agrees ids clients ≡ true
      → all_ready ids tenant clients ≡ true
  ready_of_agrees ids [] h = refl
  ready_of_agrees ids (s ∷ clients) h = ground (arith, ready_of_agrees ids clients)

  -- Who should receive the message.
  abbrev pub receives : Sub → Bool
  receives s = s.tenant == tenant && not s.is_closed && wants scope s

  pub pushed_of_agrees :
      (ids : List SubId) (clients : List Sub)
      → agrees ids clients ≡ true
      → pushed buf body (λ s. is_listed ids tenant s && wants scope s) clients
        ≡ pushed buf body receives clients
  pushed_of_agrees ids [] h = refl
  pushed_of_agrees ids (s ∷ clients) h = ground (arith, pushed_of_agrees ids clients)

  open_ids-pushed :
      (t : Text) (clients : List Sub)
      → open_ids t (pushed buf body receives clients) ≡ open_ids t clients
  unfolding push
  open_ids-pushed t [] = refl
  open_ids-pushed t (s ∷ clients) = ground (arith, open_ids-pushed t clients)

  ids-pushed :
      (clients : List Sub)
      → map (λ s. s.id) (pushed buf body receives clients) ≡ map (λ s. s.id) clients
  unfolding push
  ids-pushed [] = refl
  ids-pushed (s ∷ clients) = ground (arith, ids-pushed clients)

  is_numbered-pushed :
      (next : ℕ) (clients : List Sub)
      → is_numbered next clients ≡ true
      → is_numbered next (pushed buf body receives clients) ≡ true
  unfolding push
  is_numbered-pushed next [] h = refl
  is_numbered-pushed next (s ∷ clients) h =
      ground (arith, is_numbered-pushed next clients, ids-pushed clients)

  is_bounded-pushed :
      (clients : List Sub)
      → is_bounded buf clients ≡ true
      → is_bounded buf (pushed buf body receives clients) ≡ true
  unfolding push
  is_bounded-pushed [] h = refl
  is_bounded-pushed (s ∷ clients) h =
      ground (arith, is_bounded-pushed clients, length-append s.chan (body ∷ []))

-- What a delivery leaves.
abbrev pub delivered : Text → Text → Bytes → FanoutHub → FanoutHub
delivered tenant scope body h = record h {
  clients = pushed h.buf body (receives h.buf tenant scope body) h.clients;
}

-- In a coherent hub a delivery does not panic, and its loop over the registry does this to the
-- clients and nothing else: each open client of the tenant that holds the scope or the wildcard (or
-- whatever its scopes, if the message has none) gets the message at the end of its buffer, or one
-- more lost message when its buffer is full; no client of another tenant is touched. The hub stays
-- coherent.
pub deliver_exact :
    (tenant scope : Text) (body : Bytes) (h : FanoutHub)
    → IsCoherent h
    → (deliver tenant scope body h ≡ some (delivered tenant scope body h))
      × IsCoherent (delivered tenant scope body h)
unfolding deliver
deliver_exact tenant scope body h c =
    let ids = open_ids tenant h.clients in
    let a = agrees-open_ids h.buf tenant scope body h.next h.clients c.numbered in
    let all =
      offer_all-pushed h.buf tenant scope body ids h.clients
        (is_nodup-open_ids h.buf tenant scope body h.next h.clients c.numbered)
        (ready_of_agrees h.buf tenant scope body ids h.clients a) in
    (
      rw (c.listed tenant) (rw all (rw (pushed_of_agrees h.buf tenant scope body ids h.clients a))),
      record {
        listed = λ t. c.listed t ∙ sym (open_ids-pushed h.buf tenant scope body t h.clients);
        keyed = c.keyed;
        numbered = is_numbered-pushed h.buf tenant scope body h.next h.clients c.numbered;
        bounded = is_bounded-pushed h.buf tenant scope body h.clients c.bounded;
      },
    )
