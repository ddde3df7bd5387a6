-- ===== src/Outbox/Repository/Payloads.antt =====
-- The statements keep the payload of a record, and none but MarkAsPublished removes a row.
use shared_events.Prelude.{
  ℕ-Eq, Text-Eq, Bool, Bytes, List, Result, Text, [], all_of, arith, contains, err, not, ok, refl,
  true, ℕ, ◌-◌, ◌==◌, ◌||◌, ◌∷◌, ◌≡◌, ◌≢◌,
}
use shared_events.Event.{Uuid, Time}
use shared_events.Outbox.{OutboxRecord}
use shared_events.Outbox.Repository.{
  Table, ids, ExecReply, QueryReply, candidates, claim, claim_all, returning, mark_as_failed, fail,
  fail_all, delete, mark_as_published, get_pending_records, processing_claim_stale_after,
}
use shared_events.Outbox.Repository.Selection.{ids-claim_all, ids-fail_all, contains-delete}

-- Every row of the id holds the payload.
abbrev pub has_payload : Uuid → Bytes → Table → Bool
has_payload id payload t = all_of (λ r. not (r.id == id) || r.payload == payload) t

pub has_payload-claim_all :
    (id : Uuid) (payload : Bytes) (now : Time) (chosen : List Uuid) (t : Table)
    → has_payload id payload t ≡ true
    → has_payload id payload (claim_all now chosen t) ≡ true
unfolding claim_all claim
has_payload-claim_all id payload now chosen [] h = refl
has_payload-claim_all id payload now chosen (r ∷ t) h =
    ground (arith, has_payload-claim_all id payload now chosen t)

pub has_payload-returning :
    (id : Uuid) (payload : Bytes) (chosen : List Uuid) (t : Table)
    → has_payload id payload t ≡ true
    → has_payload id payload (returning chosen t) ≡ true
unfolding returning
has_payload-returning id payload chosen [] h = refl
has_payload-returning id payload chosen (r ∷ t) h =
    ground (arith, has_payload-returning id payload chosen t)

pub ids-mark_as_failed :
    (reply : ExecReply) (id : Uuid) (m : Text) (at : Time) (t : Table)
    → ids (mark_as_failed reply id m at t).1 ≡ ids t
unfolding mark_as_failed
ids-mark_as_failed reply id m at t = ground (arith, ids-fail_all id m at t)

pub contains-mark_as_published :
    (print : Uuid → Text) (reply : ExecReply) (id id' : Uuid) (t : Table)
    → id' ≢ id
    → contains (ids (mark_as_published print reply id' t).1) id ≡ contains (ids t) id
unfolding mark_as_published
contains-mark_as_published print reply id id' t n = ground (arith, contains-delete id id' t n)

-- What GetPendingRecords returns and leaves, of a record in the table.
abbrev pub Claimed : Uuid → Bytes → Result (List OutboxRecord) × Table → Type 0
Claimed id payload (err e, t) = contains (ids t) id ≡ true
Claimed id payload (ok records, t) =
    (contains (ids t) id ≡ true) × (has_payload id payload records ≡ true)

pub get_pending-Claimed :
    (id : Uuid) (payload : Bytes) (reply : QueryReply) (locked : Uuid → Bool) (now : Time)
    (limit : ℕ) (t : Table)
    → contains (ids t) id ≡ true
    → has_payload id payload t ≡ true
    → Claimed id payload (get_pending_records reply locked now limit t)
unfolding get_pending_records
get_pending-Claimed id payload reply locked now limit t h p =
    let chosen = candidates locked (now - processing_claim_stale_after) limit t in
    let t' = claim_all now chosen t in
    ground (
      arith,
      ids-claim_all now chosen t,
      has_payload-claim_all id payload now chosen t p,
      has_payload-returning id payload chosen t',
    )

pub has_payload-get_pending :
    (id : Uuid) (payload : Bytes) (reply : QueryReply) (locked : Uuid → Bool) (now : Time)
    (limit : ℕ) (t : Table)
    → has_payload id payload t ≡ true
    → has_payload id payload (get_pending_records reply locked now limit t).1 ≡ true
unfolding get_pending_records
has_payload-get_pending id payload reply locked now limit t p =
    let chosen = candidates locked (now - processing_claim_stale_after) limit t in
    ground (arith, has_payload-claim_all id payload now chosen t p)

has_payload-fail_all :
    (id : Uuid) (payload : Bytes) (id' : Uuid) (m : Text) (at : Time) (t : Table)
    → has_payload id payload t ≡ true
    → has_payload id payload (fail_all id' m at t) ≡ true
unfolding fail_all fail
has_payload-fail_all id payload id' m at [] h = refl
has_payload-fail_all id payload id' m at (r ∷ t) h =
    ground (arith, has_payload-fail_all id payload id' m at t)

has_payload-delete :
    (id : Uuid) (payload : Bytes) (id' : Uuid) (t : Table)
    → has_payload id payload t ≡ true
    → has_payload id payload (delete id' t) ≡ true
unfolding delete
has_payload-delete id payload id' [] h = refl
has_payload-delete id payload id' (r ∷ t) h = ground (arith, has_payload-delete id payload id' t)

pub has_payload-mark_as_failed :
    (id : Uuid) (payload : Bytes) (reply : ExecReply) (id' : Uuid) (m : Text) (at : Time)
    (t : Table)
    → has_payload id payload t ≡ true
    → has_payload id payload (mark_as_failed reply id' m at t).1 ≡ true
unfolding mark_as_failed
has_payload-mark_as_failed id payload reply id' m at t h =
    ground (arith, has_payload-fail_all id payload id' m at t h)

pub has_payload-mark_as_published :
    (id : Uuid) (payload : Bytes) (print : Uuid → Text) (reply : ExecReply) (id' : Uuid) (t : Table)
    → has_payload id payload t ≡ true
    → has_payload id payload (mark_as_published print reply id' t).1 ≡ true
unfolding mark_as_published
has_payload-mark_as_published id payload print reply id' t h =
    ground (arith, has_payload-delete id payload id' t h)
