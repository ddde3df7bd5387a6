-- ===== src/Outbox/Repository/Selection.antt =====
-- The rows that the subquery of GetPendingRecords picks.
use shared_events.Prelude.{
  ℕ-Eq, Bool, List, Option, Text, [], all_of, arith, contains, false, filter_by, leb, not, refl,
  some, suc, take, true, zero, ℕ, ◌&&◌, ◌==◌, ◌||◌, ◌∙◌, ◌∷◌, ◌≡◌, ◌≢◌, ◌≤◌,
}
use shared_events.Event.{Uuid, Time}
use shared_events.Outbox.{OutboxRecord, Status, processing}
use shared_events.Outbox.Repository.{
  Table, ids, is_eligible, insert_by_age, oldest_first, candidates, returning, claim_all, fail_all,
  delete,
}

pub contains-insert_by_age :
    (r : OutboxRecord) (t : Table) (id : Uuid)
    → contains (ids (insert_by_age r t)) id ≡ (r.id == id || contains (ids t) id)
unfolding insert_by_age
contains-insert_by_age r [] id = refl
contains-insert_by_age r (s ∷ t) id = ground (arith, contains-insert_by_age r t id)

pub contains-oldest_first :
    (t : Table) (id : Uuid) → contains (ids (oldest_first t)) id ≡ contains (ids t) id
unfolding oldest_first
contains-oldest_first [] id = refl
contains-oldest_first (r ∷ t) id =
    cc (contains-insert_by_age r (oldest_first t) id, contains-oldest_first t id)

pub contains-take :
    (n : ℕ) (t : Table) (id : Uuid)
    → contains (ids t) id ≡ false
    → contains (ids (take n t)) id ≡ false
contains-take zero t id h = refl
contains-take (suc n) [] id h = refl
contains-take (suc n) (r ∷ t) id h = ground (arith, contains-take n t id)

pub contains-filter_by :
    (p : OutboxRecord → Bool) (t : Table) (id : Uuid)
    → all_of (λ r. not (r.id == id) || not (p r)) t ≡ true
    → contains (ids (filter_by p t)) id ≡ false
contains-filter_by p [] id h = refl
contains-filter_by p (r ∷ t) id h = ground (arith, contains-filter_by p t id)

-- Whether a row was claimed at the given time or after it.
abbrev claimed_since : Time → Status → Option Time → Bool
claimed_since at processing (some last) = leb at last
claimed_since at _ last = false

-- Every row of the id was claimed at the time or after it.
abbrev pub all_claimed : Uuid → Time → Table → Bool
all_claimed id at t =
    all_of (λ r. not (r.id == id) || claimed_since at r.status r.last_attempt_at) t

claimed-not_eligible :
    (locked : Uuid → Bool) (id : Uuid) (at cutoff : Time) (t : Table)
    → all_claimed id at t ≡ true
    → cutoff ≤ at
    → all_of (λ r. not (r.id == id) || not (is_eligible cutoff r && not (locked r.id))) t ≡ true
unfolding is_eligible
claimed-not_eligible locked id at cutoff [] h le = refl
claimed-not_eligible locked id at cutoff (r ∷ t) h le =
    ground (arith, claimed-not_eligible locked id at cutoff t)

-- A row that is freshly claimed is no candidate.
pub claimed-not_candidate :
    (locked : Uuid → Bool) (id : Uuid) (at cutoff : Time) (limit : ℕ) (t : Table)
    → all_claimed id at t ≡ true
    → cutoff ≤ at
    → contains (candidates locked cutoff limit t) id ≡ false
unfolding candidates
claimed-not_candidate locked id at cutoff limit t h le =
    let p = λ (r : OutboxRecord). is_eligible cutoff r && not (locked r.id) in
    contains-take limit (oldest_first (filter_by p t)) id (
      contains-oldest_first (filter_by p t) id
      ∙ contains-filter_by p t id (claimed-not_eligible locked id at cutoff t h le))

-- What a claim returns was chosen.
pub contains-returning :
    (chosen : List Uuid) (t : Table) (id : Uuid)
    → contains (ids (returning chosen t)) id ≡ (contains chosen id && contains (ids t) id)
unfolding returning
contains-returning chosen [] id = ground arith
contains-returning chosen (r ∷ t) id = ground (arith, contains-returning chosen t id)

pub ids-claim_all :
    (now : Time) (chosen : List Uuid) (t : Table) → ids (claim_all now chosen t) ≡ ids t
unfolding claim_all
ids-claim_all now chosen [] = refl
ids-claim_all now chosen (r ∷ t) = ground (arith, ids-claim_all now chosen t)

pub ids-fail_all :
    (id : Uuid) (message : Text) (now : Time) (t : Table) → ids (fail_all id message now t) ≡ ids t
unfolding fail_all
ids-fail_all id message now [] = refl
ids-fail_all id message now (r ∷ t) = ground (arith, ids-fail_all id message now t)

pub contains-delete :
    (id id' : Uuid) (t : Table) → id' ≢ id → contains (ids (delete id' t)) id ≡ contains (ids t) id
unfolding delete
contains-delete id id' [] n = refl
contains-delete id id' (r ∷ t) n = ground (arith, contains-delete id id' t)
