-- ===== src/Outbox/Repository/Batches.antt =====
-- How many rows a claim takes, and which are left beside them.
use shared_events.Prelude.{
  ℕ-Eq, Bool, List, [], all_of, arith, contains, count_by, filter_by, if◌then◌else◌, length,
  length-take, not, refl, suc, take, true, zero, ℕ, ◌&&◌, ◌+◌, ◌∙◌, ◌∷◌, ◌≡◌, ◌≤◌,
}
use Prim.Native.Nat.{min}
use shared_events.Event.{Uuid, Time}
use shared_events.Outbox.{OutboxRecord}
use shared_events.Outbox.Repository.{
  Table, ids, is_eligible, insert_by_age, oldest_first, picked, candidates, claim, claim_all,
  returning,
}
use shared_events.Outbox.Repository.Selection.{
  contains-oldest_first, contains-take, contains-returning, ids-claim_all,
}

-- The rows that are not among the ids.
abbrev pub others : List Uuid → Table → Table
others chosen t = filter_by (λ r. not (contains chosen r.id)) t

module _ (p : OutboxRecord → Bool) where
  count-take : (n : ℕ) (t : Table) → count_by p (take n t) ≤ count_by p t
  count-take zero t = ground arith
  count-take (suc n) [] = ground arith
  count-take (suc n) (r ∷ t) = ground (arith, count-take n t)

  count-insert_by_age :
      (r : OutboxRecord) (t : Table)
      → count_by p (insert_by_age r t) ≡ (if p r then 1 else 0) + count_by p t
  unfolding insert_by_age
  count-insert_by_age r [] = refl
  count-insert_by_age r (s ∷ t) = ground (arith, count-insert_by_age r t)

  count-oldest_first : (t : Table) → count_by p (oldest_first t) ≡ count_by p t
  unfolding oldest_first
  count-oldest_first [] = refl
  count-oldest_first (r ∷ t) =
      ground (arith, count-insert_by_age r (oldest_first t), count-oldest_first t)

  count-filter : (q : OutboxRecord → Bool) (t : Table) → count_by p (filter_by q t) ≤ count_by p t
  count-filter q [] = ground arith
  count-filter q (r ∷ t) = ground (arith, count-filter q t)

  length-filter : (t : Table) → length (filter_by p t) ≡ count_by p t
  length-filter [] = refl
  length-filter (r ∷ t) = ground (arith, length-filter t)

  contains-filter :
      (t : Table) (id : Uuid)
      → contains (ids (filter_by p t)) id ≡ true
      → contains (ids t) id ≡ true
  contains-filter [] id h = h
  contains-filter (r ∷ t) id h = ground (arith, contains-filter t id)

-- Every row of the table is among its own ids.
all_listed :
    (listed : List Uuid) (t : Table)
    → ((id : Uuid) → contains (ids t) id ≡ true → contains listed id ≡ true)
    → count_by (λ r. contains listed r.id) t ≡ length t
all_listed listed [] h = refl
all_listed listed (r ∷ t) h =
    ground (arith, h r.id, all_listed listed t (λ id k. h id (ground (arith, k))))

length-others :
    (chosen : List Uuid) (t : Table)
    → length (others chosen t) + count_by (λ r. contains chosen r.id) t ≡ length t
length-others chosen [] = refl
length-others chosen (r ∷ t) = ground (arith, length-others chosen t)

filter-ext :
    (p q : OutboxRecord → Bool) (t : Table)
    → ((r : OutboxRecord) → p r ≡ q r)
    → filter_by p t ≡ filter_by q t
filter-ext p q [] h = refl
filter-ext p q (r ∷ t) h = ground (arith, h r, filter-ext p q t h)

others-claim_all :
    (now : Time) (chosen : List Uuid) (t : Table)
    → others chosen (claim_all now chosen t) ≡ others chosen t
unfolding claim_all claim
others-claim_all now chosen [] = refl
others-claim_all now chosen (r ∷ t) = ground (arith, others-claim_all now chosen t)

-- Beside the rows that a claim hands out, the table is as it was.
pub others-returning :
    (now : Time) (chosen : List Uuid) (t : Table)
    → ((id : Uuid) → contains chosen id ≡ true → contains (ids t) id ≡ true)
    → others (ids (returning chosen (claim_all now chosen t))) (claim_all now chosen t)
      ≡ others chosen t
others-returning now chosen t sub =
    let t' = claim_all now chosen t in
    filter-ext (λ r. not (contains (ids (returning chosen t')) r.id))
      (λ r. not (contains chosen r.id)) t'
      (λ r. ground (arith, contains-returning chosen t' r.id, sub r.id, ids-claim_all now chosen t))
    ∙ others-claim_all now chosen t

module _ (locked : Uuid → Bool) (cutoff : Time) (limit : ℕ) where
  abbrev pub free : OutboxRecord → Bool
  free r = is_eligible cutoff r && not (locked r.id)

  pub candidates_listed :
      (t : Table) (id : Uuid)
      → contains (candidates locked cutoff limit t) id ≡ true
      → contains (ids t) id ≡ true
  unfolding candidates picked
  candidates_listed t id h = ground (
    arith,
    contains-take limit (oldest_first (filter_by free t)) id,
    contains-oldest_first (filter_by free t) id,
    contains-filter free t id,
  )

  length-insert_by_age : (r : OutboxRecord) (t : Table) → length (insert_by_age r t) ≡ length t + 1
  unfolding insert_by_age
  length-insert_by_age r [] = refl
  length-insert_by_age r (s ∷ t) = ground (arith, length-insert_by_age r t)

  length-oldest_first : (t : Table) → length (oldest_first t) ≡ length t
  unfolding oldest_first
  length-oldest_first [] = refl
  length-oldest_first (r ∷ t) =
      ground (arith, length-insert_by_age r (oldest_first t), length-oldest_first t)

  take_all : (n : ℕ) (t : Table) → length t ≤ n → take n t ≡ t
  take_all zero [] h = refl
  take_all zero (r ∷ t) h = ground arith
  take_all (suc n) [] h = refl
  take_all (suc n) (r ∷ t) h = ground (arith, take_all n t)

  -- A claim takes as many rows as it may, and each of them stands for a row of the table.
  pub length-others-candidates :
      (t : Table)
      → length (others (candidates locked cutoff limit t) t) + min limit (count_by free t)
        ≤ length t
  unfolding candidates picked
  length-others-candidates t =
      let sorted = oldest_first (filter_by free t) in
      let chosen = ids (take limit sorted) in
      let q = λ (r : OutboxRecord). contains chosen r.id in
      omega (
        arith,
        length-others chosen t,
        all_listed chosen (take limit sorted) (λ id h. h),
        length-take limit sorted,
        length-oldest_first (filter_by free t),
        length-filter free t,
        count-take q limit sorted,
        count-oldest_first q (filter_by free t),
        count-filter q free t,
      )

  free_listed :
      (listed : List Uuid) (t : Table)
      → ((id : Uuid) → contains (ids (filter_by free t)) id ≡ true → contains listed id ≡ true)
      → all_of (λ r. not (free r)) (others listed t) ≡ true
  free_listed listed [] h = refl
  free_listed listed (r ∷ t) h =
      ground (arith, h r.id, free_listed listed t (λ id k. h id (ground (arith, k))))

  -- A claim with room to spare leaves no row that it could take.
  pub none_free-others :
      (t : Table)
      → count_by free t ≤ limit
      → all_of (λ r. not (free r)) (others (candidates locked cutoff limit t) t) ≡ true
  unfolding candidates picked
  none_free-others t h =
      let kept = filter_by free t in
      let whole =
        take_all limit (oldest_first kept)
          (omega (arith, h, length-oldest_first kept, length-filter free t)) in
      rw whole (free_listed (ids (oldest_first kept)) t (λ id k. contains-oldest_first kept id ∙ k))
