-- ===== src/Outbox/Repository/Order.antt =====
-- Which rows a claim takes: the oldest ones that can be published, up to the limit.
use shared_events.Prelude.{
  ℕ-Eq, Bool, [], all_of, arith, contains, false, filter_by, inl, inr, leb, length, not, refl, suc,
  take, true, zero, ℕ, ◌&&◌, ◌∷◌, ◌≡◌, ◌⊎◌,
}
use shared_events.Event.{Uuid, Time}
use shared_events.Outbox.{OutboxRecord}
use shared_events.Outbox.Repository.{
  Table, ids, is_eligible, insert_by_age, oldest_first, picked, candidates,
}

-- The row is in the table.
abbrev pub In : OutboxRecord → Table → Type 0
In r [] = ⊥
In r (s ∷ t) = (s ≡ r) ⊎ In r t

abbrev none_older : OutboxRecord → Table → Bool
none_older r t = all_of (λ s. leb r.created_at s.created_at) t

abbrev is_sorted : Table → Bool
is_sorted [] = true
is_sorted (r ∷ t) = none_older r t && is_sorted t

none_older-insert_by_age :
    (r s : OutboxRecord) (t : Table)
    → leb r.created_at s.created_at ≡ true
    → none_older r t ≡ true
    → none_older r (insert_by_age s t) ≡ true
unfolding insert_by_age
none_older-insert_by_age r s [] le h = ground arith
none_older-insert_by_age r s (x ∷ t) le h = ground (arith, none_older-insert_by_age r s t)

none_older_trans :
    (r s : OutboxRecord) (t : Table)
    → leb r.created_at s.created_at ≡ true
    → none_older s t ≡ true
    → none_older r t ≡ true
none_older_trans r s [] le h = refl
none_older_trans r s (x ∷ t) le h = ground (arith, none_older_trans r s t)

insert_by_age-is_sorted :
    (r : OutboxRecord) (t : Table) → is_sorted t ≡ true → is_sorted (insert_by_age r t) ≡ true
unfolding insert_by_age
insert_by_age-is_sorted r [] h = refl
insert_by_age-is_sorted r (s ∷ t) h =
    ground
      (arith, insert_by_age-is_sorted r t, none_older-insert_by_age s r t, none_older_trans r s t)

oldest_first-is_sorted : (t : Table) → is_sorted (oldest_first t) ≡ true
unfolding oldest_first
oldest_first-is_sorted [] = refl
oldest_first-is_sorted (r ∷ t) =
    insert_by_age-is_sorted r (oldest_first t) (oldest_first-is_sorted t)

In-insert_by_age : (r s : OutboxRecord) (t : Table) → (s ≡ r) ⊎ In r t → In r (insert_by_age s t)
unfolding insert_by_age
In-insert_by_age r s [] h = h
In-insert_by_age r s (x ∷ t) h = ground (arith, In-insert_by_age r s t)

In-oldest_first : (r : OutboxRecord) (t : Table) → In r t → In r (oldest_first t)
unfolding oldest_first
In-oldest_first r [] m = elim m [ ]
In-oldest_first r (s ∷ t) (inl e) = In-insert_by_age r s (oldest_first t) (inl e)
In-oldest_first r (s ∷ t) (inr m) =
    In-insert_by_age r s (oldest_first t) (inr (In-oldest_first r t m))

In-filter_by :
    (p : OutboxRecord → Bool) (r : OutboxRecord) (t : Table)
    → p r ≡ true
    → In r t
    → In r (filter_by p t)
In-filter_by p r [] h m = elim m [ ]
In-filter_by p r (s ∷ t) h m = ground (arith, In-filter_by p r t)

none_older_of_In :
    (r s : OutboxRecord) (t : Table)
    → none_older s t ≡ true
    → In r t
    → leb s.created_at r.created_at ≡ true
none_older_of_In r s [] h m = elim m [ ]
none_older_of_In r s (x ∷ t) h m = ground (arith, none_older_of_In r s t)

-- Of a sorted table, a row is taken, or the limit is used up by rows that are no younger.
take_or_older :
    (n : ℕ) (r : OutboxRecord) (t : Table)
    → is_sorted t ≡ true
    → In r t
    → (contains (ids (take n t)) r.id ≡ true)
      ⊎ ((length (take n t) ≡ n) × (all_of (λ s. leb s.created_at r.created_at) (take n t) ≡ true))
take_or_older zero r t h m = inr (refl, refl)
take_or_older (suc n) r [] h m = elim m [ ]
take_or_older (suc n) r (s ∷ t) h m = ground (arith, take_or_older n r t, none_older_of_In r s t)

-- No row waits behind a younger one: a row that can be published and that no other transaction
-- holds is claimed, or the batch is full, of rows that are no younger.
pub oldest_claimed :
    (locked : Uuid → Bool) (cutoff : Time) (limit : ℕ) (t : Table) (r : OutboxRecord)
    → In r t
    → is_eligible cutoff r ≡ true
    → locked r.id ≡ false
    → (contains (candidates locked cutoff limit t) r.id ≡ true)
      ⊎ ((length (picked locked cutoff limit t) ≡ limit)
          × (all_of (λ s. leb s.created_at r.created_at) (picked locked cutoff limit t) ≡ true))
unfolding candidates
oldest_claimed locked cutoff limit t r m e l =
    let p = λ (s : OutboxRecord). is_eligible cutoff s && not (locked s.id) in
    let kept = filter_by p t in
    take_or_older limit r (oldest_first kept) (oldest_first-is_sorted kept)
      (In-oldest_first r kept (In-filter_by p r t (ground arith) m))
