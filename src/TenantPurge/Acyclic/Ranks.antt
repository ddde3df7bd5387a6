-- ===== src/TenantPurge/Acyclic/Ranks.antt =====
-- Lists of columns by their ranks.
use shared_events.Prelude.{
  ℕ-Eq, Bool, Bool-cases, List, Text, [], all_of, arith, count_by, inl, inr, leb, length, ltb, refl,
  true, ℕ, ◌&&◌, ◌++◌, ◌+◌, ◌∷◌, ◌≡◌, ◌≤◌,
}
use Prim.Native.Nat.{min}
use shared_events.TenantPurge.{TenantColumn, max_passes}
use shared_events.TenantPurge.Acyclic.Contract.{is_listed}

module _ (rank : Text → ℕ) where
  abbrev pub above : ℕ → List TenantColumn → Bool
  above j pending = all_of (λ c. leb j (rank c.table)) pending

  abbrev pub higher : ℕ → List TenantColumn → ℕ
  higher j pending = count_by (λ c. leb (j + 1) (rank c.table)) pending

  -- The column is one of the database's, and its rank is below the number of passes.
  abbrev pub is_fit : List TenantColumn → TenantColumn → Bool
  is_fit cols c = ltb (rank c.table) max_passes && is_listed cols c

  abbrev pub is_short : List TenantColumn → List TenantColumn → Bool
  is_short cols blocked = all_of (is_fit cols) blocked

  pub above-append :
      (j : ℕ) (blocked : List TenantColumn) (c : TenantColumn)
      → above j (blocked ++ c ∷ []) ≡ (above j blocked && leb j (rank c.table))
  above-append j [] c = ground arith
  above-append j (b ∷ blocked) c = ground (arith, above-append j blocked c)

  pub is_short-append :
      (cols blocked : List TenantColumn) (c : TenantColumn)
      → is_short cols (blocked ++ c ∷ []) ≡ (is_short cols blocked && is_fit cols c)
  is_short-append cols [] c = ground arith
  is_short-append cols (b ∷ blocked) c = ground (arith, is_short-append cols blocked c)

  -- The least rank of the columns.
  pub least : TenantColumn → List TenantColumn → ℕ
  least c [] = rank c.table
  least c (d ∷ pending) = min (rank c.table) (least d pending)

  above_mono :
      (i j : ℕ) (pending : List TenantColumn)
      → i ≤ j
      → above j pending ≡ true
      → above i pending ≡ true
  above_mono i j [] l h = refl
  above_mono i j (c ∷ pending) l h = ground (arith, above_mono i j pending l)

  pub least-above :
      (c : TenantColumn) (pending : List TenantColumn)
      → above (least c pending) (c ∷ pending) ≡ true
  unfolding least
  least-above c [] = ground arith
  least-above c (d ∷ pending) = ground (
    arith,
    least-above d pending,
    above_mono (min (rank c.table) (least d pending)) (least d pending) (d ∷ pending),
  )

  length-higher : (j : ℕ) (pending : List TenantColumn) → higher j pending ≤ length pending
  length-higher j [] = ground arith
  length-higher j (c ∷ pending) = ground (arith, length-higher j pending)

  pub least-higher :
      (c : TenantColumn) (pending : List TenantColumn)
      → higher (least c pending) (c ∷ pending) + 1 ≤ length (c ∷ pending)
  unfolding least
  least-higher c [] = ground arith
  least-higher c (d ∷ pending) = elim (Bool-cases (leb (rank c.table) (least d pending))) [
    | inl low ↦ ground (
      arith,
      low,
      length-higher (rank c.table) (d ∷ pending),
      min (rank c.table) (least d pending),
    )
    | inr high ↦ ground (arith, high, least-higher d pending, min (rank c.table) (least d pending))
  ]

  pub least_from :
      (j : ℕ) (c : TenantColumn) (pending : List TenantColumn)
      → above j (c ∷ pending) ≡ true
      → j ≤ least c pending
  unfolding least
  least_from j c [] h = ground arith
  least_from j c (d ∷ pending) h = ground (arith, least_from j d pending)
