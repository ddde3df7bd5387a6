-- ===== src/TenantPurge/Handler.antt =====
-- The message handler: what the answer to the server means for the database.
use shared_events.Prelude.{
  ℕ-Eq, Text-Eq, Bool, Bool-cases, Bytes, List, Option, Result, Text, arith, err, false, inl, inr,
  none, ok, refl, some, true, ℕ, ◌==◌, ◌≡◌,
}
use shared_events.Event.{Uuid, nil_uuid, Event, UuidCodec, JsonCodec, from_json}
use shared_events.TenantPurge.Message.{confirmed_tenant_purge}
use shared_events.TenantPurge.{
  TenantPurger, TenantColumn, Listing, listed, unlisted, unread, Commit, committed, not_committed,
  commit_lost, Db, closed, to_commit, begun, with_columns, purge, Reply, ack, nak, after_purge,
  decoded, handle,
}
use shared_events.TenantPurge.Contract.{Target, IsPurgeable}
use shared_events.TenantPurge.Gone.{is_due, purge_gone}

-- The answer to COMMIT arrived: an error means that nothing was committed.
abbrev pub is_told : Commit → Bool
is_told committed = true
is_told (not_committed e) = true
is_told (commit_lost e) = false

module _ {S : Type 0} (uuid : UuidCodec) (db : Db S) (p : TenantPurger)
    (told : (s : S) → is_told (db.commit s) ≡ true) where
  abbrev Unchanged : S → Result ℕ × S → Type 0
  Unchanged before (err e, s) = s ≡ before
  Unchanged before (ok n, s) = s ≡ s

  closed-Unchanged :
      (total : ℕ) (before s : S) (c : Commit)
      → is_told c ≡ true
      → Unchanged before (closed db total before s c)
  closed-Unchanged total before s committed t = refl
  closed-Unchanged total before s (not_committed e) t = refl
  closed-Unchanged total before s (commit_lost e) t = ground arith

  to_commit-Unchanged : (before : S) (r : Result ℕ × S) → Unchanged before (to_commit db before r)
  to_commit-Unchanged before (err e, s) = refl
  to_commit-Unchanged before (ok n, s) = closed-Unchanged n before s (db.commit s) (told s)

  begun-Unchanged :
      (o : Option Text) (tenant : Text) (cols : List TenantColumn) (s : S)
      → Unchanged s (begun uuid db p o tenant cols s)
  begun-Unchanged none tenant cols s = to_commit-Unchanged s _
  begun-Unchanged (some e) tenant cols s = refl

  with_columns-Unchanged :
      (l : Listing) (tenant : Text) (s : S) → Unchanged s (with_columns uuid db p l tenant s)
  with_columns-Unchanged (listed cols) tenant s = begun-Unchanged (db.begin s) tenant _ s
  with_columns-Unchanged (unlisted e) tenant s = refl
  with_columns-Unchanged (unread e) tenant s = refl

  purge-Unchanged : (tenant_id : Uuid) (s : S) → Unchanged s (purge uuid db p tenant_id s)
  unfolding purge
  purge-Unchanged tenant_id s = elim (Bool-cases p.has_db) [
    | inr closed_db ↦ rw closed_db refl
    | inl open_db ↦ rw open_db (elim (Bool-cases (tenant_id == nil_uuid)) [
      | inl is_nil ↦ rw is_nil refl
      | inr known ↦ rw known (with_columns-Unchanged (db.list_columns s) (uuid.print tenant_id) s)
    ])
  ]

-- What the answer means: an acked purge left nothing of the tenant, a nacked one changed nothing.
abbrev pub Fate :
    {S : Type 0} → (Target → S → Bool) → TenantPurger → List TenantColumn → S → Reply × S → Type 0
Fate gone p cols before (ack, s) = (u : Target) → is_due u p cols ≡ true → gone u s ≡ true
Fate gone p cols before (nak, s) = s ≡ before

module _ {S : Type 0} (uuid : UuidCodec) (json : JsonCodec) (db : Db S) (p : TenantPurger)
    (gone : Target → S → Bool) (tenant_id : Uuid) (cols : List TenantColumn) (s : S)
    (k : IsPurgeable db (uuid.print tenant_id) gone) (l : db.list_columns s ≡ listed cols)
    (told : (s : S) → is_told (db.commit s) ≡ true) where
  after_purge-Fate :
      (r : Result ℕ × S)
      → purge uuid db p tenant_id s ≡ r
      → Unchanged uuid db p told s r
      → Fate gone p cols s (after_purge uuid json db p r)
  after_purge-Fate (err e, s') q h = h
  after_purge-Fate (ok n, s') q h =
      λ u due. purge_gone uuid db p gone u tenant_id cols n s s' k l due q

-- A message with a confirmed purge is acked only when the tenant's rows are gone, each of them; and
-- when it is nacked, to be delivered again, the database is as it was before. For a database that
-- keeps the contract of a purge and whose answer to COMMIT arrives.
pub handle-Fate :
    {S : Type 0} (uuid : UuidCodec) (json : JsonCodec) (db : Db S) (p : TenantPurger)
    (gone : Target → S → Bool) (body : Bytes) (evt : Event) (tenant_id : Uuid) (reason : Text)
    (cols : List TenantColumn) (s : S)
    → from_json json body ≡ ok evt
    → confirmed_tenant_purge uuid (some evt) ≡ ((tenant_id, reason), true)
    → IsPurgeable db (uuid.print tenant_id) gone
    → db.list_columns s ≡ listed cols
    → ((s : S) → is_told (db.commit s) ≡ true)
    → Fate gone p cols s (handle uuid json db p body s)
unfolding handle
handle-Fate uuid json db p gone body evt tenant_id reason cols s decoded confirmed k l told =
    rw decoded (
      rw confirmed (
        after_purge-Fate uuid json db p gone tenant_id cols s k l told _ refl
          (purge-Unchanged uuid db p told tenant_id s)))
