-- ===== src/Outbox/Writes.antt =====
-- What PublishWithOutbox leaves in the table of the SQL repository.
use shared_events.Prelude.{
  ℕ-Eq, Text-Eq, Bool, Bool-cases, Bytes, Option, Result, Text, arith, contains, err, false, inl,
  inr, none, ok, refl, some, true, ◌||◌, ◌∷◌, ◌≡◌, ◌⊎◌,
}
use shared_events.Event.{Time, Event, JsonCodec, to_json}
use shared_events.Outbox.{
  pending, pending_record, with_payload, create_outbox_record_in_tx, publish_with_outbox,
}
use shared_events.Outbox.Repository.{
  Table, ids, ExecReply, done, refused, lost, uncounted, create_outbox_record,
}
use shared_events.Outbox.Store.{Db, sql_repository}

-- The driver reported an error for a statement that took effect.
abbrev pub is_lost : ExecReply → Bool
is_lost (lost e) = true
is_lost _ = false

-- The driver reported an error.
abbrev pub has_failed : ExecReply → Bool
has_failed (refused e) = true
has_failed (lost e) = true
has_failed _ = false

abbrev pub is_err {ℓ} : {A : Type ℓ} → Result A → Bool
is_err (ok a) = false
is_err (err e) = true

-- What a result and a table say of a write.
abbrev pub Written : JsonCodec → Db → Event → Time → Table → Option Text × Table → Type 0
Written json db e now t (none, t') =
    (payload : Bytes) × (to_json json e ≡ ok payload)
    × (t'
        ≡ record {
          id = e.id;
          tenant_id = e.tenant_id;
          aggregate_type = e.aggregate_type;
          aggregate_id = e.aggregate_id;
          event_type = e.event_type;
          payload = payload;
          status = pending;
          attempts = 0;
          last_attempt_at = none;
          published_at = none;
          error_message = none;
          created_at = now;
        }
          ∷ t)
    × (contains (ids t) e.id ≡ false)
    × (has_failed db.on_create ≡ false)
Written json db e now t (some m, t') =
    ((t' ≡ t) ⊎ (is_lost db.on_create ≡ true))
    × (is_err (to_json json e) || contains (ids t) e.id || has_failed db.on_create ≡ true)

module _ (json : JsonCodec) (db : Db) (e : Event) (now : Time) (t : Table) where
  created-Written :
      (payload : Bytes) (reply : ExecReply)
      → to_json json e ≡ ok payload
      → db.on_create ≡ reply
      → Written json db e now t (create_outbox_record reply (pending_record e payload now) t)
  unfolding create_outbox_record pending_record
  created-Written payload (refused m) j r = (inl refl, rw r (ground arith))
  created-Written payload (lost m) j r = (inr (rw r refl), rw r (ground arith))
  created-Written payload done j r = elim (Bool-cases (contains (ids t) e.id)) [
    | inl taken ↦ rw taken (inl refl, ground (arith, taken))
    | inr fresh ↦ rw fresh (payload, j, refl, fresh, rw r refl)
  ]
  created-Written payload (uncounted m) j r = elim (Bool-cases (contains (ids t) e.id)) [
    | inl taken ↦ rw taken (inl refl, ground (arith, taken))
    | inr fresh ↦ rw fresh (payload, j, refl, fresh, rw r refl)
  ]

  with_payload-Written :
      (x : Result Bytes)
      → to_json json e ≡ x
      → Written json db e now t (with_payload json (sql_repository db) x e now t)
  with_payload-Written (err m) j = (inl refl, rw j refl)
  with_payload-Written (ok payload) j = created-Written payload db.on_create j refl

  -- PublishWithOutbox returns an error exactly when the event has no JSON, the id is taken, or the
  -- database reports one. When it returns none it has added one row to the table, and the row holds
  -- the event's id, tenant, aggregate and type, the event's JSON, the status PENDING, no attempts, no
  -- times but that of its creation, and no error. When it returns an error the table is as it was,
  -- unless the database took the row and its answer was lost.
  pub publish_with_outbox-Written :
      Written json db e now t (publish_with_outbox json (sql_repository db) e now t)
  unfolding publish_with_outbox create_outbox_record_in_tx
  publish_with_outbox-Written = with_payload-Written (to_json json e) refl
