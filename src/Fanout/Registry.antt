-- ===== src/Fanout/Registry.antt =====
-- The map from tenants to their Subs.
use shared_events.Prelude.{
  ℕ-Eq, Text-Eq, Bool, List, Text, [], arith, false, if◌then◌else◌, not, refl, text_eq_iff, true,
  ◌&&◌, ◌==◌, ◌||◌, ◌∷◌, ◌≡◌,
}
use shared_events.Fanout.{SubId, Registry, ids_at, add_id, without, remove_id, keep_set}

-- A tenant is a key once.
abbrev pub has_key : Registry → Text → Bool
has_key [] tenant = false
has_key ((t, set) ∷ rest) tenant = t == tenant || has_key rest tenant

abbrev pub is_keyed : Registry → Bool
is_keyed [] = true
is_keyed ((t, set) ∷ rest) = not (has_key rest t) && is_keyed rest

pub ids_at-add_id :
    (r : Registry) (tenant : Text) (id : SubId) (t : Text)
    → ids_at (add_id r tenant id) t ≡ (if tenant == t then id ∷ ids_at r t else ids_at r t)
unfolding ids_at add_id
ids_at-add_id [] tenant id t = ground (arith, text_eq_iff tenant t)
ids_at-add_id ((u, set) ∷ rest) tenant id t = ground (
  arith,
  ids_at-add_id rest tenant id t,
  text_eq_iff u tenant,
  text_eq_iff u t,
  text_eq_iff tenant t,
)

has_key-add_id :
    (r : Registry) (tenant : Text) (id : SubId) (t : Text)
    → has_key (add_id r tenant id) t ≡ (tenant == t || has_key r t)
unfolding add_id
has_key-add_id [] tenant id t = refl
has_key-add_id ((u, set) ∷ rest) tenant id t = ground (
  arith,
  has_key-add_id rest tenant id t,
  text_eq_iff u tenant,
  text_eq_iff u t,
  text_eq_iff tenant t,
)

pub is_keyed-add_id :
    (r : Registry) (tenant : Text) (id : SubId)
    → is_keyed r ≡ true
    → is_keyed (add_id r tenant id) ≡ true
unfolding add_id
is_keyed-add_id [] tenant id h = refl
is_keyed-add_id ((u, set) ∷ rest) tenant id h = ground (
  arith,
  is_keyed-add_id rest tenant id,
  has_key-add_id rest tenant id u,
  text_eq_iff u tenant,
  text_eq_iff tenant u,
)

ids_at_absent : (r : Registry) (t : Text) → has_key r t ≡ false → ids_at r t ≡ []
unfolding ids_at
ids_at_absent [] t h = refl
ids_at_absent ((u, set) ∷ rest) t h = ground (arith, ids_at_absent rest t)

ids_at-keep_set :
    (u : Text) (set : List SubId) (rest : Registry) (t : Text)
    → has_key rest u ≡ false
    → ids_at (keep_set u set rest) t ≡ (if u == t then set else ids_at rest t)
unfolding ids_at
ids_at-keep_set u [] rest t h = ground (arith, ids_at_absent rest u, text_eq_iff u t)
ids_at-keep_set u (id ∷ set) rest t h = refl

pub ids_at-remove_id :
    (r : Registry) (tenant : Text) (id : SubId) (t : Text)
    → is_keyed r ≡ true
    → ids_at (remove_id r tenant id) t
      ≡ (if tenant == t then without id (ids_at r t) else ids_at r t)
unfolding ids_at remove_id
ids_at-remove_id [] tenant id t h = ground arith
ids_at-remove_id ((u, set) ∷ rest) tenant id t h = ground (
  arith,
  ids_at-keep_set u (without id set) rest t,
  ids_at-remove_id rest tenant id t,
  text_eq_iff u tenant,
  text_eq_iff u t,
  text_eq_iff tenant t,
)

has_key-keep_set :
    (u : Text) (set : List SubId) (rest : Registry) (t : Text)
    → has_key ((u, set) ∷ rest) t ≡ false
    → has_key (keep_set u set rest) t ≡ false
has_key-keep_set u [] rest t h = ground arith
has_key-keep_set u (id ∷ set) rest t h = h

has_key-remove_id :
    (r : Registry) (tenant : Text) (id : SubId) (t : Text)
    → has_key r t ≡ false
    → has_key (remove_id r tenant id) t ≡ false
unfolding remove_id
has_key-remove_id [] tenant id t h = refl
has_key-remove_id ((u, set) ∷ rest) tenant id t h =
    ground (arith, has_key-keep_set u (without id set) rest t, has_key-remove_id rest tenant id t)

is_keyed-keep_set :
    (u : Text) (set : List SubId) (rest : Registry)
    → has_key rest u ≡ false
    → is_keyed rest ≡ true
    → is_keyed (keep_set u set rest) ≡ true
is_keyed-keep_set u [] rest h k = k
is_keyed-keep_set u (id ∷ set) rest h k = ground arith

pub is_keyed-remove_id :
    (r : Registry) (tenant : Text) (id : SubId)
    → is_keyed r ≡ true
    → is_keyed (remove_id r tenant id) ≡ true
unfolding remove_id
is_keyed-remove_id [] tenant id h = refl
is_keyed-remove_id ((u, set) ∷ rest) tenant id h = ground (
  arith,
  is_keyed-keep_set u (without id set) rest,
  is_keyed-remove_id rest tenant id,
  has_key-remove_id rest tenant id u,
)
