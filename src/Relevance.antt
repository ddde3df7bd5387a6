-- ===== src/Relevance.antt =====
-- relevance.go: whether an auth.user event concerns a service. Lower-casing of the runes beyond
-- ASCII is a parameter, `lower_wide`: it stands for package unicode's tables.
pub mod Space
pub mod Outlets
pub mod Decision
mod Tests
use Space.{trim_space}
use shared_events.Prelude.{
  ℕ-Eq, Text-Eq, Bool, List, Option, Result, Text, [], codes, contains, err, false, if◌then◌else◌,
  leb, ltb, map, none, not, ok, some, true, ℕ, ◌&&◌, ◌++◌, ◌+◌, ◌==◌, ◌||◌, ◌∷◌,
}
use shared_events.Event.{
  Uuid, Dict, Value, Values, string, string_list, any_list, nil, cons, lookup, UuidCodec,
}

-- A `map[string]bool`: a missing key reads as false.
abbrev pub RoleSet : Type 0
RoleSet = List (Text × Bool)

abbrev pub has_role : RoleSet → Text → Bool
has_role [] role = false
has_role ((k, v) ∷ rest) role = if k == role then v else has_role rest role

-- A nil map is `none` where the code tests it, and a nil function is `none`.
pub record UserRelevance : Type 0 where
  pub service : Text
  pub admin_roles : Option RoleSet
  pub service_roles : RoleSet
  pub outlet_known : Option (Uuid → Uuid → Bool)

abbrev pub default_admin_roles : RoleSet
default_admin_roles =
    (codes "superuser", true)
    ∷ (codes "super_admin", true)
    ∷ (codes "admin", true)
    ∷ (codes "owner", true)
    ∷ (codes "tenant_admin", true)
    ∷ (codes "administrator", true)
    ∷ (codes "director", true)
    ∷ []

abbrev pub all_services : Text
all_services = codes "*"

unfoldable pub services_allow : List Text → Text → Bool
services_allow [] service = false
services_allow (s ∷ rest) service =
    if s == all_services || s == service then true else services_allow rest service

-- The texts of a JSON list, trimmed, without the blank ones.
unfoldable pub list_strings : Values → List Text
list_strings nil = []
list_strings (cons (string s) rest) =
    let more = list_strings rest in if trim_space s == [] then more else trim_space s ∷ more
list_strings (cons v rest) = list_strings rest

unfoldable pub payload_strings : Value → List Text
unfolding list_strings
payload_strings (string_list l) = l
payload_strings (any_list l) = list_strings l
payload_strings (string s) = if trim_space s == [] then [] else trim_space s ∷ []
payload_strings _ = []

-- `none` is known = false.
abbrev services_of : Value → Option (List Text)
services_of (string_list v) = some v
services_of (any_list v) = some (payload_strings (any_list v))
services_of _ = none

unfoldable pub payload_services : Dict → Option (List Text)
payload_services payload = services_of (lookup payload (codes "services"))

-- The loop of PayloadOutletIDs; `seen` holds the ids of `out`.
module _ (uuid : UuidCodec) where
  abbrev add_parsed : Result Uuid → List Uuid → List Uuid
  add_parsed (err e) out = out
  add_parsed (ok id) out = if contains out id then out else out ++ id ∷ []

  pub collect_ids : List Text → List Uuid → List Uuid
  collect_ids [] out = out
  collect_ids (s ∷ rest) out = collect_ids rest (add_parsed (uuid.parse s) out)

  unfoldable pub payload_outlet_ids : Dict → List Uuid
  unfolding collect_ids
  payload_outlet_ids payload =
      collect_ids
        (payload_strings (lookup payload (codes "outlet_ids"))
          ++ payload_strings (lookup payload (codes "outlet_id")))
        []

module _ (lower_wide : ℕ → ℕ) where
  abbrev lower_rune : ℕ → ℕ
  lower_rune c = if leb 65 c && leb c 90 then c + 32 else if ltb c 128 then c else lower_wide c

  -- `strings.ToLower`.
  pub to_lower : Text → Text
  to_lower s = map lower_rune s

  unfoldable pub any_role : RoleSet → List Text → Bool
  any_role set [] = false
  any_role set (role ∷ rest) = if has_role set (to_lower role) then true else any_role set rest

unfoldable pub any_known : (Uuid → Bool) → List Uuid → Bool
any_known known [] = false
any_known known (id ∷ rest) = if known id then true else any_known known rest

abbrev or_default : Option RoleSet → RoleSet
or_default none = default_admin_roles
or_default (some set) = set

-- Rule 2: the outlets that the event names decide.
abbrev outlets_decide : Option (Uuid → Uuid → Bool) → Uuid → List Uuid → Bool
outlets_decide none tenant_id outlets = false
outlets_decide (some known) tenant_id outlets = any_known (known tenant_id) outlets

module _ (lower_wide : ℕ → ℕ) (uuid : UuidCodec) (r : UserRelevance) where
  -- Rules 2 to 4.
  abbrev without_admin : Uuid → List Text → List Uuid → Bool
  without_admin tenant_id roles [] = any_role lower_wide r.service_roles roles
  without_admin tenant_id roles (id ∷ rest) = outlets_decide r.outlet_known tenant_id (id ∷ rest)

  -- The rules for an event without the services list.
  unfoldable pub by_rules : Uuid → Dict → Bool
  by_rules tenant_id payload =
      let roles = payload_strings (lookup payload (codes "roles")) in
      if any_role lower_wide (or_default r.admin_roles) roles
      then true
      else without_admin tenant_id roles (payload_outlet_ids uuid payload)

  abbrev decide_by : Option (List Text) → Uuid → Dict → Bool
  decide_by none tenant_id payload = by_rules tenant_id payload
  decide_by (some services) tenant_id payload = services_allow services r.service

  unfoldable pub relevant : Uuid → Dict → Bool
  relevant tenant_id payload =
      if r.service == []
      then by_rules tenant_id payload
      else decide_by (payload_services payload) tenant_id payload

abbrev leaves_out : Option (List Text) → Text → Bool
leaves_out none service = false
leaves_out (some services) service = not (services_allow services service)

unfoldable pub revoked : UserRelevance → Dict → Bool
revoked r payload =
    if r.service == [] then false else leaves_out (payload_services payload) r.service
