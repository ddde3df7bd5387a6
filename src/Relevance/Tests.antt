-- ===== src/Relevance/Tests.antt =====
-- Events that concern a service or do not, and the theorems at concrete payloads.
use shared_events.Prelude.{
  ℕ-Eq, Text-Eq, [], any_of, codes, contains, err, false, none, ok, refl, some, true, ℕ, ◌++◌, ◌==◌,
  ◌↔◌, ◌∷◌, ◌≡◌, ◌≢◌, ◌≤◌,
}
use shared_events.Event.{Dict, string, string_list, any_list, number, nil, cons, lookup, UuidCodec}
use shared_events.Relevance.{
  UserRelevance, to_lower, any_role, services_allow, payload_services, payload_strings,
  payload_outlet_ids, by_rules, relevant, revoked, any_known,
}
use shared_events.Relevance.Space.{trim_space, trim_left, trim_right, is_space}
use shared_events.Relevance.Outlets.{names, payload_outlet_ids_exact, times}
use shared_events.Relevance.Decision.{revoked_iff}

abbrev same : ℕ → ℕ
same c = c

-- One-letter ids.
abbrev uuids : UuidCodec
uuids = record { print = λ id. id ∷ []; parse = elim [ [] ↦ err [] | c ∷ s ↦ ok c ] }

abbrev pos_service : UserRelevance
pos_service = record {
  service = codes "pos";
  admin_roles = none;
  service_roles = (codes "waiter", true) ∷ [];
  outlet_known = some (λ tenant outlet. outlet == 66);
}

abbrev listed : Dict
listed = (codes "services", any_list (cons (string (codes " pos ")) (cons (number 0) nil))) ∷ []

abbrev elsewhere : Dict
elsewhere = (codes "services", any_list (cons (string (codes "inventory")) nil)) ∷ []

abbrev at_outlet : Dict
at_outlet =
    (codes "outlet_ids", any_list (cons (string (codes "A")) (cons (string (codes "B")) nil)))
    ∷ (codes "outlet_id", string (codes "B"))
    ∷ (codes "roles", string_list (codes "Cashier" ∷ []))
    ∷ []

trimmed_service : relevant same uuids pos_service 1 listed ≡ true
unfolding relevant payload_services payload_strings lookup services_allow trim_space trim_left
    trim_right is_space
trimmed_service = refl

mirrored_outlet : relevant same uuids pos_service 1 at_outlet ≡ true
unfolding relevant by_rules payload_services payload_strings lookup services_allow trim_space
    trim_left trim_right is_space payload_outlet_ids any_role any_known to_lower
mirrored_outlet = refl

shouted_admin :
    relevant same uuids pos_service 1 ((codes "roles", string (codes "OWNER")) ∷ []) ≡ true
unfolding relevant by_rules payload_services payload_strings lookup trim_space trim_left trim_right
    is_space any_role to_lower
shouted_admin = refl

revoked_iff_example : (revoked pos_service elsewhere ≡ true) ↔ (
    (pos_service.service ≢ [])
    × (payload_services elsewhere ≢ none)
    × (relevant same uuids pos_service 1 elsewhere ≡ false))
revoked_iff_example = revoked_iff same uuids pos_service 1 elsewhere

payload_outlet_ids_exact_example :
    (contains (payload_outlet_ids uuids at_outlet) 66
      ≡ any_of (names uuids 66) (
          payload_strings (lookup at_outlet (codes "outlet_ids"))
          ++ payload_strings (lookup at_outlet (codes "outlet_id"))))
    × (times uuids 66 (payload_outlet_ids uuids at_outlet) ≤ 1)
payload_outlet_ids_exact_example = payload_outlet_ids_exact uuids 66 at_outlet
