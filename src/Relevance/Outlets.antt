-- ===== src/Relevance/Outlets.antt =====
-- What PayloadStrings and PayloadOutletIDs read out of a payload.
use shared_events.Prelude.{
  ℕ-Eq, Text-Eq, Bool, List, Result, Text, [], all_of, any_of, arith, codes, contains, count_by,
  err, false, if◌then◌else◌, not, ok, refl, text_eq_iff, true, ℕ, ◌&&◌, ◌++◌, ◌+◌, ◌==◌, ◌||◌, ◌∷◌,
  ◌≡◌, ◌≤◌,
}
use shared_events.Event.{
  Uuid, Dict, Value, Values, string, string_list, any_list, nil, cons, lookup, UuidCodec,
}
use shared_events.Relevance.{
  list_strings, payload_strings, collect_ids, add_parsed, payload_outlet_ids,
}
use shared_events.Relevance.Space.{trim_space, trim_space_idem}

-- Neither blank nor with a space at its ends.
abbrev pub is_clean : Text → Bool
is_clean s = not (s == []) && (trim_space s == s)

clean_trimmed : (s : Text) → (trim_space s == []) ≡ false → is_clean (trim_space s) ≡ true
clean_trimmed s h =
    ground (arith, text_eq_iff (trim_space (trim_space s)) (trim_space s), trim_space_idem s)

list_strings-is_clean : (l : Values) → all_of is_clean (list_strings l) ≡ true
unfolding list_strings
list_strings-is_clean nil = refl
list_strings-is_clean (cons (string s) rest) =
    ground (arith, clean_trimmed s, list_strings-is_clean rest)
list_strings-is_clean (cons v rest) = list_strings-is_clean rest

abbrev pub IsJson : Value → Type 0
IsJson (string_list l) = ⊥
IsJson v = Unit {0}

-- Whatever a decoded JSON payload holds under a key, PayloadStrings gives no blank text and none
-- with a space at its ends.
pub payload_strings-is_clean : (v : Value) → IsJson v → all_of is_clean (payload_strings v) ≡ true
unfolding payload_strings
payload_strings-is_clean (string_list l) j = absurd j
payload_strings-is_clean (any_list l) j = list_strings-is_clean l
payload_strings-is_clean (string s) j = ground (arith, clean_trimmed s)
payload_strings-is_clean v j = refl

module _ (uuid : UuidCodec) (id : Uuid) where
  abbrev gives : Result Uuid → Bool
  gives (ok j) = j == id
  gives (err e) = false

  -- The text parses to the id.
  abbrev pub names : Text → Bool
  names s = gives (uuid.parse s)

  contains-append :
      (xs : List Uuid) (j : Uuid) → contains (xs ++ j ∷ []) id ≡ (contains xs id || j == id)
  contains-append [] j = ground arith
  contains-append (x ∷ xs) j = ground (arith, contains-append xs j)

  contains-add_parsed :
      (x : Result Uuid) (out : List Uuid)
      → contains (add_parsed uuid x out) id ≡ (contains out id || gives x)
  contains-add_parsed (err e) out = ground arith
  contains-add_parsed (ok j) out = ground (arith, contains-append out j)

  contains-collect_ids :
      (l : List Text) (out : List Uuid)
      → contains (collect_ids uuid l out) id ≡ (contains out id || any_of names l)
  unfolding collect_ids
  contains-collect_ids [] out = ground arith
  contains-collect_ids (s ∷ rest) out = ground (
    arith,
    contains-collect_ids rest (add_parsed uuid (uuid.parse s) out),
    contains-add_parsed (uuid.parse s) out,
  )

  abbrev pub times : List Uuid → ℕ
  times l = count_by (λ j. j == id) l

  times-append :
      (xs : List Uuid) (j : Uuid) → times (xs ++ j ∷ []) ≡ times xs + (if j == id then 1 else 0)
  times-append [] j = omega arith
  times-append (x ∷ xs) j = omega (arith, times-append xs j)

  times_absent : (l : List Uuid) → contains l id ≡ false → times l ≡ 0
  times_absent [] h = refl
  times_absent (x ∷ xs) h = ground (arith, times_absent xs)

  times-add_parsed :
      (x : Result Uuid) (out : List Uuid) → times out ≤ 1 → times (add_parsed uuid x out) ≤ 1
  times-add_parsed (err e) out h = h
  times-add_parsed (ok j) out h = ground (arith, times-append out j, times_absent out)

  times-collect_ids :
      (l : List Text) (out : List Uuid) → times out ≤ 1 → times (collect_ids uuid l out) ≤ 1
  unfolding collect_ids
  times-collect_ids [] out h = h
  times-collect_ids (s ∷ rest) out h =
      times-collect_ids rest (add_parsed uuid (uuid.parse s) out)
        (times-add_parsed (uuid.parse s) out h)

  -- PayloadOutletIDs lists an id exactly when a text under outlet_ids or outlet_id parses to it, and
  -- lists it once.
  pub payload_outlet_ids_exact :
      (payload : Dict)
      → (contains (payload_outlet_ids uuid payload) id
          ≡ any_of names (
              payload_strings (lookup payload (codes "outlet_ids"))
              ++ payload_strings (lookup payload (codes "outlet_id"))))
        × (times (payload_outlet_ids uuid payload) ≤ 1)
  unfolding payload_outlet_ids
  payload_outlet_ids_exact payload =
      let l =
        payload_strings (lookup payload (codes "outlet_ids"))
        ++ payload_strings (lookup payload (codes "outlet_id")) in
      (contains-collect_ids l [], times-collect_ids l [] (omega arith))
