-- ===== src/TenantPurge/Sql.antt =====
-- The text of the statements, and the errors of the database.
use shared_events.Prelude.{
  Text-Eq, Bool, Option, Text, [], ap, arith, codes, false, has_text, if◌then◌else◌, nat_eq, none,
  refl, some, text_eq, true, ℕ, ◌++◌, ◌||◌, ◌∷◌, ◌≡◌,
}

-- `sql_state` is `none` for an error without one.
pub record DbError : Type 0 where
  pub sql_state : Option Text
  pub message : Text

abbrev violates : Option Text → Text → Bool
violates (some code) message = text_eq code (codes "23503")
violates none message =
    has_text message (codes "23503") || has_text message (codes "violates foreign key")

unfoldable pub is_foreign_key_violation : DbError → Bool
is_foreign_key_violation e = violates e.sql_state e.message

-- `strings.ReplaceAll`: every quote twice.
unfoldable pub doubled : Text → Text
doubled [] = []
doubled (c ∷ s) = let rest = doubled s in if nat_eq c b'"' then b'"' ∷ b'"' ∷ rest else c ∷ rest

unfoldable pub quote_ident : Text → Text
unfolding doubled
quote_ident s = b'"' ∷ doubled s ++ b'"' ∷ []

abbrev pub cond : Bool → Text
cond true = codes "tenant_id = $1::uuid"
cond false = codes "tenant_id::text = $1"

unfoldable pub delete_by_tenant : Text → Bool → Text
delete_by_tenant table is_uuid =
    codes "DELETE FROM " ++ quote_ident table ++ codes " WHERE " ++ cond is_uuid

unfoldable pub delete_by_id : Text → Text
delete_by_id table = codes "DELETE FROM " ++ quote_ident table ++ codes " WHERE id::text = $1"

-- How SQL reads a quoted name: up to the first quote that stands alone. The name and what follows.
abbrev pub more : ℕ → Option (Text × Text) → Option (Text × Text)
more c none = none
more c (some (name, rest)) = some (c ∷ name, rest)

pub unquoted : Text → Option (Text × Text)
unquoted [] = none
unquoted (c ∷ []) = if nat_eq c b'"' then some ([], []) else none
unquoted (c ∷ d ∷ s) =
    let after_pair = more b'"' (unquoted s) in
    let after_one = more c (unquoted (d ∷ s)) in
    if nat_eq c b'"' then (if nat_eq d b'"' then after_pair else some ([], d ∷ s)) else after_one

abbrev pub read_ident : Text → Option (Text × Text)
read_ident [] = none
read_ident (c ∷ s) = if nat_eq c b'"' then unquoted s else none

unquoted-other : (d : ℕ) (s : Text) → nat_eq d b'"' ≡ false → unquoted (d ∷ s) ≡ more d (unquoted s)
unfolding unquoted
unquoted-other d [] h = ground arith
unquoted-other d (e ∷ s) h = ground arith

append_assoc : (xs ys zs : Text) → (xs ++ ys) ++ zs ≡ xs ++ (ys ++ zs)
append_assoc [] ys zs = refl
append_assoc (x ∷ xs) ys zs = ap (λ l. x ∷ l) (append_assoc xs ys zs)

unquoted-doubled :
    (name : Text) (c : ℕ) (rest : Text)
    → nat_eq c b'"' ≡ false
    → unquoted (doubled name ++ b'"' ∷ c ∷ rest) ≡ some (name, c ∷ rest)
unfolding unquoted doubled
unquoted-doubled [] c rest h = ground arith
unquoted-doubled (d ∷ name) c rest h =
    ground
      (arith, unquoted-doubled name c rest h, unquoted-other d (doubled name ++ b'"' ∷ c ∷ rest))

-- Whatever the name of a table holds, SQL reads the quoted name back as exactly that name and goes
-- on with the rest of the statement: a name cannot end its quotes.
pub read_ident-quote_ident :
    (name : Text) (c : ℕ) (rest : Text)
    → nat_eq c b'"' ≡ false
    → read_ident (quote_ident name ++ c ∷ rest) ≡ some (name, c ∷ rest)
unfolding quote_ident
read_ident-quote_ident name c rest h =
    rw (append_assoc (doubled name) (b'"' ∷ []) (c ∷ rest)) (unquoted-doubled name c rest h)
