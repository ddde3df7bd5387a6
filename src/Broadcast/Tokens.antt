-- ===== src/Broadcast/Tokens.antt =====
-- What a text is after its way through a subject.
use shared_events.Prelude.{
  ℕ-Eq, Text-Eq, Bool, Text, [], all_of, arith, not, refl, text_eq_iff, true, ◌++◌, ◌==◌, ◌↔◌, ◌∷◌,
  ◌≡◌, ◌≢◌,
}
use shared_events.Broadcast.{
  is_special, subject_token, to_token, from_token, split_dots, empty_token,
}

-- No rune of the text is special.
abbrev pub is_clean : Text → Bool
is_clean s = all_of (λ c. not (is_special c)) s

subject_token_clean : (s : Text) → is_clean s ≡ true → subject_token s ≡ s
unfolding subject_token
subject_token_clean [] h = refl
subject_token_clean (c ∷ s) h = ground (arith, subject_token_clean s)

clean_of_subject_token : (s : Text) → subject_token s ≡ s → is_clean s ≡ true
unfolding subject_token
clean_of_subject_token [] h = refl
clean_of_subject_token (c ∷ s) h = ground (arith, clean_of_subject_token s)

-- No dot stands in the text.
abbrev pub no_dot : Text → Bool
no_dot s = all_of (λ c. not (c == b'.')) s

pub no_dot-subject_token : (s : Text) → no_dot (subject_token s) ≡ true
unfolding subject_token
no_dot-subject_token [] = refl
no_dot-subject_token (c ∷ s) = ground (arith, no_dot-subject_token s)

pub no_dot-to_token : (s : Text) → no_dot (to_token s) ≡ true
unfolding to_token
no_dot-to_token s = ground (arith, no_dot-subject_token s)

pub split_dots-last : (s : Text) → no_dot s ≡ true → split_dots s ≡ s ∷ []
unfolding split_dots
split_dots-last [] h = refl
split_dots-last (c ∷ s) h = ground (arith, split_dots-last s)

pub split_dots-append :
    (s rest : Text) → no_dot s ≡ true → split_dots (s ++ b'.' ∷ rest) ≡ s ∷ split_dots rest
unfolding split_dots
split_dots-append [] rest h = refl
split_dots-append (c ∷ s) rest h = ground (arith, split_dots-append s rest)

token→ : (s : Text) → from_token (to_token s) ≡ s → (is_clean s ≡ true) × (s ≢ empty_token)
unfolding from_token to_token
token→ [] h = (refl, λ e. cc)
token→ (c ∷ s) h =
    ground (arith, text_eq_iff (subject_token (c ∷ s)) empty_token, clean_of_subject_token (c ∷ s))

pub token← : (s : Text) → is_clean s ≡ true → s ≢ empty_token → from_token (to_token s) ≡ s
unfolding from_token to_token
token← [] h n = refl
token← (c ∷ s) h n = ground (arith, text_eq_iff (c ∷ s) empty_token, subject_token_clean (c ∷ s) h)

-- A tenant or scope comes back from the subject as it was exactly when it has no special rune and is
-- not the lone underscore that stands for the empty text.
pub from_token-to_token :
    (s : Text) → (from_token (to_token s) ≡ s) ↔ ((is_clean s ≡ true) × (s ≢ empty_token))
from_token-to_token s = (token→ s, λ h. token← s h.0 h.1)
