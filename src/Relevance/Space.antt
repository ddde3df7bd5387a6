-- ===== src/Relevance/Space.antt =====
-- `strings.TrimSpace`.
use shared_events.Prelude.{
  ℕ-Eq, Bool, Text, [], ap, arith, false, if◌then◌else◌, leb, not, refl, true, ℕ, ◌&&◌, ◌==◌, ◌||◌,
  ◌∙◌, ◌∷◌, ◌≡◌,
}

-- `unicode.IsSpace`.
unfoldable pub is_space : ℕ → Bool
is_space c =
    (leb 9 c && leb c 13)
    || c == 0x20
    || c == 0x85
    || c == 0xa0
    || c == 0x1680
    || (leb 0x2000 c && leb c 0x200a)
    || c == 0x2028
    || c == 0x2029
    || c == 0x202f
    || c == 0x205f
    || c == 0x3000

unfoldable pub trim_left : Text → Text
trim_left [] = []
trim_left (c ∷ s) = let rest = trim_left s in if is_space c then rest else c ∷ s

abbrev drop_space : ℕ → Text → Text
drop_space c [] = if is_space c then [] else c ∷ []
drop_space c (d ∷ s) = c ∷ d ∷ s

unfoldable pub trim_right : Text → Text
trim_right [] = []
trim_right (c ∷ s) = drop_space c (trim_right s)

unfoldable pub trim_space : Text → Text
trim_space s = trim_right (trim_left s)

drop_space_idem :
    (c : ℕ) (x : Text) → trim_right x ≡ x → trim_right (drop_space c x) ≡ drop_space c x
unfolding trim_right
drop_space_idem c [] h = ground arith
drop_space_idem c (d ∷ s) h = rw h

trim_right_idem : (s : Text) → trim_right (trim_right s) ≡ trim_right s
unfolding trim_right
trim_right_idem [] = refl
trim_right_idem (c ∷ s) = drop_space_idem c (trim_right s) (trim_right_idem s)

-- The text does not start with a space.
abbrev is_solid : Text → Bool
is_solid [] = true
is_solid (c ∷ s) = not (is_space c)

trim_left-is_solid : (s : Text) → is_solid (trim_left s) ≡ true
unfolding trim_left
trim_left-is_solid [] = refl
trim_left-is_solid (c ∷ s) = ground (arith, trim_left-is_solid s)

drop_space-is_solid : (c : ℕ) (x : Text) → is_space c ≡ false → is_solid (drop_space c x) ≡ true
drop_space-is_solid c [] h = rw h (rw h)
drop_space-is_solid c (d ∷ s) h = rw h

trim_right-is_solid : (s : Text) → is_solid s ≡ true → is_solid (trim_right s) ≡ true
unfolding trim_right
trim_right-is_solid [] h = refl
trim_right-is_solid (c ∷ s) h = drop_space-is_solid c (trim_right s) (ground arith)

trim_left_of_solid : (s : Text) → is_solid s ≡ true → trim_left s ≡ s
unfolding trim_left
trim_left_of_solid [] h = refl
trim_left_of_solid (c ∷ s) h = ground arith

-- Trimming is done once and for all.
pub trim_space_idem : (s : Text) → trim_space (trim_space s) ≡ trim_space s
unfolding trim_space
trim_space_idem s =
    let solid = trim_right-is_solid (trim_left s) (trim_left-is_solid s) in
    ap trim_right (trim_left_of_solid (trim_right (trim_left s)) solid)
    ∙ trim_right_idem (trim_left s)
