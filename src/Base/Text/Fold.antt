-- ===== src/Base/Text/Fold.antt =====
-- Keys that ignore case and surrounding white space: `strings.ToUpper(strings.TrimSpace(s))`
-- and `strings.ToLower(strings.TrimSpace(s))`.
use Prim.Native.Nat.{ℕ}
use mathlib.Core.Path.{◌≡◌, refl, ap, ◌∙◌}
use mathlib.Core.Bool.{true}
use mathlib.Core.List.{[], ◌∷◌, ◌++◌, map}
use mathlib.Core.Logic.{inl, inr}
use native.Mathlib.Omega.{arith}
use code_iq.Base.Tests.{Bool-cases}
use code_iq.Base.Lists.{All}
use code_iq.Base.Text.{
  Text, lower, upper, to_lower, to_upper, is_space, trim_left, trim_right, trim_space,
}

unfoldable pub upper_key : Text → Text
upper_key s = to_upper (trim_space s)

unfoldable pub lower_key : Text → Text
lower_key s = to_lower (trim_space s)

abbrev pub AllSpace : Text → Type 0
AllSpace = All (λ c. is_space c ≡ true)

-- A case mapping keeps white space what it is.
module _ (f : ℕ → ℕ) (keeps : (c : ℕ) → is_space (f c) ≡ is_space c) where
  trim_left-map : (s : Text) → trim_left (map f s) ≡ map f (trim_left s)
  unfolding trim_left
  trim_left-map [] = refl
  trim_left-map (c ∷ s) = ground (arith, keeps c, trim_left-map s)

  trim_right-map : (s : Text) → trim_right (map f s) ≡ map f (trim_right s)
  unfolding trim_right
  trim_right-map [] = refl
  trim_right-map (c ∷ s) = ground (arith, keeps c, trim_right-map s)

  trim_space-map : (s : Text) → trim_space (map f s) ≡ map f (trim_space s)
  unfolding trim_space
  trim_space-map s = rw (trim_left-map s) (trim_right-map (trim_left s))

trim_right_space : (s : Text) → AllSpace s → trim_right s ≡ []
unfolding trim_right
trim_right_space [] h = refl
trim_right_space (c ∷ s) h = ground (arith, h.0, trim_right_space s h.1)

trim_right-append : (s t : Text) → AllSpace t → trim_right (s ++ t) ≡ trim_right s
unfolding trim_right
trim_right-append [] t h = trim_right_space t h
trim_right-append (c ∷ s) t h = ground (arith, trim_right-append s t h)

trim_left_space : (s : Text) → AllSpace s → trim_left s ≡ []
unfolding trim_left
trim_left_space [] h = refl
trim_left_space (c ∷ s) h = ground (arith, h.0, trim_left_space s h.1)

trim_left-append : (s t : Text) → AllSpace s → trim_left (s ++ t) ≡ trim_left t
unfolding trim_left
trim_left-append [] t h = refl
trim_left-append (c ∷ s) t h = ground (arith, h.0, trim_left-append s t h.1)

trim_space-append : (s t : Text) → AllSpace t → trim_space (s ++ t) ≡ trim_space s
unfolding trim_space trim_left
trim_space-append [] t h = ap trim_right (trim_left_space t h)
trim_space-append (c ∷ s) t h = elim (Bool-cases (is_space c)) [
  | inl space ↦ rw space (trim_space-append s t h)
  | inr other ↦ rw other (trim_right-append (c ∷ s) t h)
]

-- White space on both sides does not show.
pub trim_space-pad :
    (p s q : Text) → AllSpace p → AllSpace q → trim_space (p ++ (s ++ q)) ≡ trim_space s
unfolding trim_space
trim_space-pad p s q hp hq =
    ap trim_right (trim_left-append p (s ++ q) hp) ∙ trim_space-append s q hq

is_space-lower : (c : ℕ) → is_space (lower c) ≡ is_space c
unfolding is_space lower
is_space-lower c = ground arith

is_space-upper : (c : ℕ) → is_space (upper c) ≡ is_space c
unfolding is_space upper
is_space-upper c = ground arith

upper-lower : (c : ℕ) → upper (lower c) ≡ upper c
unfolding lower upper
upper-lower c = ground arith

lower-upper : (c : ℕ) → lower (upper c) ≡ lower c
unfolding lower upper
lower-upper c = ground arith

map-map : (f g : ℕ → ℕ) → ((c : ℕ) → f (g c) ≡ f c) → (s : Text) → map f (map g s) ≡ map f s
map-map f g h [] = refl
map-map f g h (c ∷ s) = ground (arith, h c, map-map f g h s)

-- Neither case nor surrounding white space shows in the key.
pub upper_key-pad :
    (p s q : Text) → AllSpace p → AllSpace q → upper_key (p ++ (to_lower s ++ q)) ≡ upper_key s
unfolding upper_key to_upper to_lower
upper_key-pad p s q hp hq =
    rw (trim_space-pad p (map lower s) q hp hq, trim_space-map lower is_space-lower s)
      (map-map upper lower upper-lower (trim_space s))

pub lower_key-pad :
    (p s q : Text) → AllSpace p → AllSpace q → lower_key (p ++ (to_upper s ++ q)) ≡ lower_key s
unfolding lower_key to_upper to_lower
lower_key-pad p s q hp hq =
    rw (trim_space-pad p (map upper s) q hp hq, trim_space-map upper is_space-upper s)
      (map-map lower upper lower-upper (trim_space s))
