-- ===== src/Limits/Laws.antt =====
-- The clamped value lies between one and the cap, and a value in that range stays.
use code_iq.Base.{◌≡◌, ◌↔◌, Bool, true, not, ◌&&◌, arith, if◌then◌else◌}
use code_iq.Limits.{
  ℤ, pos, negsuc, less, default_max_results, default_max_depth, cap_results, cap_depth,
}

-- The cap in force: the caller's, or the default where that is not positive.
abbrev pub in_force : ℤ → ℤ → ℤ
in_force default hard_cap = if less (pos 0) hard_cap then hard_cap else default

abbrev pub is_within : ℤ → ℤ → Bool
is_within r cap = not (less r (pos 1)) && not (less cap r)

-- Whatever integers a caller passes, the count lies between one and the cap in force, and it is
-- the count that was asked for exactly when that lies between them already.
pub cap_results-bounds :
    (requested hard_cap : ℤ)
    → (is_within (cap_results requested hard_cap) (in_force default_max_results hard_cap) ≡ true)
      × ((cap_results requested hard_cap ≡ requested)
          ↔ (is_within requested (in_force default_max_results hard_cap) ≡ true))
unfolding cap_results
cap_results-bounds (pos r) (pos c) = ground arith
cap_results-bounds (pos r) (negsuc c) = ground arith
cap_results-bounds (negsuc r) (pos c) = ground arith
cap_results-bounds (negsuc r) (negsuc c) = ground arith

-- The same of the depth of a traversal.
pub cap_depth-bounds :
    (requested hard_cap : ℤ)
    → (is_within (cap_depth requested hard_cap) (in_force default_max_depth hard_cap) ≡ true)
      × ((cap_depth requested hard_cap ≡ requested)
          ↔ (is_within requested (in_force default_max_depth hard_cap) ≡ true))
unfolding cap_depth
cap_depth-bounds (pos r) (pos c) = ground arith
cap_depth-bounds (pos r) (negsuc c) = ground arith
cap_depth-bounds (negsuc r) (pos c) = ground arith
cap_depth-bounds (negsuc r) (negsuc c) = ground arith
