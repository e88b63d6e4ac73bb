-- ===== src/Limits.antt =====
-- internal/mcp/limits.go: the clamps of what a caller asks for. Go's `int` has 64 bits; nothing
-- is computed here but comparisons, so any integer stands for itself.
pub mod Laws
use code_iq.Base.{ℕ, Bool, true, false, not, ltb, if◌then◌else◌}

pub data ℤ : Type 0 where
  pos : ℕ → ℤ
  negsuc : ℕ → ℤ

-- `a < b`.
unfoldable pub less : ℤ → ℤ → Bool
less (pos a) (pos b) = ltb a b
less (pos a) (negsuc b) = false
less (negsuc a) (pos b) = true
less (negsuc a) (negsuc b) = ltb b a

abbrev pub default_max_results : ℤ
default_max_results = pos 500

abbrev pub default_max_depth : ℤ
default_max_depth = pos 10

unfoldable pub cap_results : ℤ → ℤ → ℤ
unfolding less
cap_results requested hard_cap =
    let hard = if not (less (pos 0) hard_cap) then default_max_results else hard_cap in
    if less requested (pos 1) then pos 1 else if less hard requested then hard else requested

unfoldable pub cap_depth : ℤ → ℤ → ℤ
unfolding less
cap_depth requested hard_cap =
    let hard = if not (less (pos 0) hard_cap) then default_max_depth else hard_cap in
    if less requested (pos 1) then pos 1 else if less hard requested then hard else requested
