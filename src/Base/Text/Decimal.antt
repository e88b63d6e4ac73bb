-- ===== src/Base/Text/Decimal.antt =====
-- `%d`: a count in decimal digits.
use Prim.Native.Nat.{ℕ, zero, suc}
use mathlib.Core.Bool.{Bool, true, false}
use mathlib.Core.List.{[], ◌∷◌}
use code_iq.Base.Tests.{◌==◌, nat_eq, if◌then◌else◌}
use code_iq.Base.Text.{Text, lit}

-- Decimal digits counted up by one, and whether a carry is left over.
unfoldable pub count_up : Text → Text × Bool
count_up [] = ([], true)
count_up (c ∷ s) =
    let (t, carry) = count_up s in
    if carry then (if c == b'9' then (b'0' ∷ t, true) else (suc c ∷ t, false)) else (c ∷ t, false)

unfoldable pub show : ℕ → Text
unfolding count_up
show zero = lit "0"
show (suc n) = let (t, carry) = count_up (show n) in if carry then b'1' ∷ t else t
