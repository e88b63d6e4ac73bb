-- ===== src/Topology/Cycles/Search/Room.antt =====
-- How many services are not on the stack: the measure of the search.
use code_iq.Base.{
  ℕ, ◌<◌, ◌≤◌, ◌≡◌, refl, true, false, not, List, [], ◌∷◌, ◌==◌, contains, keep, length, arith,
}
use code_iq.Base.Text.{Text, text_eq, text_beq_iff}

abbrev pub room : List Text → List Text → ℕ
room stack starts = length (keep (λ t. not (contains t stack)) starts)

room_le : (node : Text) (stack starts : List Text) → room (node ∷ stack) starts ≤ room stack starts
room_le node stack [] = omega arith
room_le node stack (t ∷ starts) = ground (arith, room_le node stack starts)

pub room_lt :
    (node : Text) (stack starts : List Text)
    → contains node starts ≡ true
    → contains node stack ≡ false
    → room (node ∷ stack) starts < room stack starts
room_lt node stack [] h k = cc
room_lt node stack (t ∷ starts) h k = ground (
  arith,
  text_beq_iff node t,
  text_beq_iff t node,
  room_le node stack starts,
  room_lt node stack starts,
)

pub room-empty : (starts : List Text) → room [] starts ≡ length starts
room-empty [] = refl
room-empty (t ∷ starts) = omega (arith, room-empty starts)

pub keep-absent :
    (node : Text) (l : List Text) → contains node l ≡ false → keep (λ t. not (t == node)) l ≡ l
keep-absent node [] h = refl
keep-absent node (t ∷ l) h =
    ground (arith, text_beq_iff node t, text_beq_iff t node, keep-absent node l)

-- Taking a service off the stack again.
pub keep-entered :
    (node : Text) (l : List Text)
    → contains node l ≡ false
    → keep (λ t. not (t == node)) (node ∷ l) ≡ l
keep-entered node l h = ground (arith, text_beq_iff node node, keep-absent node l)
