-- ===== src/Analyzer/Merge/Annotations.antt =====
-- `unionSorted`: the annotations of both sides, ascending and without repetition.
use mathlib.Core.List.{Nodup, Nodup-nil, Nodup-cons, Perm}
use mathlib.Core.List.Perm
use code_iq.Base.{
  ◌≡◌, refl, sym, ◌∙◌, inl, inr, Bool, ◌||◌, List, [], ◌∷◌, ◌++◌, contains, contains-append, arith,
  Bool-cases,
}
use code_iq.Base.Text.{Text, text_eq, text_beq_iff}
use code_iq.Base.Members.{contains-perm, not_mem_of_contains, perm_of_contains}
use code_iq.Base.Sort.{IsSorted, sort_by-perm, sort_by-IsSorted, sort_by-perm_eq}
use code_iq.Analyzer.Merge.{dedupe, union_sorted}

contains-dedupe : (s : Text) (l : List Text) → contains s (dedupe l) ≡ contains s l
unfolding dedupe
contains-dedupe s [] = refl
contains-dedupe s (x ∷ l) = ground (arith, text_beq_iff s x, contains-dedupe s l)

dedupe-Nodup : (l : List Text) → Nodup (dedupe l)
unfolding dedupe
dedupe-Nodup [] = Nodup-nil
dedupe-Nodup (x ∷ l) = elim (Bool-cases (contains x l)) [
  | inl old ↦ rw old (dedupe-Nodup l)
  | inr new ↦
      rw new (
        Nodup-cons.1 (not_mem_of_contains x (dedupe l) (contains-dedupe x l ∙ new), dedupe-Nodup l))
]

pub contains-union_sorted :
    (s : Text) (a b : List Text) → contains s (union_sorted a b) ≡ (contains s a || contains s b)
unfolding union_sorted
contains-union_sorted s a b =
    contains-perm s (sort_by-perm (λ t. t) (dedupe (a ++ b)))
    ∙ (contains-dedupe s (a ++ b) ∙ contains-append s a b)

Text-set : IsSet Text
Text-set = hlevel

pub or_comm : (a b : Bool) → (a || b) ≡ (b || a)
or_comm a b = ground arith

dedupe_append_comm : (a b : List Text) → Perm (dedupe (a ++ b)) (dedupe (b ++ a))
dedupe_append_comm a b = perm_of_contains (dedupe-Nodup (a ++ b)) (dedupe-Nodup (b ++ a)) λ s.
    (contains-dedupe s (a ++ b) ∙ contains-append s a b)
    ∙ (or_comm (contains s a) (contains s b)
        ∙ sym (contains-dedupe s (b ++ a) ∙ contains-append s b a))

-- The union is ascending and without repetition, holds exactly the annotations of both sides,
-- and is one list whichever side comes first.
pub union_sorted_lem :
    (a b : List Text)
    → IsSorted (λ s. s) (union_sorted a b)
      × Nodup (union_sorted a b)
      × ((s : Text) → contains s (union_sorted a b) ≡ (contains s a || contains s b))
      × (union_sorted a b ≡ union_sorted b a)
unfolding union_sorted
union_sorted_lem a b = (
  sort_by-IsSorted (λ s. s) (dedupe (a ++ b)),
  Perm.nodup (Perm.symm (sort_by-perm (λ s. s) (dedupe (a ++ b)))) (dedupe-Nodup (a ++ b)),
  λ s. contains-union_sorted s a b,
  sort_by-perm_eq (λ s. s) Text-set (dedupe-Nodup (a ++ b)) (dedupe_append_comm a b),
)
