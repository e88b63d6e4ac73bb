-- ===== src/Base/Sort/With/Unique.antt =====
-- Under a strict total order a list has one sorted order, whatever the order it comes in.
use mathlib.Core.Path.{◌≡◌, sym, ap₂}
use mathlib.Core.Bool.{Bool, true, false}
use mathlib.Core.Logic.Or
use mathlib.Core.List.{List, [], ◌∷◌, Perm, Pairwise, mem-cons_self, eq-or-mem_of_mem-cons}
use mathlib.Core.List.Pairwise
use mathlib.Core.List.Perm
use code_iq.Base.Sort.With.{sort_with, IsOrdered, sort_with-perm, sort_with-IsOrdered}

module _ {A : Type 0} (less : A → A → Bool) (set : IsSet A)
    (asym : (a b : A) → less a b ≡ true → less b a ≡ false)
    (trans : (a b c : A) → less b a ≡ false → less c b ≡ false → less c a ≡ false)
    (total : (a b : A) → less a b ≡ false → less b a ≡ false → a ≡ b) where
  heads_eq :
      (a b : A) (l r : List A)
      → IsOrdered less (a ∷ l)
      → IsOrdered less (b ∷ r)
      → Perm (a ∷ l) (b ∷ r)
      → a ≡ b
  heads_eq a b l r (Pairwise.cons ha sa) (Pairwise.cons hb sb) p =
      Or.elim (set a b) (eq-or-mem_of_mem-cons ((Perm.mem_iff p).0 mem-cons_self)) (λ e. e)
        λ in_r.
          Or.elim (set a b) (eq-or-mem_of_mem-cons ((Perm.mem_iff p).1 mem-cons_self)) (λ e. sym e)
            (λ in_l. total a b (hb a in_r) (ha b in_l))

  IsOrdered-unique : {l r : List A} → IsOrdered less l → IsOrdered less r → Perm l r → l ≡ r
  IsOrdered-unique {l = []} _ _ p = Perm.nil-eq p
  IsOrdered-unique {l = a ∷ l} {r = []} _ _ p = Perm.eq-nil p
  IsOrdered-unique {l = a ∷ l} {r = b ∷ r} sl sr p =
      let heads = heads_eq a b l r sl sr p in
      let tails = Perm.cons_inv (Perm.trans p (Perm.symm (Perm.cons' heads Perm.rfl))) in
      ap₂ ◌∷◌ heads (IsOrdered-unique {l = l} (Pairwise.of_cons sl) (Pairwise.of_cons sr) tails)

  pub sort_with-perm_eq : {l r : List A} → Perm l r → sort_with less l ≡ sort_with less r
  sort_with-perm_eq {l} {r} p =
      IsOrdered-unique (sort_with-IsOrdered less asym trans l)
        (sort_with-IsOrdered less asym trans r)
        (Perm.trans (sort_with-perm less l) (Perm.trans p (Perm.symm (sort_with-perm less r))))
