-- ===== src/Linker/Containment/Visited.antt =====
-- The nodes that a module contains, and what holds through a loop.
use mathlib.Core.List.{
  foldl, append_assoc, Mem, mem-cons_self, mem-cons_of_mem, eq-or-mem_of_mem-cons, not-mem-nil,
  mem-map_of_mem,
}
use mathlib.Core.List.Perm
use mathlib.Core.Logic.Or
use mathlib.Core.Bool.{So-prop}
use code_iq.Base.{
  ◌≡◌, refl, sym, ap, subst, ◌∙◌, Bool, true, ◌↔◌, ◌==◌, List, [], ◌∷◌, ◌++◌, map, keep, contains,
}
use code_iq.Base.Text.{Text, text_eq, text_beq_iff}
use code_iq.Base.Assoc.{keys}
use code_iq.Base.Assoc.Distinct.{contains-keys}
use code_iq.Base.Members.{contains_iff_mem}
use code_iq.Base.Sort.{sort_by, sort_by-perm}
use code_iq.Base.Groups.{get, get-group, has-group}
use code_iq.Base.Shuffle.{mem-keep}
use code_iq.Model.Node.{CodeNode}
use code_iq.Linker.Containment.{is_member, by_module}

-- What holds before a loop and what a round keeps holds after it.
pub fold-keeps :
    {S A : Type 0} (step : S → A → S) (I : S → Type 0) (xs : List A)
    → ((s : S) (x : A) → Mem x xs → I s → I (step s x))
    → (s : S) → I s
    → I (foldl step s xs)
fold-keeps step I [] round s h = h
fold-keeps step I (x ∷ xs) round s h =
    fold-keeps step I xs (λ t y m. round t y (mem-cons_of_mem x m)) (step s x)
      (round s x mem-cons_self h)

-- What the round of one element reaches, and every round keeps, holds after the loop.
pub fold-reaches :
    {S A : Type 0} (step : S → A → S) (t : S → Bool) (x : A)
    → ((s : S) (y : A) → t s ≡ true → t (step s y) ≡ true)
    → ((s : S) → t (step s x) ≡ true)
    → (xs : List A) → Mem x xs
    → (s : S) → t (foldl step s xs) ≡ true
fold-reaches step t x keeps does [] m s = absurd (not-mem-nil m)
fold-reaches step t x keeps does (y ∷ xs) m s =
    Or.elim (So-prop _) (eq-or-mem_of_mem-cons m)
      (λ e.
        let first : t (step s y) ≡ true = ap (λ z. t (step s z)) (sym e) ∙ does s in
        fold-keeps step (λ u. t u ≡ true) xs (λ u z m. keeps u z) (step s y) first)
      (λ later. fold-reaches step t x keeps does xs later (step s y))

map-snoc :
    {A B : Type 0} (f : A → B) (xs : List A) (x : A) → map f (xs ++ x ∷ []) ≡ map f xs ++ f x ∷ []
map-snoc f [] x = refl
map-snoc f (y ∷ xs) x = ap (λ l. f y ∷ l) (map-snoc f xs x)

-- A set that is its old members and the keys of a list still is when both get one more.
pub grown :
    {A : Type 0} (f : A → Text) (old set : List Text) (xs : List A) (x : A)
    → set ≡ old ++ map f xs
    → set ++ f x ∷ [] ≡ old ++ map f (xs ++ x ∷ [])
grown f old set xs x h =
    ap (λ l. l ++ f x ∷ []) h
    ∙ (append_assoc old (map f xs) (f x ∷ []) ∙ ap (λ l. old ++ l) (sym (map-snoc f xs x)))

map_same : {A : Type 0} (xs : List A) → map (λ x. x) xs ≡ xs
map_same [] = refl
map_same (x ∷ xs) = ap (λ l. x ∷ l) (map_same xs)

-- The nodes that a module is about to contain, in the order in which the loop visits them.
abbrev pub visited : List CodeNode → Text → List CodeNode
visited nodes name = sort_by (λ k. k.id) (get name (by_module nodes))

get-by_module :
    (nodes : List CodeNode) (name : Text)
    → get name (by_module nodes) ≡ keep (λ k. k.in_module == name) (keep is_member nodes)
unfolding by_module
get-by_module nodes name =
    get-group (λ k. k.in_module) (λ k. k) name (keep is_member nodes) ∙ map_same _

pub mem-visited :
    (nodes : List CodeNode) (name : Text) (n : CodeNode)
    → Mem n (visited nodes name) ↔ (Mem n nodes × (is_member n ≡ true) × (n.in_module ≡ name))
mem-visited nodes name n =
    let sorted = Perm.mem_iff (sort_by-perm (λ k. k.id) (get name (by_module nodes))) in
    let same = get-by_module nodes name in
    let named = mem-keep (λ (k : CodeNode). k.in_module == name) n (keep is_member nodes) in
    let listed = mem-keep is_member n nodes in
    let beq = text_beq_iff n.in_module name in
    (
      λ m.
          let (inner, name_eq) = named.0 (subst (Mem n) same (sorted.0 m)) in
          let (inside, member) = listed.0 inner in (inside, member, beq.0 name_eq),
      λ (inside, member, name_eq).
          sorted.1 (subst (Mem n) (sym same) (named.1 (listed.1 (inside, member), beq.1 name_eq))),
    )

pub mem-names :
    (nodes : List CodeNode) (n : CodeNode)
    → Mem n nodes
    → is_member n ≡ true
    → Mem n.in_module (sort_by (λ name. name) (keys (by_module nodes)))
unfolding by_module
mem-names nodes n m member =
    let names = keys (by_module nodes) in
    let inner = (mem-keep is_member n nodes).1 (m, member) in
    let known : contains n.in_module names ≡ true =
      contains-keys n.in_module (by_module nodes)
      ∙ (has-group (λ k. k.in_module) (λ k. k) n.in_module (keep is_member nodes)
          ∙ (contains_iff_mem n.in_module
                (map (λ (k : CodeNode). k.in_module) (keep is_member nodes))).1
              (mem-map_of_mem (λ (k : CodeNode). k.in_module) inner)) in
    (Perm.mem_iff (sort_by-perm (λ name. name) names)).1
      ((contains_iff_mem n.in_module names).0 known)
