-- ===== src/Topology/Cycles/Search/Report.antt =====
-- A back edge: the cycle that is recorded.
use mathlib.Core.List.{Nodup, append_assoc}
use code_iq.Base.{
  ◌≡◌, refl, sym, ap, subst, ◌∙◌, inl, inr, true, List, [], ◌∷◌, ◌++◌, ◌==◌, map, contains,
  All-append, arith, Bool-cases,
}
use code_iq.Base.Text.{Text, text_eq, text_beq_iff}
use code_iq.Base.Members.{Nodup-append_new, Nodup-suffix}
use code_iq.Topology.Cycles.{
  TargetSets, Visit, cycle_key, from_first, add_cycle, report, normalize_cycle,
}
use code_iq.Topology.Cycles.Walks.{IsWalk, IsWalk-suffix, IsCycle}
use code_iq.Topology.Cycles.Rotate.{normalize_cycle-IsCycle}
use code_iq.Topology.Cycles.Search.{edge, Inv, Grows}

append_cons-nonempty : {A : Type 0} (l : List A) (a : A) → ¬ (l ++ a ∷ [] ≡ [])
append_cons-nonempty [] a e = cc
append_cons-nonempty (b ∷ l) a e = cc

map-append_one :
    {A B : Type 0} (f : A → B) (l : List A) (a : A) → map f (l ++ a ∷ []) ≡ map f l ++ f a ∷ []
map-append_one f [] a = refl
map-append_one f (b ∷ l) a = ap (λ r. f b ∷ r) (map-append_one f l a)

-- The stack, cut at the first occurrence of a service.
record Cut (node : Text) (stack : List Text) : Type 0 where
  front : List Text
  rest : List Text
  shape : stack ≡ front ++ node ∷ rest
  from : from_first node stack ≡ node ∷ rest

from_first-Cut : (node : Text) (stack : List Text) → contains node stack ≡ true → Cut node stack
from_first-Cut node [] h = cc
from_first-Cut node (t ∷ ts) h = elim (Bool-cases (t == node)) [
  | inl here ↦
      let same : t ≡ node = (text_beq_iff t node).0 here in
      record {
        front = [];
        rest = ts;
        shape = ap (λ u. u ∷ ts) same;
        from = rw here (ap (λ u. u ∷ ts) same);
      }
  | inr other ↦
      let cut = from_first-Cut node ts (ground (arith, text_beq_iff node t, text_beq_iff t node)) in
      record {
        front = t ∷ cut.front;
        rest = cut.rest;
        shape = ap (λ l. t ∷ l) cut.shape;
        from = rw other cut.from;
      }
]

module _ (adj : TargetSets) (stack : List Text) where
  -- The outcome of a call that records a cycle or finds it recorded.
  pub record Reported (s t : Visit) : Type 0 where
    pub keeps : Inv adj stack t
    pub grows : Grows s t
    pub found : ¬ (t.cycles ≡ [])

  add_cycle-Reported :
      (c : List Text) (s : Visit)
      → IsCycle (edge adj) c
      → Inv adj stack s
      → Reported s (add_cycle c s)
  unfolding add_cycle
  add_cycle-Reported c s cyc h = elim (Bool-cases (contains (cycle_key c) s.seen)) [
    | inl old ↦
        rw (add_cycle, old)
          (record {
            keeps = h;
            grows = record { same_stack = refl; more_visited = λ d v. v; more_cycles = λ e. e };
            found = λ e. cc (
                subst (λ l. contains (cycle_key c) (map cycle_key l) ≡ true) e
                  (subst (λ l. contains (cycle_key c) l ≡ true) h.keyed old));
          })
    | inr new ↦
        let absurd_empty : ¬ (s.cycles ++ c ∷ [] ≡ []) = append_cons-nonempty s.cycles c in
        rw (add_cycle, new)
          (record {
            keeps = record {
              agrees = h.agrees;
              simple = h.simple;
              cyclic = All-append (IsCycle (edge adj)) s.cycles (c ∷ []) h.cyclic (cyc, tt);
              keyed =
                  ap (λ l. l ++ cycle_key c ∷ []) h.keyed
                  ∙ sym (map-append_one cycle_key s.cycles c);
              once = Nodup-append_new (cycle_key c) s.seen h.once new;
              finished = λ e. absurd (absurd_empty e);
            };
            grows = record {
              same_stack = refl;
              more_visited = λ d v. v;
              more_cycles = λ e. absurd (absurd_empty e);
            };
            found = absurd_empty;
          })
  ]

  pub report-Reported :
      (node : Text) (s : Visit)
      → contains node s.in_stack ≡ true
      → IsWalk (edge adj) (stack ++ node ∷ [])
      → Inv adj stack s
      → Reported s (report stack node s)
  unfolding report
  report-Reported node s inside walk h =
      let cut = from_first-Cut node stack (h.agrees node ∙ inside) in
      let ring : IsWalk (edge adj) ((node ∷ cut.rest) ++ node ∷ []) =
        IsWalk-suffix (edge adj) cut.front ((node ∷ cut.rest) ++ node ∷ []) (
          subst (IsWalk (edge adj))
            (ap (λ l. l ++ node ∷ []) cut.shape
              ∙ append_assoc cut.front (node ∷ cut.rest) (node ∷ []))
            walk) in
      let simple : Nodup (node ∷ cut.rest) =
        Nodup-suffix cut.front (node ∷ cut.rest) (subst Nodup cut.shape h.simple) in
      rw (report, cut.from)
        (add_cycle-Reported (normalize_cycle ((node ∷ cut.rest) ++ node ∷ [])) s
          (normalize_cycle-IsCycle (edge adj) node cut.rest ring simple) h)
