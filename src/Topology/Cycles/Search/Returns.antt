-- ===== src/Topology/Cycles/Search/Returns.antt =====
-- `dfsFindCycles` returns, whatever state it is called in.
use code_iq.Base.{
  ℕ, zero, suc, ◌<◌, ◌≡◌, refl, sym, ap, subst, ◌∙◌, inl, inr, true, ◌||◌, Option, some, List, [],
  ◌∷◌, ◌++◌, contains, arith, Bool-cases,
}
use code_iq.Base.Text.{Text, text_eq, text_beq_iff}
use code_iq.Topology.Cycles.{
  TargetSets, children, Visit, from_first, normalize_cycle, add_cycle, report, enter, leave,
  dfs_find_cycles,
}
use code_iq.Topology.Cycles.Each.{each-Leads}
use code_iq.Topology.Cycles.Search.{edge}
use code_iq.Topology.Cycles.Search.Room.{room, room_lt, keep-entered}

add_cycle-in_stack : (cycle : List Text) (s : Visit) → (add_cycle cycle s).in_stack ≡ s.in_stack
unfolding add_cycle
add_cycle-in_stack cycle s = ground arith

-- What `report` makes of the part of the stack that a service closes.
abbrev recorded : Text → Visit → List Text → Visit
recorded node s [] = s
recorded node s (t ∷ ts) = add_cycle (normalize_cycle ((t ∷ ts) ++ node ∷ [])) s

recorded-in_stack :
    (node : Text) (s : Visit) (l : List Text) → (recorded node s l).in_stack ≡ s.in_stack
recorded-in_stack node s [] = refl
recorded-in_stack node s (t ∷ ts) = add_cycle-in_stack (normalize_cycle ((t ∷ ts) ++ node ∷ [])) s

report-in_stack :
    (stack : List Text) (node : Text) (s : Visit) → (report stack node s).in_stack ≡ s.in_stack
unfolding report
report-in_stack stack node s = recorded-in_stack node s (from_first node stack)

-- What a call on a service returns: the services on the stack are as they were, and the service was
-- on it or is done.
abbrev pub Returns : Text → Visit → Option Visit → Type 0
Returns node s r =
    (t : Visit) × (r ≡ some t)
    × (t.in_stack ≡ s.in_stack)
    × ((contains node s.in_stack || contains node t.visited) ≡ true)

module _ (adj : TargetSets) (starts : List Text)
    (reaches : (s t : Text) → edge adj s t ≡ true → contains t starts ≡ true) where
  -- If every target is one of the services, a call on a service returns, on any stack and in any
  -- state, once the fuel is more than the number of services that are not on the state's stack.
  -- That stack is then as before, and the service was on it or is marked as visited.
  pub dfs_find_cycles-Returns :
      (fuel : ℕ) (stack : List Text) (node : Text) (s : Visit)
      → room s.in_stack starts < fuel
      → contains node starts ≡ true
      → Returns node s (dfs_find_cycles adj fuel stack node s)
  unfolding dfs_find_cycles
  dfs_find_cycles-Returns zero stack node s enough known = absurd (omega arith)
  dfs_find_cycles-Returns (suc fuel) stack node s enough known =
      elim (Bool-cases (contains node s.in_stack)) [
        | inl here ↦
            rw (dfs_find_cycles, here)
              (report stack node s, refl, report-in_stack stack node s, refl)
        | inr new ↦ elim (Bool-cases (contains node s.visited)) [
          | inl old ↦ rw (dfs_find_cycles, new, old) (s, refl, refl, old)
          | inr first ↦
              let go = dfs_find_cycles adj fuel (stack ++ node ∷ []) in
              let less = room_lt node s.in_stack starts known new in
              let loop =
                each-Leads (λ (t : Visit). t.in_stack ≡ node ∷ s.in_stack) (λ t u. Unit)
                  (λ c t. Unit) (λ t. tt) (λ t u v a b. tt) (λ c t u a b. tt) go (children adj node)
                  (λ c next t same.
                    let fits : room t.in_stack starts < fuel =
                      subst (λ l. room l starts < fuel) (sym same) (omega (arith, less, enough)) in
                    let (u, returns, kept, done) =
                      dfs_find_cycles-Returns fuel (stack ++ node ∷ []) c t fits
                        (reaches node c next) in
                    record {
                      after = u;
                      returns = returns;
                      keeps = kept ∙ same;
                      grows = tt;
                      post = tt;
                    })
                  (enter node s) refl in
              let back : (leave node loop.after).in_stack ≡ s.in_stack =
                ap (λ l. (leave node (record loop.after { in_stack = l })).in_stack) loop.keeps
                ∙ keep-entered node s.in_stack new in
              rw (dfs_find_cycles, new, first, loop.returns)
                (leave node loop.after, refl, back, ground (arith, text_beq_iff node node))
        ]
      ]
