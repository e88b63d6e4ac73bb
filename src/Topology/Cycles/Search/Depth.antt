-- ===== src/Topology/Cycles/Search/Depth.antt =====
-- `dfsFindCycles` returns, and what it leaves behind.
use mathlib.Core.List.{append_assoc}
use code_iq.Base.{
  ℕ, zero, suc, ◌<◌, ◌≡◌, refl, sym, ap, subst, ◌∙◌, inl, inr, true, false, some, List, [], ◌∷◌,
  ◌++◌, ◌==◌, contains, contains-append, keep, not, arith, Bool-cases,
}
use code_iq.Base.Text.{Text, text_eq, text_beq_iff}
use code_iq.Base.Members.{Nodup-append_new}
use code_iq.Topology.Cycles.{TargetSets, children, Visit, dfs_find_cycles, report, enter, leave}
use code_iq.Topology.Cycles.Walks.{IsWalk, IsWalk-glue}
use code_iq.Topology.Cycles.Each.{Leads, each-Leads}
use code_iq.Topology.Cycles.Search.{edge, Inv, Grows, IsDone}
use code_iq.Topology.Cycles.Search.Room.{room, room_lt, keep-entered}
use code_iq.Topology.Cycles.Search.Report.{report-Reported}

pub Grows-refl : (s : Visit) → Grows s s
Grows-refl s = record { same_stack = refl; more_visited = λ c v. v; more_cycles = λ e. e }

pub Grows-trans : (s t u : Visit) → Grows s t → Grows t u → Grows s u
Grows-trans s t u g h = record {
  same_stack = h.same_stack ∙ g.same_stack;
  more_visited = λ c v. h.more_visited c (g.more_visited c v);
  more_cycles = λ e. g.more_cycles (h.more_cycles e);
}

pub IsDone-later : (c : Text) (s t : Visit) → Grows s t → IsDone c s → IsDone c t
IsDone-later c s t g d = λ e. g.more_visited c (d (g.more_cycles e))

module _ (adj : TargetSets) (starts : List Text)
    (reaches : (s t : Text) → edge adj s t ≡ true → contains t starts ≡ true) where
  -- The children's loop: the stack has the service on top.
  abbrev InLoop : List Text → Text → Visit → Visit → Type 0
  InLoop stack node s t = Inv adj (stack ++ node ∷ []) t × (t.in_stack ≡ node ∷ s.in_stack)

  InLoop-enter :
      (stack : List Text) (node : Text) (s : Visit)
      → contains node s.in_stack ≡ false
      → Inv adj stack s
      → InLoop stack node s (enter node s)
  InLoop-enter stack node s new h = (
    record {
      agrees = λ t. ground (arith, contains-append t stack (node ∷ []), h.agrees t);
      simple = Nodup-append_new node stack h.simple (h.agrees node ∙ new);
      cyclic = h.cyclic;
      keyed = h.keyed;
      once = h.once;
      finished = h.finished;
    },
    refl,
  )

  leave-Leads :
      (stack : List Text) (node : Text) (s t : Visit)
      → contains node s.in_stack ≡ false
      → Inv adj stack s
      → InLoop stack node s t
      → Grows (enter node s) t
      → ((c : Text) → contains c (children adj node) ≡ true → IsDone c t)
      → Leads (Inv adj stack) Grows (IsDone node) s (some (leave node t))
  leave-Leads stack node s t new h (i, top) g done =
      let back = ap (keep (λ u. not (u == node))) top ∙ keep-entered node s.in_stack new in
      record {
        after = leave node t;
        returns = refl;
        keeps = record {
          agrees = λ u. h.agrees u ∙ ap (contains u) (sym back);
          simple = h.simple;
          cyclic = i.cyclic;
          keyed = i.keyed;
          once = i.once;
          finished = λ e. ((λ v next. done v next e), i.finished e);
        };
        grows = record {
          same_stack = back;
          more_visited = λ c v. ground (arith, g.more_visited c v);
          more_cycles = g.more_cycles;
        };
        post = λ e. ground (arith, text_beq_iff node node);
      }

  -- With more fuel than there are services off the stack, a call from a service returns, where the
  -- stack with the service is a walk and the invariant holds. The invariant still holds, and unless
  -- a cycle has been recorded, the service is done.
  pub dfs_find_cycles-Leads :
      (fuel : ℕ) (stack : List Text) (node : Text) (s : Visit)
      → room s.in_stack starts < fuel
      → contains node starts ≡ true
      → IsWalk (edge adj) (stack ++ node ∷ [])
      → Inv adj stack s
      → Leads (Inv adj stack) Grows (IsDone node) s (dfs_find_cycles adj fuel stack node s)
  unfolding dfs_find_cycles
  dfs_find_cycles-Leads zero stack node s enough known walk h = absurd (omega arith)
  dfs_find_cycles-Leads (suc fuel) stack node s enough known walk h =
      elim (Bool-cases (contains node s.in_stack)) [
        | inl here ↦
            let r = report-Reported adj stack node s here walk h in
            rw (dfs_find_cycles, here)
              (record {
                after = report stack node s;
                returns = refl;
                keeps = r.keeps;
                grows = r.grows;
                post = λ e. absurd (r.found e);
              })
        | inr new ↦ elim (Bool-cases (contains node s.visited)) [
          | inl old ↦
              rw (dfs_find_cycles, new, old)
                (record {
                  after = s;
                  returns = refl;
                  keeps = h;
                  grows = Grows-refl s;
                  post = λ e. old;
                })
          | inr first ↦
              let go = dfs_find_cycles adj fuel (stack ++ node ∷ []) in
              let less = room_lt node s.in_stack starts known new in
              let body : (c : Text)
                  → contains c (children adj node) ≡ true
                  → (t : Visit) → InLoop stack node s t
                  → Leads (InLoop stack node s) Grows (IsDone c) t (go c t) =
                λ c next t i.
                  let longer =
                    subst (IsWalk (edge adj)) (sym (append_assoc stack (node ∷ []) (c ∷ [])))
                      (IsWalk-glue (edge adj) stack node (c ∷ []) walk (next, tt)) in
                  let fits : room t.in_stack starts < fuel =
                    subst (λ l. room l starts < fuel) (sym i.1) (omega (arith, less, enough)) in
                  let r =
                    dfs_find_cycles-Leads fuel (stack ++ node ∷ []) c t fits (reaches node c next)
                      longer i.0 in
                  record {
                    after = r.after;
                    returns = r.returns;
                    keeps = (r.keeps, r.grows.same_stack ∙ i.1);
                    grows = r.grows;
                    post = r.post;
                  } in
              let loop =
                each-Leads (InLoop stack node s) Grows IsDone Grows-refl Grows-trans IsDone-later go
                  (children adj node) body (enter node s) (InLoop-enter stack node s new h) in
              rw (dfs_find_cycles, new, first, loop.returns)
                (leave-Leads stack node s loop.after new h loop.keeps loop.grows loop.post)
        ]
      ]
