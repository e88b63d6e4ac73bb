-- ===== src/Topology/Cycles/Each.antt =====
-- The loop `each` runs to its end when its body does.
use code_iq.Base.{
  ◌≡◌, refl, sym, subst, Bool-cases, inl, inr, true, Option, some, List, [], ◌∷◌, contains, arith,
  ◌==◌,
}
use code_iq.Base.Text.{Text, text_eq, text_beq_iff}
use code_iq.Topology.Cycles.{each}

-- What a run of the body leads to: a state that keeps the invariant `I`, related by `R` to the
-- state before, in which `Q` holds.
pub record Leads {S : Type 0} (I : S → Type 0) (R : S → S → Type 0) (Q : S → Type 0) (before : S)
    (result : Option S) : Type 0 where
  pub after : S
  pub returns : result ≡ some after
  pub keeps : I after
  pub grows : R before after
  pub post : Q after

module _ {S : Type 0} (I : S → Type 0) (R : S → S → Type 0) (Q : Text → S → Type 0)
    (r_refl : (s : S) → R s s) (r_trans : (s t u : S) → R s t → R t u → R s u)
    (q_later : (c : Text) (s t : S) → R s t → Q c s → Q c t) (go : Text → S → Option S) where
  -- After the loop, `Q` holds of all elements.
  pub each-Leads :
      (cs : List Text)
      → ((c : Text) → contains c cs ≡ true → (s : S) → I s → Leads I R (Q c) s (go c s))
      → (s : S) → I s
      → Leads I R (λ t. (c : Text) → contains c cs ≡ true → Q c t) s (each go cs s)
  unfolding each
  each-Leads [] body s i = record {
    after = s;
    returns = refl;
    keeps = i;
    grows = r_refl s;
    post = λ c inside. cc;
  }
  each-Leads (c ∷ cs) body s i =
      let first = body c (ground (arith, text_beq_iff c c)) s i in
      let later = each-Leads cs (λ d inside. body d (ground arith)) first.after first.keeps in
      record {
        after = later.after;
        returns = rw (each, first.returns) later.returns;
        keeps = later.keeps;
        grows = r_trans s first.after later.after first.grows later.grows;
        post = λ d inside. elim (Bool-cases (d == c)) [
          | inl same ↦
              subst (λ x. Q x later.after) (sym ((text_beq_iff d c).0 same))
                (q_later c first.after later.after later.grows first.post)
          | inr other ↦ later.post d (ground arith)
        ];
      }
