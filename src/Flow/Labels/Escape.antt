-- ===== src/Flow/Labels/Escape.antt =====
-- Calls of `strings.ReplaceAll` one after the other, as one pass over the text.
use code_iq.Base.{
  ℕ, ◌≡◌, refl, sym, subst, ap, ap₂, nat_beq_iff, ◌∙◌, inl, inr, Bool, true, false, List, [], ◌∷◌,
  ◌++◌, ◌==◌, nat_eq, flat, flat-append, any, contains, contains-flat, All, arith, Bool-cases,
  if◌then◌else◌,
}
use code_iq.Base.Text.{Text}
use code_iq.Base.Text.Search.{replace_byte}
use code_iq.Base.Text.Decimal.{show, count_up}
use code_iq.Flow.Labels.{
  replace_each, entity, label_bytes, escape_label, backslashed, escape_dot_label,
}

module _ (by : ℕ → Text) where
  abbrev pub replaced : List ℕ → ℕ → Text
  replaced ds c = if contains c ds then by c else c ∷ []

  -- No byte of the text is replaced.
  abbrev IsKept : List ℕ → Text → Type 0
  IsKept ds = All (λ c. contains c ds ≡ false)

  -- What is put in is not replaced by a later call.
  abbrev pub IsSafe : List ℕ → Type 0
  IsSafe [] = Unit
  IsSafe (d ∷ ds) = IsKept ds (by d) × IsSafe ds

  replaced-kept : (ds : List ℕ) (s : Text) → IsKept ds s → flat (replaced ds) s ≡ s
  replaced-kept ds [] h = refl
  replaced-kept ds (c ∷ s) h = rw (h.0, replaced-kept ds s h.1) refl

  replaced-none : (s : Text) → flat (replaced []) s ≡ s
  replaced-none [] = refl
  replaced-none (c ∷ s) = ap (λ l. c ∷ l) (replaced-none s)

  replace_byte-replaced :
      (d : ℕ) (ds : List ℕ)
      → IsKept ds (by d)
      → (s : Text) → flat (replaced ds) (replace_byte d (by d) s) ≡ flat (replaced (d ∷ ds)) s
  unfolding replace_byte
  replace_byte-replaced d ds k [] = refl
  replace_byte-replaced d ds k (c ∷ s) = elim (Bool-cases (c == d)) [
    | inl here ↦
        let same : c ≡ d = (nat_beq_iff c d).0 here in
        rw here (
          flat-append (replaced ds) (by d) (replace_byte d (by d) s)
          ∙ ap₂ ◌++◌ (replaced-kept ds (by d) k ∙ ap by (sym same))
              (replace_byte-replaced d ds k s))
    | inr other ↦ rw other (ap (λ l. replaced ds c ++ l) (replace_byte-replaced d ds k s))
  ]

  pub replace_each_lem :
      (ds : List ℕ) → IsSafe ds → (s : Text) → replace_each by ds s ≡ flat (replaced ds) s
  replace_each_lem [] h s = sym (replaced-none s)
  replace_each_lem (d ∷ ds) h s =
      replace_each_lem ds h.1 (replace_byte d (by d) s) ∙ replace_byte-replaced d ds h.0 s

entity-IsSafe : IsSafe entity label_bytes
unfolding show count_up
entity-IsSafe = assumption refl

-- The bytes with a meaning in Mermaid: all that are replaced but `#`, which entities hold.
abbrev pub breaking_bytes : List ℕ
breaking_bytes = 34 ∷ 124 ∷ 91 ∷ 93 ∷ 123 ∷ 125 ∷ 40 ∷ 41 ∷ 60 ∷ 62 ∷ []

All-at : (P : ℕ → Type 0) (ds : List ℕ) → All P ds → (d : ℕ) → contains d ds ≡ true → P d
All-at P [] h d inside = cc
All-at P (e ∷ ds) h d inside = elim (Bool-cases (d == e)) [
  | inl here ↦ subst P (sym ((nat_beq_iff d e).0 here)) h.0
  | inr other ↦ All-at P ds h.1 d (ground (arith, inside, other))
]

abbrev LacksIn : ℕ → ℕ → Type 0
LacksIn d e = contains d (entity e) ≡ false

entities-plain : All (λ d. All (LacksIn d) label_bytes) breaking_bytes
unfolding show count_up
entities-plain = assumption refl

replaced-plain :
    (d c : ℕ)
    → contains d breaking_bytes ≡ true
    → contains d (replaced entity label_bytes c) ≡ false
replaced-plain d c inside = elim (Bool-cases (contains c label_bytes)) [
  | inl special ↦
      let plain =
        All-at (λ x. All (LacksIn x) label_bytes) breaking_bytes entities-plain d inside in
      rw special (All-at (LacksIn d) label_bytes plain c special)
  | inr plain ↦ rw plain (ground (arith, nat_beq_iff d c, inside, plain))
]

any-none : (p : ℕ → Bool) → ((c : ℕ) → p c ≡ false) → (s : List ℕ) → any p s ≡ false
any-none p h [] = refl
any-none p h (c ∷ s) = rw (h c) (any-none p h s)

-- Replacing one byte after the other does what one pass does that writes an entity for each of the
-- eleven bytes, and none of the ten bytes that have a meaning in Mermaid is left.
pub escape_label_lem :
    (s : Text)
    → (escape_label s ≡ flat (replaced entity label_bytes) s)
      × ((d : ℕ) → contains d breaking_bytes ≡ true → contains d (escape_label s) ≡ false)
unfolding escape_label
escape_label_lem s =
    let one_pass = replace_each_lem entity label_bytes entity-IsSafe s in
    (
      one_pass,
      λ d inside.
          ap (contains d) one_pass
          ∙ (contains-flat d (replaced entity label_bytes) s
              ∙ any-none (λ c. contains d (replaced entity label_bytes c))
                  (λ c. replaced-plain d c inside) s),
    )

backslashed-IsSafe : IsSafe backslashed (92 ∷ 34 ∷ [])
backslashed-IsSafe = assumption refl

pub escape_dot_label-one_pass :
    (s : Text) → escape_dot_label s ≡ flat (replaced backslashed (92 ∷ 34 ∷ [])) s
unfolding escape_dot_label
escape_dot_label-one_pass = replace_each_lem backslashed (92 ∷ 34 ∷ []) backslashed-IsSafe
