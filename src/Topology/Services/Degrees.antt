-- ===== src/Topology/Services/Degrees.antt =====
-- The degrees that `GetTopology` stamps into its rows.
use mathlib.Core.List.{foldl, Pairwise, Mem, mem-cons_self, mem-cons_of_mem}
use code_iq.Base.{
  ℕ, suc, ◌+◌, ◌≡◌, refl, ◌∙◌, ◌≢◌, inl, inr, true, false, List, [], ◌∷◌, ◌==◌, map, keep, contains,
  length, sum, All, arith, Bool-cases, if◌then◌else◌,
}
use code_iq.Base.Text.{Text, text_eq, text_beq_iff}
use code_iq.Base.Assoc.{lookup, lookup-insert}
use code_iq.Base.Counts.{count_at, increment}
use code_iq.Base.Sort.{sort_by, sort_by-perm, HasDistinctKeys}
use code_iq.Base.Shuffle.{sum-perm}
use code_iq.Topology.Connections.{Connection}
use code_iq.Topology.Services.{Summary, ServiceRow, degrees, in_degrees, out_degrees, get_topology}

-- The connections with one end at a service.
abbrev pub tally : (Connection → Text) → List Connection → Text → ℕ
tally end conns s = length (keep (λ c. end c == s) conns)

module _ (end : Connection → Text) where
  count_at-fold :
      (s : Text) (cs : List Connection) (m : List (Text × ℕ))
      → count_at (foldl (λ m c. increment m (end c)) m cs) s ≡ count_at m s + tally end cs s
  unfolding increment
  count_at-fold s [] m = omega arith
  count_at-fold s (c ∷ cs) m = ground (
    arith,
    count_at-fold s cs (increment m (end c)),
    lookup-insert (end c) s (suc (count_at m (end c))) m,
    text_beq_iff (end c) s,
  )

  pub count_at-degrees :
      (s : Text) (cs : List Connection) → count_at (degrees end cs) s ≡ tally end cs s
  unfolding degrees lookup
  count_at-degrees s cs = omega (arith, count_at-fold s cs [])

module _ {A : Type 0} where
  sum-plus :
      (f g : A → ℕ) (xs : List A) → sum (map (λ x. f x + g x) xs) ≡ sum (map f xs) + sum (map g xs)
  sum-plus f g [] = omega arith
  sum-plus f g (x ∷ xs) = omega (arith, sum-plus f g xs)

  abbrev one_at : (A → Text) → Text → A → ℕ
  one_at key t x = if t == key x then 1 else 0

  sum-none :
      (key : A → Text) (t : Text) (xs : List A)
      → contains t (map key xs) ≡ false
      → sum (map (one_at key t) xs) ≡ 0
  sum-none key t [] h = refl
  sum-none key t (x ∷ xs) h = ground (arith, sum-none key t xs)

  sum-zero : (xs : List A) → sum (map (λ x. 0) xs) ≡ 0
  sum-zero [] = refl
  sum-zero (x ∷ xs) = omega (arith, sum-zero xs)

  away :
      (key : A → Text) (t : Text) (x : A) (xs : List A)
      → (t == key x) ≡ true
      → ((y : A) → Mem y xs → key x ≢ key y)
      → contains t (map key xs) ≡ false
  away key t x [] e d = refl
  away key t x (y ∷ xs) e d = ground (
    arith,
    text_beq_iff t (key x),
    text_beq_iff t (key y),
    d y mem-cons_self,
    away key t x xs e (λ z m. d z (mem-cons_of_mem y m)),
  )

  sum-one :
      (key : A → Text) (t : Text) (xs : List A)
      → HasDistinctKeys key xs
      → contains t (map key xs) ≡ true
      → sum (map (one_at key t) xs) ≡ 1
  sum-one key t [] d h = cc
  sum-one key t (x ∷ xs) (Pairwise.cons d ds) h = elim (Bool-cases (t == key x)) [
    | inl here ↦ rw here (omega (arith, sum-none key t xs (away key t x xs here d)))
    | inr there ↦ rw there (omega (arith, sum-one key t xs ds (ground arith)))
  ]

  sum-tally_cons :
      (key : A → Text) (end : Connection → Text) (c : Connection) (cs : List Connection)
      (xs : List A)
      → sum (map (λ x. tally end (c ∷ cs) (key x)) xs)
        ≡ sum (map (one_at key (end c)) xs) + sum (map (λ x. tally end cs (key x)) xs)
  sum-tally_cons key end c cs [] = omega arith
  sum-tally_cons key end c cs (x ∷ xs) = ground (arith, sum-tally_cons key end c cs xs)

  sum-map :
      {B : Type 0} (g : A → B) (f : B → ℕ) (h : A → ℕ)
      → ((x : A) → f (g x) ≡ h x)
      → (xs : List A) → sum (map f (map g xs)) ≡ sum (map h xs)
  sum-map g f h e [] = refl
  sum-map g f h e (x ∷ xs) = omega (arith, e x, sum-map g f h e xs)

  -- Each connection counts once at its end.
  sum-tally :
      (key : A → Text) (end : Connection → Text) (xs : List A) (cs : List Connection)
      → HasDistinctKeys key xs
      → All (λ c. contains (end c) (map key xs) ≡ true) cs
      → sum (map (λ x. tally end cs (key x)) xs) ≡ length cs
  sum-tally key end xs [] d h = sum-zero xs
  sum-tally key end xs (c ∷ cs) d h =
      let one = sum-one key (end c) xs d h.0 in
      omega (arith, sum-tally_cons key end c cs xs, one, sum-tally key end xs cs d h.1)

degree_sum :
    (end : Connection → Text) (row_of : Summary → ServiceRow) (field : ServiceRow → ℕ)
    (summaries : List Summary) (conns : List Connection)
    → ((s : Summary) → field (row_of s) ≡ count_at (degrees end conns) s.name)
    → HasDistinctKeys (λ s. s.name) summaries
    → All (λ c. contains (end c) (map (λ s. s.name) summaries) ≡ true) conns
    → sum (map field (map row_of (sort_by (λ s. s.name) summaries))) ≡ length conns
degree_sum end row_of field summaries conns e d ends =
    let counts =
      sum-map row_of field (λ s. tally end conns s.name)
        (λ s. e s ∙ count_at-degrees end s.name conns) (sort_by (λ s. s.name) summaries) in
    counts
    ∙ (sum-perm (λ s. tally end conns s.name) (sort_by-perm (λ s. s.name) summaries)
        ∙ sum-tally (λ s. s.name) end summaries conns d ends)

-- When the services have distinct names and include both ends of every connection, the degrees
-- of each direction add up to the number of connections.
pub get_topology-handshake :
    (summaries : List Summary) (conns : List Connection)
    → HasDistinctKeys (λ s. s.name) summaries
    → All (λ c. contains c.source (map (λ s. s.name) summaries) ≡ true) conns
    → All (λ c. contains c.target (map (λ s. s.name) summaries) ≡ true) conns
    → (sum (map (λ r. r.connections_out) (get_topology summaries conns).services)
        ≡ (get_topology summaries conns).connection_count)
      × (sum (map (λ r. r.connections_in) (get_topology summaries conns).services)
          ≡ (get_topology summaries conns).connection_count)
unfolding get_topology
get_topology-handshake summaries conns d sources targets = (
  degree_sum (λ c. c.source)
      (λ s. record {
        summary = s;
        connections_out = count_at (out_degrees conns) s.name;
        connections_in = count_at (in_degrees conns) s.name;
      })
      (λ r. r.connections_out) summaries conns (λ s. refl) d sources,
  degree_sum (λ c. c.target)
      (λ s. record {
        summary = s;
        connections_out = count_at (out_degrees conns) s.name;
        connections_in = count_at (in_degrees conns) s.name;
      })
      (λ r. r.connections_in) summaries conns (λ s. refl) d targets,
)
