-- ===== src/Topology/Services/Duality.antt =====
-- Dependencies and dependents are each other's converse, and dead services have no dependents.
use mathlib.Core.List.{Mem}
use mathlib.Core.List.Perm
use code_iq.Base.{
  suc, ◌≤◌, ◌≡◌, refl, sym, ◌∙◌, ◌↔◌, inl, inr, true, false, not, List, [], ◌∷◌, ◌==◌, map, keep,
  contains, length, arith, Bool-cases,
}
use code_iq.Base.Text.{Text, text_eq, text_beq_iff}
use code_iq.Base.Sort.{sort_by-perm}
use code_iq.Base.Shuffle.{mem-keep}
use code_iq.Base.Groups.{distinct, distinct_from, contains-distinct}
use code_iq.Topology.Connections.{Connection}
use code_iq.Topology.Services.{
  Summary, service_dependencies, service_dependents, find_dead_services,
}

contains-swap :
    (a b : Text) (cs : List Connection)
    → contains b (map (λ c. c.target) (keep (λ c. c.source == a) cs))
      ≡ contains a (map (λ c. c.source) (keep (λ c. c.target == b) cs))
contains-swap a b [] = refl
contains-swap a b (c ∷ cs) = ground (
  arith,
  text_beq_iff c.source a,
  text_beq_iff a c.source,
  text_beq_iff b c.target,
  text_beq_iff c.target b,
  contains-swap a b cs,
)

-- A service is among the dependencies of another exactly when the other is among its dependents.
pub dependencies_dependents :
    (conns : List Connection) (a b : Text)
    → contains b (service_dependencies conns a).others
      ≡ contains a (service_dependents conns b).others
unfolding service_dependencies service_dependents
dependencies_dependents conns a b =
    contains-distinct b (map (λ c. c.target) (keep (λ c. c.source == a) conns))
    ∙ (contains-swap a b conns
        ∙ sym (contains-distinct a (map (λ c. c.source) (keep (λ c. c.target == b) conns))))

keep_none :
    (b : Text) (cs : List Connection)
    → contains b (map (λ c. c.target) cs) ≡ false
    → keep (λ c. c.target == b) cs ≡ []
keep_none b [] h = refl
keep_none b (c ∷ cs) h =
    ground (arith, text_beq_iff b c.target, text_beq_iff c.target b, keep_none b cs)

some_other :
    (b : Text) (cs : List Connection)
    → contains b (map (λ c. c.target) cs) ≡ true
    → (a : Text) × (contains a (map (λ c. c.source) (keep (λ c. c.target == b) cs)) ≡ true)
some_other b [] h = cc
some_other b (c ∷ cs) h = elim (Bool-cases (c.target == b)) [
  | inl here ↦ (c.source, rw here (ground (arith, text_beq_iff c.source c.source)))
  | inr there ↦
      rw there (some_other b cs (ground (arith, text_beq_iff b c.target, text_beq_iff c.target b)))
]

length_of_contains : (a : Text) (xs : List Text) → contains a xs ≡ true → suc 0 ≤ length xs
length_of_contains a [] h = cc
length_of_contains a (x ∷ xs) h = omega arith

no_dependents_iff :
    (conns : List Connection) (b : Text)
    → (not (contains b (map (λ c. c.target) conns)) ≡ true)
      ↔ ((service_dependents conns b).count ≡ 0)
unfolding service_dependents distinct_from
no_dependents_iff conns b = elim (Bool-cases (contains b (map (λ c. c.target) conns))) [
  | inl busy ↦
      let rows = map (λ c. c.source) (keep (λ c. c.target == b) conns) in
      let (a, m) = some_other b conns busy in
      (
        λ h. cc,
        λ h.
            let some = length_of_contains a (distinct rows) (contains-distinct a rows ∙ m) in
            absurd (omega (arith, h, some)),
      )
  | inr dead ↦ rw (dead, keep_none b conns dead, distinct_from) (λ h. refl, λ h. refl)
]

-- The dead services are the listed services without dependents.
pub find_dead_services_iff :
    (summaries : List Summary) (conns : List Connection) (s : Summary)
    → Mem s (find_dead_services summaries conns)
      ↔ (Mem s summaries × ((service_dependents conns s.name).count ≡ 0))
unfolding find_dead_services
find_dead_services_iff summaries conns s =
    let perm =
      sort_by-perm (λ r. r.name)
        (keep (λ r. not (contains r.name (map (λ c. c.target) conns))) summaries) in
    let kept = mem-keep (λ r. not (contains r.name (map (λ c. c.target) conns))) s summaries in
    let none_in = no_dependents_iff conns s.name in
    (
      λ m. (let (inside, dead) = kept.0 ((Perm.mem_iff perm).0 m) in (inside, none_in.0 dead)),
      λ (inside, zero_in). (Perm.mem_iff perm).1 (kept.1 (inside, none_in.1 zero_in)),
    )
