-- ===== src/Topology/Services/Ranking.antt =====
-- The bottlenecks: which services are listed, with what counts, and in what order.
use mathlib.Core.List.{Perm}
use code_iq.Base.{
  ◌+◌, ◌≡◌, refl, subst, Bool, true, false, not, List, [], ◌∷◌, map, keep, nat_beq, arith,
  if◌then◌else◌,
}
use code_iq.Base.Text.{text_eq, text_lt_irrefl, text_lt_trans}
use code_iq.Base.Sort.{TextLe-trans}
use code_iq.Base.Sort.With.{sort_with, sort_with-perm, IsOrdered, sort_with-IsOrdered}
use code_iq.Topology.Connections.{Connection}
use code_iq.Topology.Services.{
  Summary, Bottleneck, busier, in_degrees, out_degrees, bottleneck_rows, find_bottlenecks,
}
use code_iq.Topology.Services.Degrees.{tally, count_at-degrees}

busier_asym : (a b : Bottleneck) → busier a b ≡ true → busier b a ≡ false
unfolding busier
busier_asym a b h =
    ground (arith, text_lt_irrefl a.service, text_lt_trans a.service b.service a.service)

busier_trans : (a b c : Bottleneck) → busier b a ≡ false → busier c b ≡ false → busier c a ≡ false
unfolding busier
busier_trans a b c h k = ground (arith, TextLe-trans a.service b.service c.service)

-- The row of a service, from the connections.
abbrev pub bottleneck_of : List Connection → Summary → Bottleneck
bottleneck_of conns s = record {
  service = s.name;
  connections_in = tally (λ c. c.target) conns s.name;
  connections_out = tally (λ c. c.source) conns s.name;
  total_connections = tally (λ c. c.target) conns s.name + tally (λ c. c.source) conns s.name;
}

map-unless :
    {A B : Type 0} (f : A → B) (skip : Bool) (x : A) (xs : List A)
    → (if skip then map f xs else f x ∷ map f xs) ≡ map f (if not skip then x ∷ xs else xs)
map-unless f true x xs = refl
map-unless f false x xs = refl

bottleneck_rows_lem :
    (conns : List Connection) (summaries : List Summary)
    → bottleneck_rows (in_degrees conns) (out_degrees conns) summaries
      ≡ map
          (bottleneck_of conns)
          (keep (λ s. not (nat_beq (bottleneck_of conns s).total_connections 0)) summaries)
unfolding bottleneck_rows
bottleneck_rows_lem conns [] = refl
bottleneck_rows_lem conns (s ∷ summaries) =
    rw
      (
        count_at-degrees (λ c. c.target) s.name conns,
        count_at-degrees (λ c. c.source) s.name conns,
        bottleneck_rows_lem conns summaries,
      )
      (map-unless (bottleneck_of conns) (nat_beq (bottleneck_of conns s).total_connections 0) s
        (keep (λ r. not (nat_beq (bottleneck_of conns r).total_connections 0)) summaries))

-- The rows are those of the services that some connection touches, each with the number of
-- connections that arrive, that leave, and both together; no row stands before one with a
-- larger total, or with the same total and a smaller name.
pub find_bottlenecks_lem :
    (summaries : List Summary) (conns : List Connection)
    → Perm (find_bottlenecks summaries conns) (
        map
          (bottleneck_of conns)
          (keep (λ s. not (nat_beq (bottleneck_of conns s).total_connections 0)) summaries))
      × IsOrdered busier (find_bottlenecks summaries conns)
unfolding find_bottlenecks
find_bottlenecks_lem summaries conns =
    let rows = bottleneck_rows (in_degrees conns) (out_degrees conns) summaries in
    (
      subst (Perm (sort_with busier rows)) (bottleneck_rows_lem conns summaries)
          (sort_with-perm busier rows),
      sort_with-IsOrdered busier busier_asym busier_trans rows,
    )
