-- ===== src/Topology/Connections/Dedup.antt =====
-- One connection for each source, target and kind.
use mathlib.Core.List.{append_assoc, Nodup}
use code_iq.Base.{◌≡◌, refl, sym, ap, subst, ◌∙◌, List, [], ◌∷◌, ◌++◌, map, contains, arith}
use code_iq.Base.Text.{Text, text_eq, text_beq_iff, lit}
use code_iq.Model.Node.{text}
use code_iq.Base.Groups.{distinct_from, contains-distinct_from, distinct_from-Nodup}
use code_iq.Topology.Connections.{
  Row, connection_of, connection_key, collect, cross_service_connections,
}

-- The keys of the rows, each once.
map-collect :
    (seen : List Text) (rows : List Row)
    → map connection_key (collect seen rows)
      ≡ distinct_from seen (map (λ r. connection_key (connection_of r)) rows)
unfolding collect distinct_from
map-collect seen [] = refl
map-collect seen (r ∷ rows) =
    ground
      (arith, map-collect seen rows, map-collect (connection_key (connection_of r) ∷ seen) rows)

-- No two connections of the result share a key, and its keys are exactly those of the rows.
pub cross_service_connections_lem :
    (rows : List Row)
    → Nodup (map connection_key (cross_service_connections rows))
      × ((k : Text)
          → contains k (map connection_key (cross_service_connections rows))
            ≡ contains k (map (λ r. connection_key (connection_of r)) rows))
unfolding cross_service_connections
cross_service_connections_lem rows =
    let keys = map (λ r. connection_key (connection_of r)) rows in
    (
      subst Nodup (sym (map-collect [] rows)) (distinct_from-Nodup [] keys),
      λ k. ap (contains k) (map-collect [] rows) ∙ ground (arith, contains-distinct_from k [] keys),
    )

abbrev pub row_of : Text → Text → Text → Row
row_of s t k = record { source = text s; target = text t; kind = text k }

abbrev arrow : Text
arrow = lit "->"

shared_key :
    (a b c k : Text)
    → connection_key (connection_of (row_of (a ++ (arrow ++ b)) c k))
      ≡ connection_key (connection_of (row_of a (b ++ (arrow ++ c)) k))
unfolding connection_key
shared_key a b c k = simp append_assoc

-- Two connections between different services are one where the names contain the arrow of the
-- key: the rows from `a` to `b->c` and from `a->b` to `c` of one kind leave only the first.
pub cross_service_connections-shared_key :
    (a b c k : Text)
    → cross_service_connections
        (row_of a (b ++ (lit "->" ++ c)) k ∷ row_of (a ++ (lit "->" ++ b)) c k ∷ [])
      ≡ connection_of (row_of a (b ++ (lit "->" ++ c)) k) ∷ []
unfolding cross_service_connections collect
cross_service_connections-shared_key a b c k = ground (
  arith,
  shared_key a b c k,
  text_beq_iff (connection_key (connection_of (row_of (a ++ (arrow ++ b)) c k)))
      (connection_key (connection_of (row_of a (b ++ (arrow ++ c)) k))),
)
