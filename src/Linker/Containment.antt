-- ===== src/Linker/Containment.antt =====
-- internal/analyzer/linker/module_containment_linker.go: modules contain the nodes that name them.
pub mod Visited
pub mod Laws
pub mod Members
use mathlib.Core.List.{foldl}
use code_iq.Base.{
  Bool, true, false, not, ◌&&◌, List, [], ◌∷◌, ◌++◌, map, keep, contains, is_nonempty,
  if◌then◌else◌,
}
use code_iq.Base.Text.{Text, text_eq, lit}
use code_iq.Base.Assoc.{keys}
use code_iq.Base.Sort.{sort_by}
use code_iq.Base.Groups.{group, get}
use code_iq.Model.NodeKind
use code_iq.Model.EdgeKind
use code_iq.Model.Confidence
use code_iq.Model.Layer
use code_iq.Model.Node.{CodeNode, CodeEdge, new_code_node}
use code_iq.Linker.{Linked, inferred, src_module_containment_linker}
use code_iq.Linker.Entity.{pair_key}

abbrev pub is_module : CodeNode → Bool
is_module n = NodeKind.same n.kind NodeKind.module_node

-- A node that is not a module and names one.
abbrev pub is_member : CodeNode → Bool
is_member n = not (is_module n) && is_nonempty n.in_module

unfoldable pub by_module : List CodeNode → List (Text × List CodeNode)
by_module nodes = group (λ n. n.in_module) (λ n. n) (keep is_member nodes)

abbrev pub existing_modules : List CodeNode → List Text
existing_modules nodes = map (λ n. n.id) (keep is_module nodes)

abbrev pub edge_key : CodeEdge → Text
edge_key e = pair_key e.source_id e.target_id

abbrev pub existing_contains : List CodeEdge → List Text
existing_contains edges = map edge_key (keep (λ e. EdgeKind.same e.kind EdgeKind.contains) edges)

abbrev pub module_id : Text → Text
module_id name = lit "module:" ++ name

-- A literal of the struct: its layer is the zero of the type.
abbrev pub new_module : Text → CodeNode
new_module name = record (new_code_node (module_id name) NodeKind.module_node name) {
  fqn = name;
  in_module = name;
  layer = Layer.frontend;
  source = src_module_containment_linker;
}

abbrev pub containment_edge : Text → Text → CodeEdge
containment_edge parent member = record {
  id = lit "module-link:" ++ (parent ++ (lit "->" ++ member));
  kind = EdgeKind.contains;
  source_id = parent;
  target_id = member;
  confidence = Confidence.lexical;
  source = src_module_containment_linker;
  properties = inferred;
}

-- The variables of the loop; the two sets are lists.
pub record Grouping : Type 0 where
  pub modules : List Text
  pub contained : List Text
  pub new_nodes : List CodeNode
  pub new_edges : List CodeEdge

unfoldable pub add_module : Grouping → Text → Grouping
add_module s name = if contains (module_id name) s.modules then s else record s {
  modules = s.modules ++ module_id name ∷ [];
  new_nodes = s.new_nodes ++ new_module name ∷ [];
}

unfoldable pub add_member : Text → Grouping → CodeNode → Grouping
add_member name s n =
    let edge = containment_edge (module_id name) n.id in
    if contains (edge_key edge) s.contained then s else record s {
      contained = s.contained ++ edge_key edge ∷ [];
      new_edges = s.new_edges ++ edge ∷ [];
    }

-- The body of the loop over the names of the modules.
unfoldable pub link_module : List (Text × List CodeNode) → Grouping → Text → Grouping
unfolding add_module add_member
link_module members s name =
    foldl (add_member name) (add_module s name) (sort_by (λ n. n.id) (get name members))

unfoldable pub group_modules : List CodeNode → List CodeEdge → Grouping
unfolding by_module link_module
group_modules nodes edges =
    foldl (link_module (by_module nodes))
      (record {
        modules = existing_modules nodes;
        contained = existing_contains edges;
        new_nodes = [];
        new_edges = [];
      })
      (sort_by (λ name. name) (keys (by_module nodes)))

-- Without members there are no names, and the loop leaves two empty lists, as the early return.
unfoldable pub link_modules : List CodeNode → List CodeEdge → Linked
unfolding group_modules
link_modules nodes edges =
    let s = group_modules nodes edges in record { nodes = s.new_nodes; edges = s.new_edges }
