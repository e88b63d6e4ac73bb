-- ===== src/Tests/Containment.antt =====
-- Two classes of one module.
use code_iq.Base.{List, [], ◌∷◌, keep, All}
use code_iq.Base.Text.{Text, lit}
use code_iq.Model.NodeKind
use code_iq.Model.Node.{CodeNode, CodeEdge, new_code_node}
use code_iq.Linker.Containment.{is_member, link_modules}
use code_iq.Linker.Containment.Laws.{Grouped}
use code_iq.Linker.Containment.Members.{IsHoused, link_modules-IsHoused}

abbrev class_of : Text → Text → CodeNode
class_of id name = record (new_code_node id NodeKind.class id) { in_module = name }

abbrev classes : List CodeNode
classes =
    class_of (lit "b") (lit "shop")
    ∷ class_of (lit "a") (lit "shop")
    ∷ new_code_node (lit "module:shop") NodeKind.module_node (lit "shop")
    ∷ []

abbrev no_edges : List CodeEdge
no_edges = []

link_modules-IsHoused_example :
    All (Grouped classes no_edges) (link_modules classes no_edges).edges
    × All (IsHoused classes no_edges (link_modules classes no_edges)) (keep is_member classes)
link_modules-IsHoused_example = link_modules-IsHoused classes no_edges
