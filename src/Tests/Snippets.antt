-- ===== src/Tests/Snippets.antt =====
-- A node in a file of two lines.
use code_iq.Base.{true, some, [], ◌∷◌}
use code_iq.Base.Text.{lit}
use code_iq.Model.NodeKind
use code_iq.Model.Node.{CodeNode, new_code_node}
use code_iq.Snippet.{pos, SourceFile, extract_with_context}
use code_iq.Snippet.Window.{IsWithin, extract-IsWithin}

abbrev two_lines : SourceFile
two_lines = record {
  relative = some (lit "f.go");
  is_regular = true;
  content = some (lit "a" ∷ lit "b" ∷ []);
}

-- A method that claims to end past the end of the file.
abbrev node : CodeNode
node = record (new_code_node (lit "n") NodeKind.method (lit "m")) {
  file_path = lit "f.go";
  line_start = 1;
  line_end = 9;
}

extract-IsWithin_example : IsWithin two_lines (extract_with_context node two_lines (pos 3))
extract-IsWithin_example = extract-IsWithin node two_lines (pos 3)
