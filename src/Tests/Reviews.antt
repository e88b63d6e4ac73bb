-- ===== src/Tests/Reviews.antt =====
-- A diff of two files: one has a line replaced, one is deleted.
use code_iq.Base.{List, [], ◌∷◌}
use code_iq.Base.Text.{lit}
use code_iq.Review.Printed.{
  plus, minus, context, no_newline, index_line, deleted_file_mode, modified, deleted, FileDiff,
}

abbrev changes : List FileDiff
changes =
    (record {
      old_path = lit "x";
      new_path = lit "x";
      header = index_line (lit "1..2 100644") ∷ [];
      change = modified (
          (record {
            range = lit " -1,2 +1,2 @@";
            body = minus (lit "a") ∷ plus (lit "b") ∷ context (lit "c") ∷ no_newline ∷ [];
          })
          ∷ []);
    })
    ∷ (record {
      old_path = lit "y";
      new_path = lit "y";
      header = deleted_file_mode (lit "100644") ∷ index_line (lit "3..0") ∷ [];
      change = deleted ((record { range = lit " -1 +0,0 @@"; body = minus (lit "d") ∷ [] }) ∷ []);
    })
    ∷ []
