-- ===== src/Tests/ReadFile.antt =====
-- Reading a file of two lines.
use code_iq.Base.{◌≡◌, refl, true, false, some, [], ◌∷◌, ◌++◌, ◌==◌, if◌then◌else◌}
use code_iq.Base.Text.{
  text_eq, text_beq, lit, has_prefix, trim_space, trim_left, trim_right, is_space,
}
use code_iq.Base.Text.Search.{cut_byte}
use code_iq.ReadFile.{
  Files, OpenFile, ReadFileRequest, ReadFileResponse, ok, err, symlink_traversal, read_repo_file,
  read_under, read_resolved, read_open, line_range, path_contains, is_allowed_mime,
  trim_mime_suffix,
}
use code_iq.ReadFile.Safe.{Served, read_repo_file-Served}

abbrev notes : OpenFile
notes = record {
  mime = lit "text/plain; charset=utf-8";
  rewinds = true;
  pieces = lit "ab" ∷ [];
  lines = lit "a" ∷ lit "b" ∷ [];
  fails = false;
}

abbrev files : Files
files = record {
  is_abs = λ p. false;
  abs = λ p. some (lit "/" ++ p);
  eval_symlinks = λ p. some p;
  clean_join = λ r p. r ++ lit "/" ++ p;
  stat_is_dir = λ p. some false;
  open_file = λ p. some notes;
}

abbrev second_line : ReadFileRequest
second_line = record { root = lit "r"; path = lit "n"; start_line = 2; end_line = 0; max_bytes = 0 }

abbrev second_line_response : ReadFileResponse
second_line_response = record {
  path = lit "n";
  content = lit "b" ++ 10 ∷ [];
  truncated = false;
  start_line = 2;
  end_line = 2;
  mime_type = lit "text/plain";
}

reads : read_repo_file files second_line ≡ ok second_line_response
unfolding read_repo_file read_under read_resolved read_open line_range path_contains is_allowed_mime
    trim_mime_suffix has_prefix trim_space trim_left trim_right is_space cut_byte text_beq
reads = refl

read_repo_file-Served_example : Served files second_line second_line_response
read_repo_file-Served_example = read_repo_file-Served files second_line second_line_response reads

-- A link out of the repository is refused.
link_refused :
    read_repo_file
      (record files { eval_symlinks = λ p. some (if p == lit "/r" then p else lit "/etc") })
      second_line
    ≡ err symlink_traversal
unfolding read_repo_file read_under path_contains has_prefix text_beq
link_refused = refl
