-- ===== src/ReadFile/Safe.antt =====
-- What a response of `ReadRepoFile` guarantees.
use code_iq.Base.{
  ◌≤◌, ◌≡◌, refl, sym, ap, subst, ◌∙◌, inl, inr, Bool, true, false, not, ◌||◌, some, [], ltb,
  length, flat, arith, Bool-cases, if◌then◌else◌,
}
use code_iq.Base.Text.{Text}
use code_iq.ReadFile.{
  ReadFileRequest, ReadFileResponse, OpenFile, Files, lexical_traversal, path_unresolved,
  symlink_traversal, stat_failed, is_directory, open_failed, rejected_type, rewind_failed,
  root_required, path_required, path_not_relative, root_unresolved, root_not_canonical, ok,
  path_contains, is_allowed_mime, then_respond, whole_response, range_response, whole_file,
  line_range, read_open, with_cap, read_resolved, read_under, read_repo_file,
}
use code_iq.ReadFile.Inversion.{unless-ok, try-ok, then_respond-ok}
use code_iq.ReadFile.Lines.{ok-content, whole_file_lem, line_range_lem, wanted_lines, with_newline}

-- All that was asked for: the wanted lines, or everything where no line number was given.
abbrev pub asked_for : ReadFileRequest → OpenFile → Text
asked_for req f =
    if ltb 0 req.start_line || ltb 0 req.end_line
    then flat (with_newline req) (wanted_lines req 0 f.lines)
    else flat (λ p. p) f.pieces

pub read_open_lem :
    (req : ReadFileRequest) (f : OpenFile) (resp : ReadFileResponse)
    → read_open req f ≡ ok resp
    → (length resp.content ≤ req.max_bytes)
      × (resp.truncated ≡ false → resp.content ≡ asked_for req f)
unfolding read_open
read_open_lem req f resp h = elim (Bool-cases (ltb 0 req.start_line || ltb 0 req.end_line)) [
  | inl range ↦
      let now : read_open req f
          ≡ then_respond (range_response req f.mime) (line_range req f.fails 0 f.lines [] 0) =
        rw (read_open, range) refl in
      let (r, got, same) = then_respond-ok (range_response req f.mime) _ resp (sym now ∙ h) in
      let (short, all) = line_range_lem req f.fails 0 f.lines [] 0 r (omega arith) got in
      let e = ok-content (range_response req f.mime r) resp same in
      subst
        (λ (x : ReadFileResponse).
          (length x.content ≤ req.max_bytes) × (x.truncated ≡ false → x.content ≡ asked_for req f))
        e (short, λ k. rw range (all k))
  | inr whole ↦
      let now : read_open req f
          ≡ then_respond (whole_response req f.mime)
              (whole_file req.max_bytes f.fails f.pieces []) =
        rw (read_open, whole) refl in
      let (r, got, same) = then_respond-ok (whole_response req f.mime) _ resp (sym now ∙ h) in
      let (short, all) = whole_file_lem req.max_bytes f.fails f.pieces [] r (omega arith) got in
      let e = ok-content (whole_response req f.mime r) resp same in
      subst
        (λ (x : ReadFileResponse).
          (length x.content ≤ req.max_bytes) × (x.truncated ≡ false → x.content ≡ asked_for req f))
        e (short, λ k. rw whole (all k))
]

not-false : (b : Bool) → not b ≡ false → b ≡ true
not-false true h = refl
not-false false h = cc

-- The file that a response comes from.
pub record Served (files : Files) (req : ReadFileRequest) (resp : ReadFileResponse) : Type 0 where
  pub root : Text
  pub resolved : Text
  pub file : OpenFile
  pub root_is : (a : Text) × (files.abs req.root ≡ some a) × (files.eval_symlinks a ≡ some root)
  pub resolved_is : files.eval_symlinks (files.clean_join root req.path) ≡ some resolved
  pub inside : path_contains root resolved ≡ true
  pub no_directory : files.stat_is_dir resolved ≡ some false
  pub opened : files.open_file resolved ≡ some file
  pub allowed : is_allowed_mime file.mime ≡ true
  pub bounded : length resp.content ≤ (with_cap req).max_bytes
  pub complete : resp.truncated ≡ false → resp.content ≡ asked_for req file

-- Every response comes from a file, not a directory, whose path with all links followed is at or
-- under the canonical root, and whose type is allowed. It has no more bytes than the cap, and
-- where it does not say that it is truncated, it is all that was asked for.
pub read_repo_file-Served :
    (files : Files) (req : ReadFileRequest) (resp : ReadFileResponse)
    → read_repo_file files req ≡ ok resp
    → Served files req resp
unfolding read_repo_file read_under read_resolved
read_repo_file-Served files req resp h0 =
    let capped = with_cap req in
    let h1 = (unless-ok _ root_required _ resp h0).1 in
    let h2 = (unless-ok _ path_required _ resp h1).1 in
    let h3 = (unless-ok _ path_not_relative _ resp h2).1 in
    let (a, abs_is, h4) = try-ok (files.abs req.root) root_unresolved _ resp h3 in
    let (root, root_is, h5) = try-ok (files.eval_symlinks a) root_not_canonical _ resp h4 in
    let h6 = (unless-ok _ lexical_traversal _ resp h5).1 in
    let (resolved, resolved_is, h7) =
      try-ok (files.eval_symlinks (files.clean_join root req.path)) path_unresolved _ resp h6 in
    let (outside, h8) = unless-ok (not (path_contains root resolved)) symlink_traversal _ resp h7 in
    let (is_dir, stat_is, h9) = try-ok (files.stat_is_dir resolved) stat_failed _ resp h8 in
    let (no_dir, h10) = unless-ok is_dir is_directory _ resp h9 in
    let (f, opened, h11) = try-ok (files.open_file resolved) open_failed _ resp h10 in
    let (rejected, h12) = unless-ok (not (is_allowed_mime f.mime)) rejected_type _ resp h11 in
    let h13 = (unless-ok (not f.rewinds) rewind_failed _ resp h12).1 in
    let (short, all) = read_open_lem capped f resp h13 in
    record {
      root = root;
      resolved = resolved;
      file = f;
      root_is = (a, abs_is, root_is);
      resolved_is = resolved_is;
      inside = not-false (path_contains root resolved) outside;
      no_directory = stat_is ∙ ap some no_dir;
      opened = opened;
      allowed = not-false (is_allowed_mime f.mime) rejected;
      bounded = short;
      complete = all;
    }
