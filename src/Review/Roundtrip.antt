-- ===== src/Review/Roundtrip.antt =====
-- A printed diff of several files.
use code_iq.Base.{◌≡◌, List, [], map, flat, keep, length, nat_eq}
use code_iq.Base.Text.{Text}
use code_iq.Review.{ChangedFile, Scan, flush_hunk}
use code_iq.Review.Printed.{is_plus, is_minus, Hunk, hunk_text}
use code_iq.Review.Parsed.{inside}

-- Between two files, nothing is left in the buffer once it is flushed.
abbrev IsBetween : Scan → Type 0
IsBetween s = (flush_hunk s).hunk_buf ≡ []

module _ (files : List ChangedFile) (path : Text) where
  -- The state of a file before its first hunk.
  abbrev fresh : Scan
  fresh = inside files path [] 0 0 []

  -- The counts and texts of a file's hunks.
  abbrev filled : List Hunk → Scan
  filled hs =
      inside files path (map hunk_text hs) (length (keep is_plus (flat (λ h. h.body) hs)))
        (length (keep is_minus (flat (λ h. h.body) hs))) []
