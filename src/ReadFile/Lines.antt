-- ===== src/ReadFile/Lines.antt =====
-- What the two reading loops return: no more than the cap, and all that was asked for unless they
-- say that something was cut off.
use mathlib.Core.List.{append-nil, append_assoc}
use code_iq.Base.{
  ℕ, zero, suc, ◌+◌, ◌-◌, ◌<◌, ◌≤◌, ◌≡◌, refl, sym, ap, subst, ◌∙◌, inl, inr, Bool, true, false,
  ◌&&◌, ◌||◌, List, [], ◌∷◌, ◌++◌, ltb, leb, nat_beq, length, length-append, take, flat, arith,
  Bool-cases, if◌then◌else◌,
}
use code_iq.Base.Text.{Text}
use code_iq.ReadFile.{ReadFileRequest, ok, err, LineRange, whole_file, line_range}

length-take : {A : Type 0} (n : ℕ) (xs : List A) → length (take n xs) ≤ n
length-take zero xs = omega arith
length-take (suc n) [] = omega arith
length-take (suc n) (x ∷ xs) = omega (arith, length-take n xs)

pub ok-content : {A : Type 0} (a b : A) → ok a ≡ ok b → a ≡ b
ok-content a b e = ap (λ r. elim r [ ok x ↦ x | err x ↦ a ]) e

pub whole_file_lem :
    (max : ℕ) (fails : Bool) (pieces : List Text) (buf : Text) (r : Text × Bool)
    → length buf ≤ max
    → whole_file max fails pieces buf ≡ ok r
    → (length r.0 ≤ max) × (r.1 ≡ false → r.0 ≡ buf ++ flat (λ p. p) pieces)
unfolding whole_file
whole_file_lem max true [] buf r fits h = cc
whole_file_lem max false [] buf r fits h =
    let e = ok-content (buf, false) r h in
    (subst (λ x. length x.0 ≤ max) e fits, λ k. ap (λ x. x.0) (sym e) ∙ sym (append-nil buf))
whole_file_lem max fails (piece ∷ pieces) buf r fits h =
    elim (Bool-cases (ltb (max - length buf) (length piece))) [
      | inl cut ↦
          let now : whole_file max fails (piece ∷ pieces) buf
              ≡ ok (buf ++ take (max - length buf) piece, true) =
            rw (whole_file, cut) refl in
          let e = ok-content (buf ++ take (max - length buf) piece, true) r (sym now ∙ h) in
          let short : length (buf ++ take (max - length buf) piece) ≤ max = omega (
            arith,
            length-append buf (take (max - length buf) piece),
            length-take (max - length buf) piece,
            fits,
          ) in
          (subst (λ x. length x.0 ≤ max) e short, λ k. cc (ap (λ x. x.1) e, k))
      | inr whole ↦
          let now : whole_file max fails (piece ∷ pieces) buf
              ≡ whole_file max fails pieces (buf ++ piece) =
            rw (whole_file, whole) refl in
          let room : length (buf ++ piece) ≤ max = ground (arith, length-append buf piece) in
          let (short, all) = whole_file_lem max fails pieces (buf ++ piece) r room (sym now ∙ h) in
          (short, λ k. all k ∙ append_assoc buf piece (flat (λ p. p) pieces))
    ]

module _ (req : ReadFileRequest) where
  -- The line of that number was asked for.
  abbrev pub is_wanted : ℕ → Bool
  is_wanted i = leb req.start_line i && (nat_beq req.end_line 0 || leb i req.end_line)

  abbrev pub wanted_lines : ℕ → List Text → List Text
  wanted_lines ln [] = []
  wanted_lines ln (line ∷ lines) =
      let rest = wanted_lines (suc ln) lines in if is_wanted (suc ln) then line ∷ rest else rest

  past_end :
      (ln : ℕ) (lines : List Text)
      → 0 < req.end_line
      → req.end_line ≤ ln
      → wanted_lines ln lines ≡ []
  past_end ln [] h k = refl
  past_end ln (line ∷ lines) h k = ground (arith, past_end (suc ln) lines)

  abbrev pub with_newline : Text → Text
  with_newline line = line ++ 10 ∷ []

  pub line_range_lem :
      (fails : Bool) (ln : ℕ) (lines : List Text) (out : Text) (last : ℕ) (r : LineRange)
      → length out ≤ req.max_bytes
      → line_range req fails ln lines out last ≡ ok r
      → (length r.content ≤ req.max_bytes)
        × (r.truncated ≡ false → r.content ≡ out ++ flat with_newline (wanted_lines ln lines))
  unfolding line_range
  line_range_lem true ln [] out last r fits h = cc
  line_range_lem false ln [] out last r fits h =
      let e = ok-content (record { content = out; last_line = last; truncated = false }) r h in
      (
        subst (λ x. length x.content ≤ req.max_bytes) e fits,
        λ k. ap (λ x. x.content) (sym e) ∙ sym (append-nil out),
      )
  line_range_lem fails ln (line ∷ lines) out last r fits h =
      elim (Bool-cases (ltb 0 req.start_line && ltb (suc ln) req.start_line)) [
        | inl before ↦
            let now : line_range req fails ln (line ∷ lines) out last
                ≡ line_range req fails (suc ln) lines out last =
              rw (line_range, before) refl in
            let unwanted : is_wanted (suc ln) ≡ false = ground arith in
            let (short, all) = line_range_lem fails (suc ln) lines out last r fits (sym now ∙ h) in
            (short, λ k. rw unwanted (all k))
        | inr started ↦ elim (Bool-cases (ltb 0 req.end_line && ltb req.end_line (suc ln))) [
          | inl ended ↦
              let stop : LineRange = record {
                content = out;
                last_line = last;
                truncated = false;
              } in
              let now : line_range req fails ln (line ∷ lines) out last ≡ ok stop =
                rw (line_range, started, ended) refl in
              let e = ok-content stop r (sym now ∙ h) in
              let none_left : wanted_lines ln (line ∷ lines) ≡ [] =
                past_end ln (line ∷ lines) (ground arith) (ground arith) in
              (
                subst (λ x. length x.content ≤ req.max_bytes) e fits,
                λ k.
                    ap (λ x. x.content) (sym e)
                    ∙ (sym (append-nil out) ∙ ap (λ l. out ++ flat with_newline l) (sym none_left)),
              )
          | inr going ↦ elim (Bool-cases (ltb req.max_bytes (length out + length line + 1))) [
            | inl full ↦
                let stop : LineRange = record {
                  content = out;
                  last_line = last;
                  truncated = true;
                } in
                let now : line_range req fails ln (line ∷ lines) out last ≡ ok stop =
                  rw (line_range, started, going, full) refl in
                let e = ok-content stop r (sym now ∙ h) in
                (
                  subst (λ x. length x.content ≤ req.max_bytes) e fits,
                  λ k. cc (ap (λ x. x.truncated) e, k),
                )
            | inr fitting ↦
                let longer = out ++ with_newline line in
                let now : line_range req fails ln (line ∷ lines) out last
                    ≡ line_range req fails (suc ln) lines longer (suc ln) =
                  rw (line_range, started, going, fitting) refl in
                let room : length longer ≤ req.max_bytes =
                  ground
                    (arith, length-append out (with_newline line), length-append line (10 ∷ [])) in
                let wanted : is_wanted (suc ln) ≡ true = ground arith in
                let (short, all) =
                  line_range_lem fails (suc ln) lines longer (suc ln) r room (sym now ∙ h) in
                (
                  short,
                  λ k. rw wanted (
                      all k
                      ∙ append_assoc out (with_newline line)
                          (flat with_newline (wanted_lines (suc ln) lines))),
                )
          ]
        ]
      ]
