-- ===== src/Quality/Lines/Nesting.antt =====
-- The brace count of C++ functions against the tree of their blocks.
use unitor_win64_driver.Base.{
  ℕ, ◌+◌, ◌-◌, ◌≤◌, ◌≡◌, ◌≢◌, refl, sym, ap, ◌∙◌, arith, List, [], ◌∷◌, ◌++◌, append_assoc,
  append-nil, Text, max,
}
use unitor_win64_driver.Quality.Lines.{
  line_range, before_comment, Depth, brace, scan_line, scan_lines, max_nesting_in_range,
}

-- Text with matching braces: other characters, and blocks
pub data Code : Type 0 where
  nil : Code
  other : ℕ → Code → Code
  block : Code → Code → Code

abbrev pub text : Code → Text
text nil = []
text (other c rest) = c ∷ text rest
text (block inner rest) = b'{' ∷ (text inner ++ b'}' ∷ text rest)

-- How deep the blocks are nested
abbrev pub height : Code → ℕ
height nil = 0
height (other c rest) = height rest
height (block inner rest) = max (1 + height inner) (height rest)

-- The other characters are no braces.
abbrev pub IsPlain : Code → Type 0
IsPlain nil = Unit
IsPlain (other c rest) = (c ≢ b'{') × (c ≢ b'}') × IsPlain rest
IsPlain (block inner rest) = IsPlain inner × IsPlain rest

scan_line-text :
    (d m : ℕ) (code : Code) (rest : Text)
    → IsPlain code
    → d ≤ m
    → scan_line (record { depth = d; max_depth = m }) (text code ++ rest)
      ≡ scan_line (record { depth = d; max_depth = max m (d + height code) }) rest
unfolding scan_line brace
scan_line-text d m nil rest h le = let e : max m (d + 0) ≡ m = omega arith in rw e
scan_line-text d m (other c code) rest h le = ground (arith, scan_line-text d m code rest h.2 le)
scan_line-text d m (block inner code) rest h le =
    let inside = max (max m (d + 1)) (d + 1 + height inner) in
    let opened =
      scan_line-text (d + 1) (max m (d + 1)) inner (b'}' ∷ (text code ++ rest)) h.0 (omega arith) in
    let closed = scan_line-text d inside code rest h.1 (omega arith) in
    let back : d + 1 - 1 ≡ d = omega arith in
    let peak : max inside (d + height code) ≡ max m (d + max (1 + height inner) (height code)) =
      omega arith in
    let at_brace : scan_line (record { depth = d + 1; max_depth = inside })
          (b'}' ∷ (text code ++ rest))
        ≡ scan_line (record { depth = d; max_depth = inside }) (text code ++ rest) =
      rw (back, scan_line) refl in
    rw (append_assoc (text inner) (b'}' ∷ text code) rest) (
      opened
      ∙ at_brace
      ∙ closed
      ∙ ap (λ (t : ℕ). scan_line (record { depth = d; max_depth = t }) rest) peak)

-- The code of a range of lines, comments cut off
abbrev pub code_of : List Text → Text
code_of [] = []
code_of (line ∷ lines) = before_comment line ++ code_of lines

scan_line-append :
    (d : Depth) (xs ys : Text) → scan_line d (xs ++ ys) ≡ scan_line (scan_line d xs) ys
unfolding scan_line
scan_line-append d [] ys = refl
scan_line-append d (c ∷ xs) ys = scan_line-append (brace d c) xs ys

scan_lines-code_of :
    (d : Depth) (lines : List Text) → scan_lines d lines ≡ scan_line d (code_of lines)
unfolding scan_lines scan_line
scan_lines-code_of d [] = refl
scan_lines-code_of d (line ∷ lines) =
    scan_lines-code_of (scan_line d (before_comment line)) lines
    ∙ sym (scan_line-append d (before_comment line) (code_of lines))

-- Where the lines of a function, comments cut off, are text with matching braces, its nesting is
-- the depth of the tree of blocks, not counting the outermost.
pub max_nesting_in_range-height :
    (lines : List Text) (start end_ : ℕ) (code : Code)
    → IsPlain code
    → code_of (line_range lines start end_) ≡ text code
    → max_nesting_in_range lines start end_ ≡ height code - 1
unfolding max_nesting_in_range scan_line
max_nesting_in_range-height lines start end_ code h e =
    let d0 : Depth = record { depth = 0; max_depth = 0 } in
    let walked = scan_lines-code_of d0 (line_range lines start end_) in
    let counted = scan_line-text 0 0 code [] h (omega arith) in
    let read : scan_lines d0 (line_range lines start end_)
        ≡ record { depth = 0; max_depth = max 0 (0 + height code) } =
      walked ∙ rw e (rw append-nil at counted) in
    rw read (omega arith)
