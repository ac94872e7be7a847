-- ===== src/Quality/Lines.antt =====
-- `splitlines`, and the line measures of scripts/quality/lint-touched.py.
pub mod Nesting
use unitor_win64_driver.Base.{
  ℕ, zero, suc, ◌+◌, ◌-◌, ◌/◌, ◌%◌, ◌≡◌, refl, Bool, true, false, ◌&&◌, ◌||◌, not, Option, none,
  some, List, [], ◌∷◌, ◌++◌, min, max, Text, codes, ltb, leb, ◌==◌, if◌then◌else◌, length, take,
  drop, starts_with, strip,
}

pub data Lang : Type 0 where
  cpp scripts : Lang

-- The characters at which `str.splitlines` ends a line
unfoldable pub is_line_break : ℕ → Bool
is_line_break c =
    (leb 10 c && leb c 13) || (leb 28 c && leb c 30) || c == 0x85 || c == 0x2028 || c == 0x2029

abbrev last_line : Text → List Text
last_line [] = []
last_line (c ∷ cs) = (c ∷ cs) ∷ []

-- The line read so far, and whether a carriage return stands just before
unfoldable pub lines_from : Bool → Text → Text → List Text
unfolding is_line_break
lines_from after_cr line [] = last_line line
lines_from after_cr line (c ∷ cs) =
    let rest = lines_from (c == 13) (if is_line_break c then [] else line ++ c ∷ []) cs in
    if is_line_break c && not (after_cr && c == 10) then line ∷ rest else rest

unfoldable pub splitlines : Text → List Text
unfolding lines_from
splitlines = lines_from false []

abbrev comment_mark : Lang → Text
comment_mark scripts = codes "#"
comment_mark cpp = codes "//"

-- A line that is neither blank nor a comment
abbrev pub is_useful_line : Lang → Text → Bool
is_useful_line lang raw =
    let line = strip raw in not (length line == 0) && not (starts_with (comment_mark lang) line)

unfoldable pub useful_lines : Lang → List Text → ℕ
useful_lines lang [] = 0
useful_lines lang (raw ∷ lines) =
    let rest = useful_lines lang lines in if is_useful_line lang raw then rest + 1 else rest

unfoldable pub useful_line_count : Text → Lang → ℕ
unfolding splitlines useful_lines
useful_line_count text lang = useful_lines lang (splitlines text)

-- `lines[start - 1 : min(end, len(lines))]`, for a line number `start` from 1 on
abbrev pub line_range : List Text → ℕ → ℕ → List Text
line_range lines start end_ = take (end_ - (start - 1)) (drop (start - 1) lines)

-- `line.split("//", 1)[0]`
unfoldable pub before_comment : Text → Text
before_comment [] = []
before_comment (c ∷ cs) =
    let rest = c ∷ before_comment cs in if starts_with (codes "//") (c ∷ cs) then [] else rest

-- `depth` and `max_depth`
pub record Depth : Type 0 where
  pub depth : ℕ
  pub max_depth : ℕ

unfoldable pub brace : Depth → ℕ → Depth
brace d c =
    if c == b'{'
    then record { depth = d.depth + 1; max_depth = max d.max_depth (d.depth + 1) }
    else if c == b'}'
    then record d { depth = d.depth - 1 }
    else d

unfoldable pub scan_line : Depth → Text → Depth
scan_line d [] = d
scan_line d (c ∷ cs) = scan_line (brace d c) cs

unfoldable pub scan_lines : Depth → List Text → Depth
scan_lines d [] = d
scan_lines d (line ∷ lines) = scan_lines (scan_line d (before_comment line)) lines

unfoldable pub max_nesting_in_range : List Text → ℕ → ℕ → ℕ
max_nesting_in_range lines start end_ =
    (scan_lines (record { depth = 0; max_depth = 0 }) (line_range lines start end_)).max_depth - 1

-- The columns of white space that begin a line, with tab stops at every fourth column
unfoldable pub indent_width : ℕ → Text → ℕ
indent_width column [] = column
indent_width column (c ∷ cs) =
    let next = indent_width (if c == b'\t' then column + (4 - column % 4) else column + 1) cs in
    if c == b' ' || c == b'\t' then next else column

-- `base` and `max_rel`
pub record Indent : Type 0 where
  pub base : Option ℕ
  pub max_rel : ℕ

abbrev indent_step : Indent → ℕ → Option ℕ → Indent
indent_step s width none = record s { base = some width }
indent_step s width (some base) =
    if leb width base then s else record s { max_rel = max s.max_rel ((width - base) / 4) }

unfoldable pub indent_line : Indent → Text → Indent
unfolding indent_width
indent_line s raw =
    if is_useful_line scripts raw then indent_step s (indent_width 0 raw) s.base else s

unfoldable pub indent_lines : Indent → List Text → Indent
indent_lines s [] = s
indent_lines s (raw ∷ lines) = indent_lines (indent_line s raw) lines

unfoldable pub max_py_nesting_in_range : List Text → ℕ → ℕ → ℕ
max_py_nesting_in_range lines start end_ =
    (indent_lines (record { base = none; max_rel = 0 }) (line_range lines start end_)).max_rel

unfoldable pub nesting_for_function : Lang → List Text → ℕ → ℕ → ℕ
nesting_for_function scripts lines start end_ = max_py_nesting_in_range lines start end_
nesting_for_function cpp lines start end_ = max_nesting_in_range lines start end_
