-- ===== src/Quality/Hunks.antt =====
-- `parse_diff_line_ranges` of scripts/quality/lint-touched.py: which new-file lines a diff touches.
pub mod Laws
pub mod Headers
use unitor_win64_driver.Base.{
  ℕ, zero, suc, ◌+◌, ◌-◌, ◌*◌, Bool, true, false, ◌&&◌, ◌||◌, not, Option, none, some, List, [],
  ◌∷◌, ◌++◌, Text, codes, leb, ◌==◌, if◌then◌else◌, length, drop, equal, starts_with, is_digit,
  ◌>>=◌,
}
use unitor_win64_driver.Quality.Lines.{splitlines}
use unitor_win64_driver.Quality.Paths.{normalised}

-- `ranges`: the touched lines of each path. A set is a list read by `has_line`.
abbrev pub Ranges : Type 0
Ranges = List (Text × List ℕ)

-- `ranges.get(path, set())`
unfoldable pub lines_of : Text → Ranges → List ℕ
lines_of path [] = []
lines_of path ((p, ns) ∷ ranges) = if equal p path then ns else lines_of path ranges

abbrev pub has_line : ℕ → List ℕ → Bool
has_line n [] = false
has_line n (m ∷ ms) = n == m || has_line n ms

-- `ranges[path].add(n)`
unfoldable pub add_line : Text → ℕ → Ranges → Ranges
add_line path n [] = (path, n ∷ []) ∷ []
add_line path n ((p, ns) ∷ ranges) =
    if equal p path then (p, n ∷ ns) ∷ ranges else (p, ns) ∷ add_line path n ranges

-- `for n in range(start, start + count): ranges[path].add(n)`
unfoldable pub add_lines : Text → ℕ → ℕ → Ranges → Ranges
add_lines path start zero ranges = ranges
add_lines path start (suc count) ranges =
    add_lines path (start + 1) count (add_line path start ranges)

-- `\d+` at the head of a text, with `int` of it: the digits read so far, and what follows
unfoldable pub digits_from : Bool → ℕ → Text → Option (ℕ × Text)
digits_from seen n [] = if seen then some (n, []) else none
digits_from seen n (c ∷ cs) =
    let more = digits_from true (n * 10 + (c - 48)) cs in
    if is_digit c then more else if seen then some (n, c ∷ cs) else none

-- `(?:,(\d+))?`: without digits behind the comma the group matches nothing.
abbrev comma_count : Text → Option (ℕ × Text) → Option ℕ × Text
comma_count s none = (none, s)
comma_count s (some (n, rest)) = (some n, rest)

unfoldable pub optional_count : Text → Option ℕ × Text
unfolding digits_from
optional_count [] = (none, [])
optional_count (c ∷ cs) =
    if c == b',' then comma_count (c ∷ cs) (digits_from false 0 cs) else (none, c ∷ cs)

-- The text behind a fixed piece
unfoldable pub after : Text → Text → Option Text
after piece s = if starts_with piece s then some (drop (length piece) s) else none

-- `int(match.group(2) or "1")`
abbrev pub count_or_one : Option ℕ → ℕ
count_or_one none = 1
count_or_one (some n) = n

-- `hunk_re.match(line)`: the first new line and the count of the header. Each piece of the pattern
-- can match in one way only, so reading from left to right is the regular expression's match.
unfoldable pub match_hunk : Text → Option (ℕ × ℕ)
unfolding after digits_from optional_count
match_hunk line = do
  s ← after (codes "@@ -") line
  (old, s1) ← digits_from false 0 s
  s2 ← after (codes " +") (optional_count s1).1
  (start, s3) ← digits_from false 0 s2
  s4 ← after (codes " @@") (optional_count s3).1
  some (start, count_or_one (optional_count s3).0)

-- `current` and `ranges`
pub record IngestState : Type 0 where
  pub current : Option Text
  pub ranges : Ranges

abbrev add_hunk : IngestState → Option Text → Option (ℕ × ℕ) → IngestState
add_hunk s none hunk = s
add_hunk s (some path) none = s
add_hunk s (some path) (some (start, count)) = record s {
  ranges = add_lines path start count s.ranges;
}

-- One round of the loop. A count of zero adds no line, as its `continue` does.
unfoldable pub ingest_line : IngestState → Text → IngestState
ingest_line s line =
    if starts_with (codes "+++ b/") line
    then record s { current = some (normalised (drop 6 line)) }
    else if starts_with (codes "+++ /dev/null") line
    then record s { current = none }
    else add_hunk s s.current (match_hunk line)

unfoldable pub ingest_lines : IngestState → List Text → IngestState
ingest_lines s [] = s
ingest_lines s (line ∷ lines) = ingest_lines (ingest_line s line) lines

-- `ingest(diff_text)`
unfoldable pub ingest : Ranges → Text → Ranges
ingest ranges diff_text =
    (ingest_lines (record { current = none; ranges = ranges }) (splitlines diff_text)).ranges

-- The blobs in turn; an empty one is skipped.
unfoldable pub ingest_blobs : Ranges → List Text → Ranges
unfolding ingest
ingest_blobs ranges [] = ranges
ingest_blobs ranges (blob ∷ blobs) =
    ingest_blobs (if equal blob [] then ranges else ingest ranges blob) blobs

-- `set(range(1, count + 1))`
unfoldable pub numbers_from : ℕ → ℕ → List ℕ
numbers_from start zero = []
numbers_from start (suc count) = start ∷ numbers_from (start + 1) count

-- `ranges[path] = lines`
unfoldable pub set_lines : Text → List ℕ → Ranges → Ranges
set_lines path lines [] = (path, lines) ∷ []
set_lines path lines ((p, ns) ∷ ranges) =
    if equal p path then (p, lines) ∷ ranges else (p, ns) ∷ set_lines path lines ranges

-- The untracked files: each gate target counts as touched on all of its lines.
module _ (is_target : Text → Bool) (read_text : Text → Text) where
  unfoldable pub mark_untracked : Ranges → List Text → Ranges
  unfolding numbers_from set_lines
  mark_untracked ranges [] = ranges
  mark_untracked ranges (rel ∷ rels) =
      let norm = normalised rel in
      let lines = numbers_from 1 (length (splitlines (read_text norm))) in
      mark_untracked (if is_target norm then set_lines norm lines ranges else ranges) rels

-- `function_intersects`; `none` stands for no restriction.
unfoldable pub touches : List ℕ → List ℕ → Bool
touches [] changed = false
touches (line ∷ lines) changed = has_line line changed || touches lines changed

unfoldable pub function_intersects : ℕ → ℕ → Option (List ℕ) → Bool
unfolding numbers_from touches
function_intersects start end_ none = true
function_intersects start end_ (some []) = false
function_intersects start end_ (some (n ∷ ns)) =
    touches (numbers_from start (end_ + 1 - start)) (n ∷ ns)
