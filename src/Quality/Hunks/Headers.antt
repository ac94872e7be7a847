-- ===== src/Quality/Hunks/Headers.antt =====
-- The hunk headers that git writes are read back.
use unitor_win64_driver.Base.{
  ℕ, ◌+◌, ◌≡◌, refl, ◌∙◌, arith, Bool, false, ◌&&◌, ◌||◌, Option, none, some, List, [], ◌∷◌, ◌++◌,
  Text, codes, leb, ltb, equal, starts_with, is_digit, All, decimal, read_digits-decimal,
  decimal-is_digit, decimal-ne-nil,
}
use unitor_win64_driver.Quality.Paths.{normalised}
use unitor_win64_driver.Quality.Hunks.{
  Ranges, lines_of, has_line, add_lines, digits_from, optional_count, after, match_hunk,
  count_or_one, IngestState, ingest_line, ingest_lines,
}
use unitor_win64_driver.Quality.Hunks.Laws.{digits_from-append, lines_of-add_lines}

-- `@@ -old_start,old_count +start,count @@tail`; git leaves out a count of one.
pub record Hunk : Type 0 where
  pub old_start : ℕ
  pub old_count : Option ℕ
  pub start : ℕ
  pub count : Option ℕ
  pub tail : Text

abbrev pub count_text : Option ℕ → Text
count_text none = []
count_text (some n) = b',' ∷ decimal n

abbrev pub header : Hunk → Text
header h =
    codes "@@ -"
    ++ (decimal h.old_start
        ++ (count_text h.old_count
            ++ (codes " +"
                ++ (decimal h.start ++ (count_text h.count ++ (codes " @@" ++ h.tail))))))

digits_from-decimal :
    (n c : ℕ) (cs : Text)
    → is_digit c ≡ false
    → digits_from false 0 (decimal n ++ c ∷ cs) ≡ some (n, c ∷ cs)
digits_from-decimal n c cs h =
    digits_from-append false 0 (decimal n) (c ∷ cs) (decimal-is_digit n)
    ∙ rw (decimal-ne-nil n, read_digits-decimal n) (unfold digits_from in ground arith)

-- A number, a count or none, and a space behind them
digits_from-field :
    (n : ℕ) (o : Option ℕ) (cs : Text)
    → digits_from false 0 (decimal n ++ (count_text o ++ b' ' ∷ cs))
      ≡ some (n, count_text o ++ b' ' ∷ cs)
digits_from-field n none cs = digits_from-decimal n b' ' cs refl
digits_from-field n (some m) cs = digits_from-decimal n b',' (decimal m ++ b' ' ∷ cs) refl

optional_count-field :
    (o : Option ℕ) (cs : Text) → optional_count (count_text o ++ b' ' ∷ cs) ≡ (o, b' ' ∷ cs)
unfolding optional_count
optional_count-field none cs = refl
optional_count-field (some m) cs = rw (digits_from-decimal m b' ' cs refl)

-- Every header that git writes is read as its first new line and its count.
match_hunk-header : (h : Hunk) → match_hunk (header h) ≡ some (h.start, count_or_one h.count)
unfolding match_hunk
match_hunk-header h =
    let behind = b'@' ∷ b'@' ∷ h.tail in
    let new_side = decimal h.start ++ (count_text h.count ++ b' ' ∷ behind) in
    rw digits_from-field
      (rw optional_count-field (rw digits_from-field (rw optional_count-field refl)))

-- A line of a hunk's body: it begins none of the lines that the loop looks for.
pub record IsBody (line : Text) : Type 0 where
  pub no_file : starts_with (codes "+++ b/") line ≡ false
  pub no_deletion : starts_with (codes "+++ /dev/null") line ≡ false
  pub no_header : starts_with (codes "@@ -") line ≡ false

-- What git prints below a file's `+++` line
pub data DiffLine : Type 0 where
  hunk : Hunk → DiffLine
  body : Text → DiffLine

abbrev pub line_text : DiffLine → Text
line_text (hunk h) = header h
line_text (body line) = line

abbrev pub IsDiffLine : DiffLine → Type 0
IsDiffLine (hunk h) = Unit
IsDiffLine (body line) = IsBody line

abbrev pub texts : List DiffLine → List Text
texts [] = []
texts (l ∷ ls) = line_text l ∷ texts ls

-- Some hunk of the list covers the line `n` of the new file.
abbrev pub covered : ℕ → List DiffLine → Bool
covered n [] = false
covered n (hunk h ∷ ls) = (leb h.start n && ltb n (h.start + count_or_one h.count)) || covered n ls
covered n (body line ∷ ls) = covered n ls

ingest_line-header :
    (path : Text) (ranges : Ranges) (h : Hunk)
    → ingest_line (record { current = some path; ranges = ranges }) (header h) ≡ record {
      current = some path;
      ranges = add_lines path h.start (count_or_one h.count) ranges;
    }
unfolding ingest_line
ingest_line-header path ranges h = rw (match_hunk-header h)

match_hunk-body : (line : Text) → starts_with (codes "@@ -") line ≡ false → match_hunk line ≡ none
unfolding match_hunk
match_hunk-body line h = rw (h, after)

ingest_line-body :
    (path line : Text) (ranges : Ranges)
    → IsBody line
    → ingest_line (record { current = some path; ranges = ranges }) line
      ≡ record { current = some path; ranges = ranges }
unfolding ingest_line
ingest_line-body path line ranges h =
    ground (arith, h.no_file, h.no_deletion, match_hunk-body line h.no_header)

ingest_lines-covered :
    (path q : Text) (n : ℕ) (ls : List DiffLine) (ranges : Ranges)
    → All IsDiffLine ls
    → has_line n (
        lines_of q
          (ingest_lines (record { current = some path; ranges = ranges }) (texts ls)).ranges)
      ≡ ((equal path q && covered n ls) || has_line n (lines_of q ranges))
unfolding ingest_lines
ingest_lines-covered path q n [] ranges h = ground arith
ingest_lines-covered path q n (hunk k ∷ ls) ranges h =
    let marked = add_lines path k.start (count_or_one k.count) ranges in
    ground (
      arith,
      ingest_line-header path ranges k,
      ingest_lines-covered path q n ls marked h.1,
      lines_of-add_lines path q k.start (count_or_one k.count) n ranges,
    )
ingest_lines-covered path q n (body line ∷ ls) ranges h =
    ground
      (arith, ingest_line-body path line ranges h.0, ingest_lines-covered path q n ls ranges h.1)

file_line-current :
    (s : IngestState) (path : Text)
    → ingest_line s (codes "+++ b/" ++ path)
      ≡ record { current = some (normalised path); ranges = s.ranges }
unfolding ingest_line
file_line-current s path = refl

-- The diff of one file marks, besides what was marked before, exactly the lines of the new file that
-- its hunks cover, under the path of its `+++` line with forward slashes. The body lines of the
-- hunks must not look like a header or a `+++` line.
pub ingest_lines-file :
    (s : IngestState) (path q : Text) (n : ℕ) (ls : List DiffLine)
    → All IsDiffLine ls
    → has_line n (lines_of q (ingest_lines s ((codes "+++ b/" ++ path) ∷ texts ls)).ranges)
      ≡ ((equal (normalised path) q && covered n ls) || has_line n (lines_of q s.ranges))
unfolding ingest_lines
ingest_lines-file s path q n ls h =
    ground
      (arith, file_line-current s path, ingest_lines-covered (normalised path) q n ls s.ranges h)
