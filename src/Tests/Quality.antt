-- ===== src/Tests/Quality.antt =====
-- Theorems of the quality gate at a small working tree and its diff.
use unitor_win64_driver.Base.{
  ◌-◌, ◌≡◌, refl, ◌↔◌, ◌⊎◌, arith, true, false, ◌&&◌, ◌||◌, List, [], ◌∷◌, ◌++◌, none, some, Text,
  codes, ok, equal, All,
}
use unitor_win64_driver.Quality.Lines.{line_range, before_comment, max_nesting_in_range}
use unitor_win64_driver.Quality.Lines.Nesting.{
  Code, nil, other, block, text, height, code_of, max_nesting_in_range-height,
}
use unitor_win64_driver.Quality.Paths.{normalised}
use unitor_win64_driver.Quality.Hunks.{lines_of, has_line, IngestState, ingest_lines}
use unitor_win64_driver.Quality.Hunks.Headers.{
  Hunk, DiffLine, hunk, body, texts, covered, ingest_lines-file,
}
use unitor_win64_driver.Quality.Findings.{RawFunction, Repository}
use unitor_win64_driver.Quality.Findings.Laws.{IsClean}
use unitor_win64_driver.Quality.Gate.{GitOutput, Args, collect_changed_files, main}
use unitor_win64_driver.Quality.Gate.Laws.{touched, main-touched}

abbrev path : Text
path = codes "scripts/a.py"

abbrev one_function : RawFunction
one_function = record {
  name = codes "f";
  start_line = 1;
  end_line = 2;
  nloc = 2;
  parameter_count = 1;
  full_parameters = codes "x" ∷ [];
  cyclomatic_complexity = 1;
}

abbrev repo : Repository
repo = record {
  is_file = λ f. true;
  read_text = λ f. codes "def f(x):\n    return x\n";
  lizard = λ f. ok (one_function ∷ []);
  base_exists = λ b. true;
  show = λ b f. some (codes "x = 1\n");
}

abbrev git : GitOutput
git = record {
  diff_head = path ∷ [];
  diff_cached = [];
  untracked = [];
  diff_base = λ b. path ∷ [];
  blob_head = codes "+++ b/scripts/a.py\n@@ -1 +1,2 @@\n";
  blob_cached = [];
  blob_base = λ b. [];
  ls_files = λ p. path ∷ [];
}

abbrev args : Args
args = record { base = codes "main"; all = false; clang_tidy = false }

main-touched_example :
    ((main repo git (λ fs. 0) args ≡ 0)
      ↔ All
          (λ rel. IsClean repo rel (touched repo git args.base rel) (some args.base) false)
          (collect_changed_files repo git args.base))
    × ((main repo git (λ fs. 0) args ≡ 0) ⊎ (main repo git (λ fs. 0) args ≡ 1))
main-touched_example = main-touched repo git (λ fs. 0) args refl refl refl

-- Two nested blocks
abbrev blocks : Code
blocks = block (other b'y' (block nil nil)) nil

abbrev block_lines : List Text
block_lines = codes "{y{// }" ∷ codes "}}" ∷ []

block_lines_code : code_of (line_range block_lines 1 2) ≡ text blocks
unfolding before_comment
block_lines_code = refl

max_nesting_in_range-height_example : max_nesting_in_range block_lines 1 2 ≡ height blocks - 1
max_nesting_in_range-height_example =
    max_nesting_in_range-height block_lines 1 2 blocks (ground arith) block_lines_code

abbrev first_hunk : Hunk
first_hunk = record {
  old_start = 3;
  old_count = some 0;
  start = 4;
  count = some 2;
  tail = codes " def f";
}

abbrev diff_lines : List DiffLine
diff_lines = hunk first_hunk ∷ body (codes "+    x = 1") ∷ body (codes "+    y = 2") ∷ []

abbrev no_file : IngestState
no_file = record { current = none; ranges = [] }

ingest_lines-file_example :
    has_line 5
      (lines_of path (ingest_lines no_file ((codes "+++ b/" ++ path) ∷ texts diff_lines)).ranges)
    ≡ ((equal (normalised path) path && covered 5 diff_lines)
        || has_line 5 (lines_of path no_file.ranges))
ingest_lines-file_example = ingest_lines-file no_file path path 5 diff_lines (
  tt,
  (
    record { no_file = refl; no_deletion = refl; no_header = refl },
    (record { no_file = refl; no_deletion = refl; no_header = refl }, tt),
  ),
)
