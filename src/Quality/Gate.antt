-- ===== src/Quality/Gate.antt =====
-- The run of scripts/quality/lint-touched.py: which files, and which exit status. What is printed is
-- not modelled.
pub mod Laws
use unitor_win64_driver.Base.{
  ℕ, zero, suc, Bool, true, false, ◌&&◌, ◌||◌, not, Option, none, some, List, [], ◌∷◌, ◌++◌, Text,
  codes, Bytes, ◌==◌, if◌then◌else◌, equal, sorted, text_le,
}
use unitor_win64_driver.Quality.Paths.{normalised, in_list, is_gate_target}
use unitor_win64_driver.Quality.Hunks.{Ranges, lines_of, ingest_blobs, mark_untracked}
use unitor_win64_driver.Quality.Findings.{Repository, Finding, analyse_file}

-- The outputs of git that the gate asks for, as lists of lines and as texts
pub record GitOutput : Type 0 where
  pub diff_head : List Text
  pub diff_cached : List Text
  pub untracked : List Text
  -- `git diff --name-only base...HEAD`
  pub diff_base : Text → List Text
  pub blob_head : Text
  pub blob_cached : Text
  -- `git diff -U0 base...HEAD`
  pub blob_base : Text → Text
  -- `git ls-files prefix`
  pub ls_files : Text → List Text

pub record Args : Type 0 where
  pub base : Text
  pub all : Bool
  pub clang_tidy : Bool

abbrev dedupe : List Text → List Text
dedupe [] = []
dedupe (x ∷ xs) = let rest = dedupe xs in if in_list x rest then rest else x ∷ rest

-- `{f.replace("\\", "/") for f in batch if is_gate_target(f)}`
abbrev targets : (Text → Bool) → List Text → List Text
targets is_file [] = []
targets is_file (f ∷ fs) =
    let rest = targets is_file fs in if is_gate_target is_file f then normalised f ∷ rest else rest

unfoldable pub sorted_targets : (Text → Bool) → List Text → List Text
sorted_targets is_file fs = sorted text_le (dedupe (targets is_file fs))

module _ (repo : Repository) (git : GitOutput) where
  unfoldable pub collect_changed_files : Text → List Text
  unfolding sorted_targets
  collect_changed_files base =
      let local = git.diff_head ++ (git.diff_cached ++ git.untracked) in
      sorted_targets repo.is_file
        (if repo.base_exists base then local ++ git.diff_base base else local)

  unfoldable pub collect_all_files : List Text
  unfolding sorted_targets
  collect_all_files = sorted_targets repo.is_file (
      git.ls_files (codes "src")
      ++ (git.ls_files (codes "tests")
          ++ (git.ls_files (codes "apps")
              ++ (git.ls_files (codes "lib")
                  ++ (git.ls_files (codes "tools") ++ git.ls_files (codes "scripts"))))))

  unfoldable pub parse_diff_line_ranges : Text → Ranges
  unfolding ingest_blobs mark_untracked
  parse_diff_line_ranges base =
      let local = git.blob_head ∷ git.blob_cached ∷ [] in
      let blobs = if repo.base_exists base then local ++ git.blob_base base ∷ [] else local in
      mark_untracked (is_gate_target repo.is_file) repo.read_text (ingest_blobs [] blobs)
        git.untracked

  -- `None` where the base is missing in touched mode
  unfoldable pub resolve_target_files : Bool → Text → Option (List Text)
  resolve_target_files full_tree base =
      if not full_tree && not (repo.base_exists base)
      then none
      else some (if full_tree then collect_all_files else collect_changed_files base)

  unfoldable pub analyse_each :
      (Text → Option (List ℕ)) → Option Text → Bool → List Text → List Finding
  analyse_each changed base full_tree [] = []
  analyse_each changed base full_tree (rel ∷ rels) =
      analyse_file repo rel (changed rel) base full_tree ++ analyse_each changed base full_tree rels

  unfoldable pub analyse_targets : List Text → Bool → Text → List Finding
  unfolding analyse_each
  analyse_targets files true base = analyse_each (λ rel. none) none true files
  analyse_targets files false base =
      let line_map = parse_diff_line_ranges base in
      analyse_each (λ rel. some (lines_of rel line_map)) (some base) false files

  unfoldable pub exit_after_report : List Finding → Bool → ℕ → ℕ
  exit_after_report [] full_tree tidy_rc = tidy_rc
  exit_after_report (f ∷ fs) full_tree tidy_rc = if full_tree then 0 else 1

  -- `main`; `tidy` is the exit status of `maybe_run_clang_tidy` on the files.
  unfoldable pub main : (List Text → ℕ) → Args → ℕ
  unfolding exit_after_report
  main tidy args = elim (resolve_target_files args.all args.base) [
    | none ↦ 1
    | some [] ↦ 0
    | some (f ∷ fs) ↦
        exit_after_report (analyse_targets (f ∷ fs) args.all args.base) args.all
          (if args.clang_tidy then tidy (f ∷ fs) else 0)
  ]
