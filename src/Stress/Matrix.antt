-- ===== src/Stress/Matrix.antt =====
-- scripts/lab/overnight-matrix-stress.py: the mid and the bank lab, with a fresh bridge for each.
-- Its loop is that of the parent module.
use unitor_win64_driver.Base.{ℕ, ◌+◌, ◌||◌, Option, List, [], ◌∷◌, ◌++◌, Text, codes, ltb, ◌==◌}
use unitor_win64_driver.Options.{switch, text, num, CommandLine, first_refusal}
use unitor_win64_driver.Stress.{Label, mid, bank, long, CycleStats, new_stats, Cycle, cycle_loop}

-- The options; `hours` and the gap are in milliseconds.
pub record Args : Type 0 where
  pub hours : ℕ
  pub fresh_starts : ℕ
  pub mid_count : ℕ
  pub bank_count : ℕ
  pub cycle_gap : ℕ

unfoldable pub child_extra_args : Text → ℕ → ℕ → CommandLine
child_extra_args bridge fresh_starts count =
    (codes "--bridge-exe", text bridge)
    ∷ (codes "--fresh-starts", num fresh_starts)
    ∷ (codes "--count", num count)
    ∷ []

-- The options that `_run_child` puts in front
unfoldable pub child_base_args : Text → CommandLine
child_base_args log_dir =
    (codes "--with-bridge", switch)
    ∷ (codes "--out-port", text (codes "MT4 Out 1"))
    ∷ (codes "--in-port", text (codes "MT4 In 1"))
    ∷ (codes "--pass-percent", num 100)
    ∷ (codes "--log-dir", text log_dir)
    ∷ []

-- The counts of the phases; there is no long phase.
abbrev pub phase_count : Args → Label → ℕ
phase_count args mid = args.mid_count
phase_count args bank = args.bank_count
phase_count args long = 1

unfoldable pub child_command : (ℕ → Label → Text) → Args → Text → ℕ → Label → CommandLine
unfolding child_extra_args child_base_args
child_command dir args bridge cycle label =
    child_base_args (dir cycle label)
    ++ child_extra_args bridge args.fresh_starts (phase_count args label)

-- The checks of `main`
unfoldable pub main_refusal : Args → Option Text
main_refusal args = first_refusal (
    (args.hours == 0, codes "--hours must be > 0")
    ∷ (ltb args.fresh_starts 1, codes "--fresh-starts must be >= 1")
    ∷ (
      ltb args.mid_count 1 || ltb args.bank_count 1,
      codes "--mid-count and --bank-count must be >= 1",
    )
    ∷ [])

unfoldable pub run_overnight :
    (ℕ → Label → Text) → Args → Text → ℕ → List Cycle → Option (ℕ × CycleStats)
unfolding cycle_loop
run_overnight dir args bridge start cycles =
    cycle_loop (start + args.hours) args.cycle_gap (child_command dir args bridge) (mid ∷ bank ∷ [])
      0 new_stats cycles
