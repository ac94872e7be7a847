-- ===== src/Stress/Macos.antt =====
-- scripts/lab/overnight-macos-sysex-stress.py: the three labs without a bridge, on the driver
-- of macOS. Its loop is that of the parent module.
use unitor_win64_driver.Base.{ℕ, ◌+◌, ◌||◌, Option, List, [], ◌∷◌, ◌++◌, Text, codes, ltb, ◌==◌}
use unitor_win64_driver.Options.{text, num, seconds, CommandLine, first_refusal}
use unitor_win64_driver.Stress.{Label, mid, bank, long, CycleStats, new_stats, Cycle, cycle_loop}

-- The options; `hours` and the other times are in milliseconds.
pub record Args : Type 0 where
  pub hours : ℕ
  pub mid_count : ℕ
  pub bank_count : ℕ
  pub long_count : ℕ
  pub long_sizes : Text
  pub cycle_gap : ℕ
  pub matrix_out : Text
  pub matrix_in : Text
  pub long_out : Text
  pub long_in : Text

unfoldable pub matrix_child_args : Args → ℕ → CommandLine
matrix_child_args args count =
    (codes "--out-port", text args.matrix_out)
    ∷ (codes "--in-port", text args.matrix_in)
    ∷ (codes "--pass-percent", num 100)
    ∷ (codes "--fresh-sessions", num 1)
    ∷ (codes "--count", num count)
    ∷ []

unfoldable pub bank_child_args : Args → CommandLine
unfolding matrix_child_args
bank_child_args args =
    matrix_child_args args args.bank_count ++ (codes "--interval", seconds 10) ∷ []

unfoldable pub long_child_args : Args → CommandLine
long_child_args args =
    (codes "--out-port", text args.long_out)
    ∷ (codes "--in-port", text args.long_in)
    ∷ (codes "--pass-percent", num 100)
    ∷ (codes "--fresh-sessions", num 1)
    ∷ (codes "--count", num args.long_count)
    ∷ (codes "--interval", seconds 50)
    ∷ (codes "--reply-timeout", seconds 8000)
    ∷ (codes "--sizes", text args.long_sizes)
    ∷ []

-- The options of a phase's child, with the name of its log directory from `_phase_dir`
unfoldable pub child_command : (ℕ → Label → Text) → Args → ℕ → Label → CommandLine
unfolding matrix_child_args bank_child_args long_child_args
child_command dir args cycle mid =
    matrix_child_args args args.mid_count ++ (codes "--log-dir", text (dir cycle mid)) ∷ []
child_command dir args cycle bank =
    bank_child_args args ++ (codes "--log-dir", text (dir cycle bank)) ∷ []
child_command dir args cycle long =
    long_child_args args ++ (codes "--log-dir", text (dir cycle long)) ∷ []

-- The checks of `main`
unfoldable pub main_refusal : Args → Option Text
main_refusal args = first_refusal (
    (args.hours == 0, codes "--hours must be > 0")
    ∷ (
      ltb args.mid_count 1 || ltb args.bank_count 1 || ltb args.long_count 1,
      codes "--mid-count, --bank-count, and --long-count must be >= 1",
    )
    ∷ [])

-- `run_overnight` begun at `start`: the cycles and the counters of the summary. The status is 0
-- whatever they are.
unfoldable pub run_overnight : (ℕ → Label → Text) → Args → ℕ → List Cycle → Option (ℕ × CycleStats)
unfolding cycle_loop
run_overnight dir args start cycles =
    cycle_loop (start + args.hours) args.cycle_gap (child_command dir args) (mid ∷ bank ∷ long ∷ [])
      0 new_stats cycles
