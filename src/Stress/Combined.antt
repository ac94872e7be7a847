-- ===== src/Stress/Combined.antt =====
-- scripts/lab/overnight-combined-stress.py: the mid and the bank lab on one cable, the long loopback
-- on another. Its loop is that of the parent module.
use unitor_win64_driver.Base.{
  ℕ, ◌+◌, ◌||◌, Option, List, [], ◌∷◌, ◌++◌, Text, codes, ltb, ◌==◌, is_blank,
}
use unitor_win64_driver.Options.{switch, text, num, seconds, CommandLine, first_refusal}
use unitor_win64_driver.Stress.{Label, mid, bank, long, CycleStats, new_stats, Cycle, cycle_loop}

-- The options; `hours` and the other times are in milliseconds.
pub record Args : Type 0 where
  pub hours : ℕ
  pub fresh_starts : ℕ
  pub mid_count : ℕ
  pub bank_count : ℕ
  pub long_count : ℕ
  pub long_sizes : Text
  pub long_interval : ℕ
  pub long_reply_timeout : ℕ
  pub cycle_gap : ℕ
  pub matrix_out : Text
  pub matrix_in : Text
  pub long_out : Text
  pub long_in : Text

unfoldable pub matrix_child_args : Args → Text → ℕ → CommandLine
matrix_child_args args bridge count =
    (codes "--with-bridge", switch)
    ∷ (codes "--bridge-exe", text bridge)
    ∷ (codes "--out-port", text args.matrix_out)
    ∷ (codes "--in-port", text args.matrix_in)
    ∷ (codes "--pass-percent", num 100)
    ∷ (codes "--fresh-starts", num args.fresh_starts)
    ∷ (codes "--count", num count)
    ∷ []

unfoldable pub long_child_args : Args → Text → CommandLine
long_child_args args bridge =
    (codes "--with-bridge", switch)
    ∷ (codes "--bridge-exe", text bridge)
    ∷ (codes "--out-port", text args.long_out)
    ∷ (codes "--in-port", text args.long_in)
    ∷ (codes "--pass-percent", num 100)
    ∷ (codes "--fresh-starts", num args.fresh_starts)
    ∷ (codes "--count", num args.long_count)
    ∷ (codes "--interval", seconds args.long_interval)
    ∷ (codes "--reply-timeout", seconds args.long_reply_timeout)
    ∷ (codes "--sizes", text args.long_sizes)
    ∷ []

-- The options of a phase's child, with the name of its log directory from `_phase_dir`
unfoldable pub child_command : (ℕ → Label → Text) → Args → Text → ℕ → Label → CommandLine
unfolding matrix_child_args long_child_args
child_command dir args bridge cycle mid =
    matrix_child_args args bridge args.mid_count ++ (codes "--log-dir", text (dir cycle mid)) ∷ []
child_command dir args bridge cycle bank =
    matrix_child_args args bridge args.bank_count ++ (codes "--log-dir", text (dir cycle bank)) ∷ []
child_command dir args bridge cycle long =
    long_child_args args bridge ++ (codes "--log-dir", text (dir cycle long)) ∷ []

-- The checks of `main`
unfoldable pub main_refusal : Args → Option Text
main_refusal args = first_refusal (
    (args.hours == 0, codes "--hours must be > 0")
    ∷ (ltb args.fresh_starts 1, codes "--fresh-starts must be >= 1")
    ∷ (
      ltb args.mid_count 1 || ltb args.bank_count 1 || ltb args.long_count 1,
      codes "--mid-count, --bank-count, and --long-count must be >= 1",
    )
    ∷ (ltb args.long_interval 50, codes "--long-interval must be >= 0.05")
    ∷ (args.long_reply_timeout == 0, codes "--long-reply-timeout must be > 0")
    ∷ (is_blank args.matrix_out, codes "--matrix-out must be non-empty")
    ∷ (is_blank args.matrix_in, codes "--matrix-in must be non-empty")
    ∷ (is_blank args.long_out, codes "--long-out must be non-empty")
    ∷ (is_blank args.long_in, codes "--long-in must be non-empty")
    ∷ [])

-- `run_overnight` begun at `start`: the cycles and the counters of the summary. The status is 0
-- whatever they are.
unfoldable pub run_overnight :
    (ℕ → Label → Text) → Args → Text → ℕ → List Cycle → Option (ℕ × CycleStats)
unfolding cycle_loop
run_overnight dir args bridge start cycles =
    cycle_loop (start + args.hours) args.cycle_gap (child_command dir args bridge)
      (mid ∷ bank ∷ long ∷ []) 0 new_stats cycles
