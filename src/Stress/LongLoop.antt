-- ===== src/Stress/LongLoop.antt =====
-- scripts/lab/overnight-long-loopback-stress.py: the long loopback, again and again, with a fresh
-- bridge each time. Its loop is that of the parent module.
use unitor_win64_driver.Base.{
  ℕ, ◌+◌, ◌||◌, Option, List, [], ◌∷◌, ◌++◌, Text, codes, ltb, ◌==◌, is_blank,
}
use unitor_win64_driver.Options.{switch, text, num, seconds, CommandLine, first_refusal}
use unitor_win64_driver.Stress.{Label, long, CycleStats, new_stats, Cycle, cycle_loop}

-- The options; `hours` and the other times are in milliseconds.
pub record Args : Type 0 where
  pub hours : ℕ
  pub fresh_starts : ℕ
  pub long_count : ℕ
  pub sizes : Text
  pub interval : ℕ
  pub reply_timeout : ℕ
  pub cycle_gap : ℕ
  pub out_port : Text
  pub in_port : Text

unfoldable pub long_child_args : Text → Args → CommandLine
long_child_args bridge args =
    (codes "--bridge-exe", text bridge)
    ∷ (codes "--fresh-starts", num args.fresh_starts)
    ∷ (codes "--count", num args.long_count)
    ∷ (codes "--sizes", text args.sizes)
    ∷ (codes "--interval", seconds args.interval)
    ∷ (codes "--reply-timeout", seconds args.reply_timeout)
    ∷ []

-- The options that `_run_child` puts in front
unfoldable pub child_base_args : Args → Text → CommandLine
child_base_args args log_dir =
    (codes "--with-bridge", switch)
    ∷ (codes "--out-port", text args.out_port)
    ∷ (codes "--in-port", text args.in_port)
    ∷ (codes "--pass-percent", num 100)
    ∷ (codes "--log-dir", text log_dir)
    ∷ []

unfoldable pub child_command : (ℕ → Label → Text) → Args → Text → ℕ → Label → CommandLine
unfolding long_child_args child_base_args
child_command dir args bridge cycle label =
    child_base_args args (dir cycle label) ++ long_child_args bridge args

-- The checks of `main`
unfoldable pub main_refusal : Args → Option Text
main_refusal args = first_refusal (
    (args.hours == 0, codes "--hours must be > 0")
    ∷ (ltb args.fresh_starts 1, codes "--fresh-starts must be >= 1")
    ∷ (ltb args.long_count 1, codes "--long-count must be >= 1")
    ∷ (ltb args.interval 50, codes "--interval must be >= 0.05")
    ∷ (args.reply_timeout == 0, codes "--reply-timeout must be > 0")
    ∷ (
      is_blank args.out_port || is_blank args.in_port,
      codes "--out-port and --in-port must be non-empty",
    )
    ∷ [])

unfoldable pub run_overnight :
    (ℕ → Label → Text) → Args → Text → ℕ → List Cycle → Option (ℕ × CycleStats)
unfolding cycle_loop
run_overnight dir args bridge start cycles =
    cycle_loop (start + args.hours) args.cycle_gap (child_command dir args bridge) (long ∷ []) 0
      new_stats cycles
