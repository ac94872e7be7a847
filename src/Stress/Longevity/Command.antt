-- ===== src/Stress/Longevity/Command.antt =====
-- The options of scripts/lab/wms-session-longevity-stress.py, and those that it gives to its
-- children: none of them starts a bridge.
use unitor_win64_driver.Base.{ℕ, ◌||◌, Option, [], ◌∷◌, ◌++◌, Text, codes, ltb, ◌==◌, is_blank}
use unitor_win64_driver.Options.{text, num, seconds, CommandLine, first_refusal}
use unitor_win64_driver.Stress.{Label, mid, bank, long}

-- The options; `hours` and the other times are in milliseconds.
pub record Args : Type 0 where
  pub hours : ℕ
  pub mid_count : ℕ
  pub bank_count : ℕ
  pub long_count : ℕ
  pub long_sizes : Text
  pub long_interval : ℕ
  pub long_reply_timeout : ℕ
  pub cycle_gap : ℕ
  pub matrix_out : Text
  pub matrix_in : Text
  pub long_out : Text
  pub long_in : Text
  pub bridge_ready_timeout : ℕ

unfoldable pub matrix_child_args : Args → ℕ → CommandLine
matrix_child_args args count =
    (codes "--out-port", text args.matrix_out)
    ∷ (codes "--in-port", text args.matrix_in)
    ∷ (codes "--pass-percent", num 100)
    ∷ (codes "--count", num count)
    ∷ []

unfoldable pub long_child_args : Args → CommandLine
long_child_args args =
    (codes "--out-port", text args.long_out)
    ∷ (codes "--in-port", text args.long_in)
    ∷ (codes "--pass-percent", num 100)
    ∷ (codes "--count", num args.long_count)
    ∷ (codes "--interval", seconds args.long_interval)
    ∷ (codes "--reply-timeout", seconds args.long_reply_timeout)
    ∷ (codes "--sizes", text args.long_sizes)
    ∷ []

-- The options of a phase's child, with the name of its log directory from `_phase_dir`
unfoldable pub child_command : (ℕ → Label → Text) → Args → ℕ → Label → CommandLine
unfolding matrix_child_args long_child_args
child_command dir args cycle mid =
    matrix_child_args args args.mid_count ++ (codes "--log-dir", text (dir cycle mid)) ∷ []
child_command dir args cycle bank =
    matrix_child_args args args.bank_count ++ (codes "--log-dir", text (dir cycle bank)) ∷ []
child_command dir args cycle long =
    long_child_args args ++ (codes "--log-dir", text (dir cycle long)) ∷ []

-- The checks of `main`
unfoldable pub main_refusal : Args → Option Text
main_refusal args = first_refusal (
    (args.hours == 0, codes "--hours must be > 0")
    ∷ (
      ltb args.mid_count 1 || ltb args.bank_count 1 || ltb args.long_count 1,
      codes "--mid-count, --bank-count, and --long-count must be >= 1",
    )
    ∷ (ltb args.long_interval 50, codes "--long-interval must be >= 0.05")
    ∷ (args.long_reply_timeout == 0, codes "--long-reply-timeout must be > 0")
    ∷ (args.bridge_ready_timeout == 0, codes "--bridge-ready-timeout must be > 0")
    ∷ (is_blank args.matrix_out, codes "--matrix-out must be non-empty")
    ∷ (is_blank args.matrix_in, codes "--matrix-in must be non-empty")
    ∷ (is_blank args.long_out, codes "--long-out must be non-empty")
    ∷ (is_blank args.long_in, codes "--long-in must be non-empty")
    ∷ [])
