-- ===== src/Sessions/Matrix.antt =====
-- The options that scripts/lab/sysex-matrix-mid-loop.py and sysex-matrix-bank-loop.py give to the
-- child of a session.
use unitor_win64_driver.Base.{ℕ, Bool, ◌&&◌, not, [], ◌∷◌, ◌++◌, Text, codes, ◌==◌, if◌then◌else◌}
use unitor_win64_driver.Options.{switch, text, num, seconds, CommandLine}
use unitor_win64_driver.Options.Labs.{MidOptions, BankOptions}

-- The options that the checks do not read
pub record Ports : Type 0 where
  pub pass_percent : ℕ
  pub out_port : Text
  pub in_port : Text
  pub patch_fixture : Text
  pub master_fixture : Text

-- Pushes are for the first session only.
abbrev pub include_push : MidOptions → ℕ → Bool
include_push o start_index = start_index == 1 && not o.dumps_only

abbrev pub include_dump : MidOptions → Bool
include_dump o = not o.pushes_only

abbrev pub flag_unless : Bool → Text → CommandLine
flag_unless b flag = if b then [] else (flag, switch) ∷ []

-- `_run_midi_lab_in_fresh_process` of the mid lab, behind the name of the script
unfoldable pub mid_child : MidOptions → Ports → Text → ℕ → CommandLine
mid_child o p log_path start_index =
    ((codes "--count", num o.count)
      ∷ (codes "--interval", seconds o.interval)
      ∷ (codes "--reply-timeout", seconds o.reply_timeout)
      ∷ (codes "--pass-percent", num p.pass_percent)
      ∷ (codes "--out-port", text p.out_port)
      ∷ (codes "--in-port", text p.in_port)
      ∷ (codes "--patch-fixture", text p.patch_fixture)
      ∷ (codes "--master-fixture", text p.master_fixture)
      ∷ (codes "--log", text log_path)
      ∷ (codes "--start-index", num start_index)
      ∷ (codes "--append-log", switch)
      ∷ [])
    ++ (flag_unless (include_push o start_index) (codes "--dumps-only")
        ++ flag_unless (include_dump o) (codes "--pushes-only"))

-- The same of the bank lab
unfoldable pub bank_child : BankOptions → Ports → Text → ℕ → CommandLine
bank_child o p log_path start_index =
    (codes "--count", num o.count)
    ∷ (codes "--interval", seconds o.interval)
    ∷ (codes "--reply-timeout", seconds o.reply_timeout)
    ∷ (codes "--pass-percent", num p.pass_percent)
    ∷ (codes "--start-slot", num o.start_slot)
    ∷ (codes "--out-port", text p.out_port)
    ∷ (codes "--in-port", text p.in_port)
    ∷ (codes "--log", text log_path)
    ∷ (codes "--start-index", num start_index)
    ∷ (codes "--append-log", switch)
    ∷ []
