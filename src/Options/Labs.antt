-- ===== src/Options/Labs.antt =====
-- The options of the three SysEx labs: `validate_cli_args` of sysex_matrix_mid_loop_lib.py,
-- sysex_matrix_bank_loop_lib.py and sysex_long_loopback_lib.py, and `_validate_lab_mode` of the
-- scripts, all under scripts/lab.
use unitor_win64_driver.Base.{ℕ, Bool, ◌&&◌, Option, [], ◌∷◌, Text, codes, ltb, ◌==◌}
use unitor_win64_driver.Options.{CommandLine, num_of, seconds_of, text_of, has, first_refusal}

pub record MidOptions : Type 0 where
  pub count : ℕ
  pub interval : ℕ
  pub reply_timeout : ℕ
  pub bridge_ready_timeout : ℕ
  pub with_bridge : Bool
  pub fresh_starts : ℕ
  pub fresh_sessions : ℕ
  pub dumps_only : Bool
  pub pushes_only : Bool
  pub append_log : Bool

-- `build_parser().parse_args(argv)` of the mid lab, as far as the checks read it
unfoldable pub mid_options : CommandLine → MidOptions
mid_options argv = record {
  count = num_of (codes "--count") 10 argv;
  interval = seconds_of (codes "--interval") 1000 argv;
  reply_timeout = seconds_of (codes "--reply-timeout") 3000 argv;
  bridge_ready_timeout = seconds_of (codes "--bridge-ready-timeout") 45000 argv;
  with_bridge = has (codes "--with-bridge") argv;
  fresh_starts = num_of (codes "--fresh-starts") 2 argv;
  fresh_sessions = num_of (codes "--fresh-sessions") 1 argv;
  dumps_only = has (codes "--dumps-only") argv;
  pushes_only = has (codes "--pushes-only") argv;
  append_log = has (codes "--append-log") argv;
}

unfoldable pub validate_mid : MidOptions → Option Text
validate_mid o = first_refusal (
    (ltb o.count 1, codes "--count must be >= 1")
    ∷ (o.interval == 0, codes "--interval must be > 0")
    ∷ (o.reply_timeout == 0, codes "--reply-timeout must be > 0")
    ∷ (o.bridge_ready_timeout == 0, codes "--bridge-ready-timeout must be > 0")
    ∷ (ltb o.fresh_starts 1, codes "--fresh-starts must be >= 1")
    ∷ (ltb o.fresh_sessions 1, codes "--fresh-sessions must be >= 1")
    ∷ (o.dumps_only && o.pushes_only, codes "Use only one of --dumps-only / --pushes-only")
    ∷ [])

abbrev pub sessions_message : Text
sessions_message =
    codes
      "Use --fresh-starts with --with-bridge; --fresh-sessions is for MIDI-only (no Bridge) runs."

abbrev pub append_message : Text
append_message =
    codes
      "--append-log cannot be combined with --fresh-sessions > 1 (append-log is reserved for child session processes)."

-- `_validate_lab_mode` of the mid lab
unfoldable pub validate_mid_mode : MidOptions → Option Text
validate_mid_mode o = first_refusal (
    (o.with_bridge && ltb 1 o.fresh_sessions, sessions_message)
    ∷ (ltb 1 o.fresh_sessions && o.append_log, append_message)
    ∷ (
      o.pushes_only && ltb 1 o.fresh_sessions,
      codes
          "--pushes-only cannot be combined with --fresh-sessions > 1 (later sessions are dumps-only by design).",
    )
    ∷ [])

pub record BankOptions : Type 0 where
  pub count : ℕ
  pub start_slot : ℕ
  pub interval : ℕ
  pub reply_timeout : ℕ
  pub bridge_ready_timeout : ℕ
  pub with_bridge : Bool
  pub fresh_starts : ℕ
  pub fresh_sessions : ℕ
  pub append_log : Bool

unfoldable pub bank_options : CommandLine → BankOptions
bank_options argv = record {
  count = num_of (codes "--count") 100 argv;
  start_slot = num_of (codes "--start-slot") 0 argv;
  interval = seconds_of (codes "--interval") 10 argv;
  reply_timeout = seconds_of (codes "--reply-timeout") 3000 argv;
  bridge_ready_timeout = seconds_of (codes "--bridge-ready-timeout") 45000 argv;
  with_bridge = has (codes "--with-bridge") argv;
  fresh_starts = num_of (codes "--fresh-starts") 2 argv;
  fresh_sessions = num_of (codes "--fresh-sessions") 1 argv;
  append_log = has (codes "--append-log") argv;
}

unfoldable pub validate_bank : BankOptions → Option Text
validate_bank o = first_refusal (
    (ltb o.count 1, codes "--count must be >= 1")
    ∷ (ltb 0x7F o.start_slot, codes "--start-slot must be in 0..127")
    ∷ (ltb o.interval 10, codes "--interval must be >= 0.01 (Matrix stock pacing ≥10 ms)")
    ∷ (o.reply_timeout == 0, codes "--reply-timeout must be > 0")
    ∷ (o.bridge_ready_timeout == 0, codes "--bridge-ready-timeout must be > 0")
    ∷ (ltb o.fresh_starts 1, codes "--fresh-starts must be >= 1")
    ∷ (ltb o.fresh_sessions 1, codes "--fresh-sessions must be >= 1")
    ∷ [])

-- `_validate_lab_mode` of the bank lab
unfoldable pub validate_bank_mode : BankOptions → Option Text
validate_bank_mode o = first_refusal (
    (o.with_bridge && ltb 1 o.fresh_sessions, sessions_message)
    ∷ (ltb 1 o.fresh_sessions && o.append_log, append_message)
    ∷ [])

pub record LongOptions : Type 0 where
  pub count : ℕ
  pub sizes : Text
  pub skip_fixture : Bool
  pub interval : ℕ
  pub reply_timeout : ℕ
  pub abort_after_timeouts : ℕ
  pub max_wall : ℕ
  pub bridge_ready_timeout : ℕ
  pub with_bridge : Bool
  pub fresh_starts : ℕ
  pub fresh_sessions : ℕ
  pub append_log : Bool

unfoldable pub long_options : CommandLine → LongOptions
long_options argv = record {
  count = num_of (codes "--count") 20 argv;
  sizes = text_of (codes "--sizes") (codes "1024,4096") argv;
  skip_fixture = has (codes "--skip-fixture") argv;
  interval = seconds_of (codes "--interval") 50 argv;
  reply_timeout = seconds_of (codes "--reply-timeout") 8000 argv;
  abort_after_timeouts = num_of (codes "--abort-after-timeouts") 3 argv;
  max_wall = seconds_of (codes "--max-wall-seconds") 0 argv;
  bridge_ready_timeout = seconds_of (codes "--bridge-ready-timeout") 45000 argv;
  with_bridge = has (codes "--with-bridge") argv;
  fresh_starts = num_of (codes "--fresh-starts") 2 argv;
  fresh_sessions = num_of (codes "--fresh-sessions") 1 argv;
  append_log = has (codes "--append-log") argv;
}

unfoldable pub validate_long : LongOptions → Option Text
validate_long o = first_refusal (
    (ltb o.count 1, codes "--count must be >= 1")
    ∷ (ltb o.interval 50, codes "--interval must be >= 0.05")
    ∷ (o.reply_timeout == 0, codes "--reply-timeout must be > 0")
    ∷ (o.bridge_ready_timeout == 0, codes "--bridge-ready-timeout must be > 0")
    ∷ (ltb o.fresh_starts 1, codes "--fresh-starts must be >= 1")
    ∷ (ltb o.fresh_sessions 1, codes "--fresh-sessions must be >= 1")
    ∷ [])

-- `_validate_lab_mode` of the long loopback
unfoldable pub validate_long_mode : LongOptions → Option Text
validate_long_mode o = first_refusal (
    (o.with_bridge && ltb 1 o.fresh_sessions, sessions_message)
    ∷ (ltb 1 o.fresh_sessions && o.append_log, append_message)
    ∷ [])
