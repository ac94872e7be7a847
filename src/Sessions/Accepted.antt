-- ===== src/Sessions/Accepted.antt =====
-- What the labs' own options say about the children of their sessions.
use unitor_win64_driver.Base.{
  ℕ, ◌≡◌, ◌&&◌, not, Option, none, some, List, arith, Text, codes, if◌then◌else◌, ◌==◌,
}
use unitor_win64_driver.Options.Labs.{
  MidOptions, mid_options, validate_mid, validate_mid_mode, BankOptions, bank_options,
  validate_bank, validate_bank_mode, LongOptions, long_options, validate_long, validate_long_mode,
}
use unitor_win64_driver.Sessions.Matrix.{Ports, mid_child, bank_child}
use unitor_win64_driver.Sessions.Long.{long_child}
use unitor_win64_driver.Sessions.Single.{LabMode, single_mode, lab_mode}

-- A mid lab whose options are accepted gives its children options that pass the checks of the mode.
-- The other checks refuse a child exactly behind the first session of a run with `--pushes-only`:
-- such a child gets that option and `--dumps-only` too.
pub mid_child-validate :
    (o : MidOptions) (p : Ports) (log_path : Text) (start_index : ℕ)
    → validate_mid o ≡ none
    → (validate_mid_mode (mid_options (mid_child o p log_path start_index)) ≡ none)
      × (validate_mid (mid_options (mid_child o p log_path start_index)) ≡ (
          if o.pushes_only && not (start_index == 1)
          then some (codes "Use only one of --dumps-only / --pushes-only")
          else none))
unfolding mid_child mid_options validate_mid validate_mid_mode
mid_child-validate o p log_path start_index h = ground arith

bank_child-validate :
    (o : BankOptions) (p : Ports) (log_path : Text) (start_index : ℕ)
    → validate_bank o ≡ none
    → (validate_bank (bank_options (bank_child o p log_path start_index)) ≡ none)
      × (validate_bank_mode (bank_options (bank_child o p log_path start_index)) ≡ none)
unfolding bank_child bank_options validate_bank validate_bank_mode
bank_child-validate o p log_path start_index h = ground arith

abbrev pub mid_mode : MidOptions → LabMode
mid_mode o = lab_mode o.with_bridge o.fresh_sessions o.append_log

abbrev pub bank_mode : BankOptions → LabMode
bank_mode o = lab_mode o.with_bridge o.fresh_sessions o.append_log

abbrev pub long_mode : LongOptions → LabMode
long_mode o = lab_mode o.with_bridge o.fresh_sessions o.append_log

module _ (shown : ℕ → ℕ) (sizes : List ℕ) (fixture : Text) (deadline : Option ℕ) (clock : ℕ) where
  long_child-validate :
      (o : LongOptions) (p : Ports) (log_path : Text) (start_index : ℕ)
      → validate_long o ≡ none
      → (validate_long
            (long_options (long_child shown o sizes p fixture log_path deadline clock start_index))
          ≡ none)
        × (validate_long_mode (
              long_options (long_child shown o sizes p fixture log_path deadline clock start_index))
            ≡ none)
  unfolding long_child long_options validate_long validate_long_mode
  long_child-validate o p log_path start_index h = ground arith

  -- Whatever the options of the three labs are, the child of a session of each runs one session in
  -- its own process: it starts no bridge and no child of its own.
  pub children_run_one_session :
      (m : MidOptions) (b : BankOptions) (l : LongOptions) (p : Ports) (log_path : Text)
      (start_index : ℕ)
      → (mid_mode (mid_options (mid_child m p log_path start_index)) ≡ single_mode)
        × (bank_mode (bank_options (bank_child b p log_path start_index)) ≡ single_mode)
        × (long_mode (
              long_options (long_child shown l sizes p fixture log_path deadline clock start_index))
            ≡ single_mode)
  unfolding mid_child bank_child long_child mid_options bank_options long_options lab_mode
  children_run_one_session m b l p log_path start_index = ground arith
