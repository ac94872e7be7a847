-- ===== src/Quality/Limits.antt =====
-- Thresholds and severities of scripts/quality/lint-touched.py.
pub mod Laws
use unitor_win64_driver.Base.{
  ℕ, ◌+◌, ◌*◌, Bool, true, false, List, Text, codes, lower, leb, equal, if◌then◌else◌,
  int_times_1_4,
}
use unitor_win64_driver.Quality.Lines.{Lang, cpp, scripts}
use unitor_win64_driver.Quality.Paths.{
  normalised, suffix, in_list, py_suffixes, is_glue_path, is_py_glue_path,
}

pub data Severity : Type 0 where
  critical serious light : Severity

-- The constants of the module, in its order

abbrev pub max_nloc_core : ℕ
max_nloc_core = 40

abbrev pub max_nloc_glue : ℕ
max_nloc_glue = 50

abbrev pub max_params : ℕ
max_params = 4

abbrev pub max_ccn_core : ℕ
max_ccn_core = 10

abbrev pub max_ccn_glue : ℕ
max_ccn_glue = 12

abbrev pub max_nesting : ℕ
max_nesting = 4

abbrev pub max_cpp_useful_lines : ℕ
max_cpp_useful_lines = 400

abbrev pub max_py_nloc_core : ℕ
max_py_nloc_core = 70

abbrev pub max_py_nloc_glue : ℕ
max_py_nloc_glue = 90

abbrev pub max_py_params : ℕ
max_py_params = 4

abbrev pub max_py_ccn_core : ℕ
max_py_ccn_core = 12

abbrev pub max_py_ccn_glue : ℕ
max_py_ccn_glue = 14

abbrev pub max_py_nesting : ℕ
max_py_nesting = 5

abbrev pub max_py_useful_lines : ℕ
max_py_useful_lines = 700

pub record MetricLimits : Type 0 where
  pub lang : Lang
  pub max_nloc : ℕ
  pub max_params : ℕ
  pub max_ccn : ℕ
  pub max_nesting : ℕ
  pub max_useful : ℕ
  pub size_suffix_ok : Bool

abbrev limits_with : Bool → Text → Text → MetricLimits
limits_with true rel suffix_ =
    let glue = is_py_glue_path rel in
    record {
      lang = scripts;
      max_nloc = if glue then max_py_nloc_glue else max_py_nloc_core;
      max_params = max_py_params;
      max_ccn = if glue then max_py_ccn_glue else max_py_ccn_core;
      max_nesting = max_py_nesting;
      max_useful = max_py_useful_lines;
      size_suffix_ok = true;
    }
limits_with false rel suffix_ =
    let glue = is_glue_path rel in
    record {
      lang = cpp;
      max_nloc = if glue then max_nloc_glue else max_nloc_core;
      max_params = max_params;
      max_ccn = if glue then max_ccn_glue else max_ccn_core;
      max_nesting = max_nesting;
      max_useful = max_cpp_useful_lines;
      size_suffix_ok = equal suffix_ (codes ".cpp");
    }

unfoldable pub limits_for_path : Text → MetricLimits
limits_for_path rel =
    let suffix_ = lower (suffix (normalised rel)) in
    limits_with (in_list suffix_ py_suffixes) rel suffix_

unfoldable pub severity_for_nloc : ℕ → ℕ → Severity
severity_for_nloc nloc limit =
    if leb (limit * 2) nloc
    then critical
    else if leb (int_times_1_4 limit) nloc
    then serious
    else light

unfoldable pub severity_for_ccn : ℕ → ℕ → Severity
severity_for_ccn ccn limit =
    if leb (limit + 8) ccn then critical else if leb (limit + 3) ccn then serious else light

unfoldable pub severity_for_file : ℕ → Lang → Severity
severity_for_file useful scripts =
    if leb 1400 useful then critical else if leb 1000 useful then serious else light
severity_for_file useful cpp =
    if leb 800 useful then critical else if leb 550 useful then serious else light
