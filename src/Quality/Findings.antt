-- ===== src/Quality/Findings.antt =====
-- Findings of scripts/quality/lint-touched.py: one file's size and its functions' measures. What
-- the gate reads from git, the file system and lizard comes in as the record `Repository`.
pub mod Laws
use unitor_win64_driver.Base.{
  ℕ, zero, suc, ◌+◌, ◌-◌, Bool, true, false, ◌&&◌, ◌||◌, not, Option, none, some, List, [], ◌∷◌,
  ◌++◌, Text, codes, decimal, Result, ok, err, ltb, leb, if◌then◌else◌, equal,
}
use unitor_win64_driver.Quality.Lines.{
  Lang, cpp, scripts, splitlines, useful_line_count, nesting_for_function,
}
use unitor_win64_driver.Quality.Limits.{
  Severity, serious, light, MetricLimits, limits_for_path, severity_for_nloc, severity_for_ccn,
  severity_for_file,
}
use unitor_win64_driver.Quality.Hunks.{function_intersects}

-- What lizard reports of a function
pub record RawFunction : Type 0 where
  pub name : Text
  pub start_line : ℕ
  pub end_line : ℕ
  pub nloc : ℕ
  pub parameter_count : ℕ
  pub full_parameters : List Text
  pub cyclomatic_complexity : ℕ

-- The outside of the gate: the working tree, git, and lizard, whose error is an exception's name
pub record Repository : Type 0 where
  pub is_file : Text → Bool
  pub read_text : Text → Text
  pub lizard : Text → Result Text (List RawFunction)
  -- `git rev-parse --verify base` prints something.
  pub base_exists : Text → Bool
  -- `git show base:rel`
  pub show : Text → Text → Option Text

pub data Kind : Type 0 where
  file_size function_length parameters complexity nesting parse_error : Kind

pub record Finding : Type 0 where
  pub path : Text
  pub kind : Kind
  pub detail : Text
  pub severity : Severity
  pub score : ℕ
  pub lang : Lang

pub record FnSlice : Type 0 where
  pub name : Text
  pub start : ℕ
  pub end_ : ℕ
  pub nloc : ℕ
  pub params : ℕ
  pub ccn : ℕ
  pub depth : ℕ

pub record SizeCheckCtx : Type 0 where
  pub base : Option Text
  pub full_tree : Bool

-- `base_file_useful_lines`
unfoldable pub base_file_useful_lines : Repository → Text → Text → Lang → Option ℕ
base_file_useful_lines repo rel base lang =
    if not (repo.base_exists base)
    then none
    else elim (repo.show base rel) [ none ↦ none | some raw ↦ some (useful_line_count raw lang) ]

-- `before is None or useful > before`
abbrev pub has_grown : ℕ → Option ℕ → Bool
has_grown useful none = true
has_grown useful (some before) = ltb before useful

abbrev report_file : Repository → Text → MetricLimits → SizeCheckCtx → ℕ → Bool
report_file repo rel limits ctx useful = ctx.full_tree || elim ctx.base [
  | none ↦ false
  | some base ↦ has_grown useful (base_file_useful_lines repo rel base limits.lang)
]

unfoldable pub maybe_file_size_finding :
    Repository → Text → Text → MetricLimits → SizeCheckCtx → Option Finding
maybe_file_size_finding repo rel text limits ctx =
    let useful = useful_line_count text limits.lang in
    if not limits.size_suffix_ok
    then none
    else if leb useful limits.max_useful
    then none
    else if not (report_file repo rel limits ctx useful)
    then none
    else some (record {
      path = rel;
      kind = file_size;
      detail =
          codes "useful lines " ++ (decimal useful ++ (codes " > " ++ decimal limits.max_useful));
      severity = severity_for_file useful limits.lang;
      score = useful;
      lang = limits.lang;
    })

-- `f"{fn.name} label={value} > {limit} (L...)"`
abbrev measure_text : Text → Text → ℕ → ℕ → Text → Text
measure_text name label value limit place =
    name
    ++ (label
        ++ (decimal value
            ++ (codes " > " ++ (decimal limit ++ (codes " (L" ++ (place ++ codes ")"))))))

-- `if value > limit: findings.append(...)`
abbrev append_if : Bool → List Finding → Finding → List Finding
append_if true findings f = findings ++ f ∷ []
append_if false findings f = findings

unfoldable pub length_finding : Text → MetricLimits → FnSlice → Finding
length_finding rel limits fn = record {
  path = rel;
  kind = function_length;
  detail =
      measure_text fn.name (codes " nloc=") fn.nloc limits.max_nloc
        (decimal fn.start ++ (b'-' ∷ decimal fn.end_));
  severity = severity_for_nloc fn.nloc limits.max_nloc;
  score = fn.nloc;
  lang = limits.lang;
}

unfoldable pub params_finding : Text → MetricLimits → FnSlice → Finding
params_finding rel limits fn = record {
  path = rel;
  kind = parameters;
  detail = measure_text fn.name (codes " params=") fn.params limits.max_params (decimal fn.start);
  severity = if leb 7 fn.params then serious else light;
  score = fn.params;
  lang = limits.lang;
}

unfoldable pub ccn_finding : Text → MetricLimits → FnSlice → Finding
ccn_finding rel limits fn = record {
  path = rel;
  kind = complexity;
  detail = measure_text fn.name (codes " ccn=") fn.ccn limits.max_ccn (decimal fn.start);
  severity = severity_for_ccn fn.ccn limits.max_ccn;
  score = fn.ccn;
  lang = limits.lang;
}

unfoldable pub nesting_finding : Text → MetricLimits → FnSlice → Finding
nesting_finding rel limits fn = record {
  path = rel;
  kind = nesting;
  detail = measure_text fn.name (codes " nesting~=") fn.depth limits.max_nesting (decimal fn.start);
  severity = if leb (limits.max_nesting + 3) fn.depth then serious else light;
  score = fn.depth;
  lang = limits.lang;
}

unfoldable pub append_metric_findings : List Finding → Text → MetricLimits → FnSlice → List Finding
append_metric_findings findings rel limits fn =
    let with_length =
      append_if (ltb limits.max_nloc fn.nloc) findings (length_finding rel limits fn) in
    let with_params =
      append_if (ltb limits.max_params fn.params) with_length (params_finding rel limits fn) in
    let with_ccn = append_if (ltb limits.max_ccn fn.ccn) with_params (ccn_finding rel limits fn) in
    append_if (ltb limits.max_nesting fn.depth) with_ccn (nesting_finding rel limits fn)

-- `str(params[0]) in ("self", "cls")`
abbrev is_receiver : List Text → Bool
is_receiver [] = false
is_receiver (p ∷ ps) = equal p (codes "self") || equal p (codes "cls")

unfoldable pub effective_param_count : RawFunction → Lang → ℕ
effective_param_count fn cpp = fn.parameter_count
effective_param_count fn scripts =
    if is_receiver fn.full_parameters then fn.parameter_count - 1 else fn.parameter_count

unfoldable pub slice_of : MetricLimits → List Text → RawFunction → FnSlice
slice_of limits lines fn = record {
  name = fn.name;
  start = fn.start_line;
  end_ = fn.end_line;
  nloc = fn.nloc;
  params = effective_param_count fn limits.lang;
  ccn = fn.cyclomatic_complexity;
  depth = nesting_for_function limits.lang lines fn.start_line fn.end_line;
}

-- The loop over `analysed.function_list`
unfoldable pub function_findings :
    List Finding
    → Text
    → MetricLimits
    → List Text
    → Option (List ℕ)
    → List RawFunction
    → List Finding
function_findings findings rel limits lines changed [] = findings
function_findings findings rel limits lines changed (fn ∷ fns) =
    let more = append_metric_findings findings rel limits (slice_of limits lines fn) in
    let next = if function_intersects fn.start_line fn.end_line changed then more else findings in
    function_findings next rel limits lines changed fns

abbrev lizard_finding : Text → MetricLimits → Text → Finding
lizard_finding rel limits exception = record {
  path = rel;
  kind = parse_error;
  detail = codes "lizard failed: " ++ exception;
  severity = serious;
  score = 0;
  lang = limits.lang;
}

abbrev pub size_findings : Option Finding → List Finding
size_findings none = []
size_findings (some f) = f ∷ []

unfoldable pub analyse_file :
    Repository → Text → Option (List ℕ) → Option Text → Bool → List Finding
analyse_file repo rel changed base full_tree =
    let text = repo.read_text rel in
    let limits = limits_for_path rel in
    let ctx : SizeCheckCtx = record { base = base; full_tree = full_tree } in
    let sized = size_findings (maybe_file_size_finding repo rel text limits ctx) in
    elim (repo.lizard rel) [
      | err exception ↦ sized ++ lizard_finding rel limits exception ∷ []
      | ok fns ↦ function_findings sized rel limits (splitlines text) changed fns
    ]
