-- ===== src/Quality/Findings/Laws.antt =====
-- When a file gives no finding.
use unitor_win64_driver.Base.{
  ℕ, ◌≤◌, ◌<◌, ◌≡◌, ◌≢◌, refl, ◌↔◌, inl, inr, arith, Bool, true, false, Bool-cases, Option, none,
  some, List, [], ◌∷◌, ◌++◌, Text, ok, Result-cases, ltb, All,
}
use unitor_win64_driver.Quality.Lines.{splitlines, useful_line_count}
use unitor_win64_driver.Quality.Limits.{MetricLimits, limits_for_path}
use unitor_win64_driver.Quality.Hunks.{function_intersects}
use unitor_win64_driver.Quality.Findings.{
  RawFunction, Repository, Finding, FnSlice, base_file_useful_lines, maybe_file_size_finding,
  append_if, append_metric_findings, slice_of, function_findings, size_findings, analyse_file,
}

pub record IsWithin (limits : MetricLimits) (fn : FnSlice) : Type 0 where
  pub nloc_ok : fn.nloc ≤ limits.max_nloc
  pub params_ok : fn.params ≤ limits.max_params
  pub ccn_ok : fn.ccn ≤ limits.max_ccn
  pub nesting_ok : fn.depth ≤ limits.max_nesting

concat-ne-nil {ℓ} : {A : Type ℓ} (xs : List A) (a : A) → xs ++ a ∷ [] ≢ []
concat-ne-nil [] a h = ground arith
concat-ne-nil (x ∷ xs) a h = ground arith

-- A function adds no finding exactly when none of its four measures passes its limit.
append_metric_findings-IsWithin :
    (findings : List Finding) (rel : Text) (limits : MetricLimits) (fn : FnSlice)
    → IsWithin limits fn
    → append_metric_findings findings rel limits fn ≡ findings
unfolding append_metric_findings
append_metric_findings-IsWithin findings rel limits fn h = ground arith

append_if-nil :
    (test : Bool) (findings : List Finding) (f : Finding)
    → append_if test findings f ≡ []
    → (test ≡ false) × (findings ≡ [])
append_if-nil true findings f h = absurd (concat-ne-nil findings f h)
append_if-nil false findings f h = (refl, h)

append_metric_findings-nil :
    (findings : List Finding) (rel : Text) (limits : MetricLimits) (fn : FnSlice)
    → append_metric_findings findings rel limits fn ≡ []
    → (findings ≡ []) × IsWithin limits fn
unfolding append_metric_findings
append_metric_findings-nil findings rel limits fn h =
    let (t4, h3) = append_if-nil (ltb limits.max_nesting fn.depth) _ _ h in
    let (t3, h2) = append_if-nil (ltb limits.max_ccn fn.ccn) _ _ h3 in
    let (t2, h1) = append_if-nil (ltb limits.max_params fn.params) _ _ h2 in
    let (t1, h0) = append_if-nil (ltb limits.max_nloc fn.nloc) _ _ h1 in
    (
      h0,
      record {
        nloc_ok = ground arith;
        params_ok = ground arith;
        ccn_ok = ground arith;
        nesting_ok = ground arith;
      },
    )

-- The functions that the changed lines meet are all within the limits.
abbrev pub AreWithin : MetricLimits → List Text → Option (List ℕ) → List RawFunction → Type 0
AreWithin limits lines changed = All (λ fn.
    function_intersects fn.start_line fn.end_line changed ≡ true
    → IsWithin limits (slice_of limits lines fn))

module _ (rel : Text) (limits : MetricLimits) (lines : List Text) (changed : Option (List ℕ)) where
  function_findings-AreWithin :
      (findings : List Finding) (fns : List RawFunction)
      → AreWithin limits lines changed fns
      → function_findings findings rel limits lines changed fns ≡ findings
  unfolding function_findings
  function_findings-AreWithin findings [] h = refl
  function_findings-AreWithin findings (fn ∷ fns) h =
      elim (Bool-cases (function_intersects fn.start_line fn.end_line changed)) [
        | inl e ↦
            rw
              (
                e,
                append_metric_findings-IsWithin findings rel limits (slice_of limits lines fn)
                    (h.0 e),
              )
              (function_findings-AreWithin findings fns h.1)
        | inr e ↦ rw e (function_findings-AreWithin findings fns h.1)
      ]

  function_findings-nil :
      (findings : List Finding) (fns : List RawFunction)
      → function_findings findings rel limits lines changed fns ≡ []
      → (findings ≡ []) × AreWithin limits lines changed fns
  unfolding function_findings
  function_findings-nil findings [] h = (h, tt)
  function_findings-nil findings (fn ∷ fns) h =
      elim (Bool-cases (function_intersects fn.start_line fn.end_line changed)) [
        | inl e ↦
            let (h0, rest) =
              function_findings-nil
                (append_metric_findings findings rel limits (slice_of limits lines fn)) fns
                (rw e at h) in
            let (h1, within) =
              append_metric_findings-nil findings rel limits (slice_of limits lines fn) h0 in
            (h1, ((λ t. within), rest))
        | inr e ↦
            let (h0, rest) = function_findings-nil findings fns (rw e at h) in
            (h0, ((λ t. absurd (cc (e, t))), rest))
      ]

size_findings-nil : (o : Option Finding) → size_findings o ≡ [] → o ≡ none
size_findings-nil none h = refl
size_findings-nil (some f) h = cc

-- What a file needs to pass: its size is in order, lizard can read it, and the functions that the
-- changed lines meet are within the limits.
pub record IsClean (repo : Repository) (rel : Text) (changed : Option (List ℕ)) (base : Option Text)
    (full_tree : Bool) : Type 0 where
  pub no_size_finding :
      maybe_file_size_finding repo rel
        (repo.read_text rel)
        (limits_for_path rel)
        (record { base = base; full_tree = full_tree })
      ≡ none
  pub fns : List RawFunction
  pub lizard_reads : repo.lizard rel ≡ ok fns
  pub are_within : AreWithin (limits_for_path rel) (splitlines (repo.read_text rel)) changed fns

module _ (repo : Repository) (rel : Text) (changed : Option (List ℕ)) (base : Option Text)
    (full_tree : Bool) where
  pub IsClean-analyse_file :
      IsClean repo rel changed base full_tree → analyse_file repo rel changed base full_tree ≡ []
  unfolding analyse_file
  IsClean-analyse_file h =
      let limits = limits_for_path rel in
      let lines = splitlines (repo.read_text rel) in
      ground (
        arith,
        h.lizard_reads,
        h.no_size_finding,
        function_findings-AreWithin rel limits lines changed [] h.fns h.are_within,
      )

  pub analyse_file-IsClean :
      analyse_file repo rel changed base full_tree ≡ [] → IsClean repo rel changed base full_tree
  unfolding analyse_file
  analyse_file-IsClean h = elim (Result-cases (repo.lizard rel)) [
    | inl (e, q) ↦ absurd (concat-ne-nil _ _ (rw (q, analyse_file) at h))
    | inr (fns, q) ↦
        let (none_, within) =
          function_findings-nil rel (limits_for_path rel) (splitlines (repo.read_text rel)) changed
            _ fns (rw (q, analyse_file) at h) in
        record {
          no_size_finding = size_findings-nil _ none_;
          fns = fns;
          lizard_reads = q;
          are_within = within;
        }
  ]

-- A file that git shows at the base with `before` useful lines gets a size finding on touched lines
-- exactly when its suffix is checked, it is over the limit and it has grown since the base.
size_ratchet :
    (repo : Repository) (rel text base raw : Text) (limits : MetricLimits)
    → repo.base_exists base ≡ true
    → repo.show base rel ≡ some raw
    → (maybe_file_size_finding repo rel text limits (record { base = some base; full_tree = false })
        ≢ none)
      ↔ ((limits.size_suffix_ok ≡ true)
          × (limits.max_useful < useful_line_count text limits.lang)
          × (useful_line_count raw limits.lang < useful_line_count text limits.lang))
unfolding maybe_file_size_finding base_file_useful_lines
size_ratchet repo rel text base raw limits exists shown = (λ h. ground arith, λ h e. ground arith)
