-- ===== src/Quality/Gate/Laws.antt =====
-- What the exit status of the gate says.
use unitor_win64_driver.Base.{
  ℕ, ◌≡◌, ◌≢◌, refl, ◌∙◌, ◌↔◌, ◌⊎◌, inl, inr, arith, Bool, true, false, Option, some, List, [], ◌∷◌,
  ◌++◌, Text, All,
}
use unitor_win64_driver.Quality.Hunks.{lines_of}
use unitor_win64_driver.Quality.Findings.{Repository, Finding}
use unitor_win64_driver.Quality.Findings.Laws.{IsClean, IsClean-analyse_file, analyse_file-IsClean}
use unitor_win64_driver.Quality.Gate.{
  GitOutput, Args, collect_changed_files, parse_diff_line_ranges, resolve_target_files,
  analyse_each, analyse_targets, exit_after_report, main,
}

append-nil_parts {ℓ} : {A : Type ℓ} (xs ys : List A) → xs ++ ys ≡ [] → (xs ≡ []) × (ys ≡ [])
append-nil_parts [] ys h = (refl, h)
append-nil_parts (x ∷ xs) ys h = absurd (ground arith)

module _ (repo : Repository) (git : GitOutput) where
  module _ (changed : Text → Option (List ℕ)) (base : Option Text) (full_tree : Bool) where
    abbrev AreClean : List Text → Type 0
    AreClean = All (λ rel. IsClean repo rel (changed rel) base full_tree)

    AreClean-analyse_each :
        (files : List Text)
        → AreClean files
        → analyse_each repo git changed base full_tree files ≡ []
    unfolding analyse_each
    AreClean-analyse_each [] h = refl
    AreClean-analyse_each (rel ∷ rels) h =
        rw (IsClean-analyse_file repo rel (changed rel) base full_tree h.0)
          (AreClean-analyse_each rels h.1)

    analyse_each-AreClean :
        (files : List Text)
        → analyse_each repo git changed base full_tree files ≡ []
        → AreClean files
    unfolding analyse_each
    analyse_each-AreClean [] h = tt
    analyse_each-AreClean (rel ∷ rels) h =
        let (here, rest) = append-nil_parts _ _ h in
        (
          analyse_file-IsClean repo rel (changed rel) base full_tree here,
          analyse_each-AreClean rels rest,
        )

  -- The touched lines of a file, as the diffs against the base give them
  abbrev pub touched : Text → Text → Option (List ℕ)
  touched base rel = some (lines_of rel (parse_diff_line_ranges repo git base))

  status_of : List Finding → ℕ
  status_of findings = exit_after_report repo git findings false 0

  status_of_files :
      (tidy : List Text → ℕ) (args : Args) (files : List Text)
      → args.all ≡ false
      → args.clang_tidy ≡ false
      → resolve_target_files repo git args.all args.base ≡ some files
      → main repo git tidy args
        ≡ status_of (analyse_each repo git (touched args.base) (some args.base) false files)
  unfolding main analyse_targets analyse_each status_of
  status_of_files tidy args [] a t r = ground (arith, a, t, r)
  status_of_files tidy args (f ∷ fs) a t r = ground (arith, a, t, r)

  status_of-cases :
      (findings : List Finding)
      → ((status_of findings ≡ 0) × (findings ≡ [])) ⊎ ((status_of findings ≡ 1) × (findings ≢ []))
  unfolding status_of exit_after_report
  status_of-cases [] = inl (refl, refl)
  status_of-cases (f ∷ fs) = inr (refl, λ e. ground arith)

  -- Without clang-tidy and against an existing base, the gate exits with 0 exactly when each touched
  -- gate file is clean: of its functions those that a touched line meets are within all four limits,
  -- its size is in order, and lizard can read it. The only other status is 1.
  pub main-touched :
      (tidy : List Text → ℕ) (args : Args)
      → args.all ≡ false
      → args.clang_tidy ≡ false
      → repo.base_exists args.base ≡ true
      → ((main repo git tidy args ≡ 0)
          ↔ All
              (λ rel. IsClean repo rel (touched args.base rel) (some args.base) false)
              (collect_changed_files repo git args.base))
        × ((main repo git tidy args ≡ 0) ⊎ (main repo git tidy args ≡ 1))
  main-touched tidy args a t b =
      let files = collect_changed_files repo git args.base in
      let findings = analyse_each repo git (touched args.base) (some args.base) false files in
      let resolved : resolve_target_files repo git args.all args.base ≡ some files =
        unfold resolve_target_files in ground (arith, a, b) in
      let status = status_of_files tidy args files a t resolved in
      elim (status_of-cases findings) [
        | inl (s, e) ↦ (
          (
            (λ h. analyse_each-AreClean (touched args.base) (some args.base) false files e),
            λ h. status ∙ s,
          ),
          inl (status ∙ s),
        )
        | inr (s, e) ↦ (
          (
            (λ h. absurd (omega (arith, status, s))),
            λ h.
                absurd
                  (e (AreClean-analyse_each (touched args.base) (some args.base) false files h)),
          ),
          inr (status ∙ s),
        )
      ]
