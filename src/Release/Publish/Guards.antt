-- ===== src/Release/Publish/Guards.antt =====
-- What must hold for a command of a publication to be run.
use unitor_win64_driver.Base.{
  ◌≡◌, refl, sym, subst, ap, Bool, true, false, Bool-cases, inl, inr, Option, none, some, List, [],
  ◌∷◌, ◌++◌, Text, Bytes, Result, ok, err, All,
}
use unitor_win64_driver.Release.{
  Files, is_file, ReleasePaths, notes_file, VerifyError, verify_release,
}
use unitor_win64_driver.Release.Publish.{
  Command, PublishError, command_failed, World, Outcome, or_detected, gh_release_exists, confirmed,
  run_commands, upload_plan, gh_release_upload_only, publish_ci,
}

-- A plan is run to its end, each command with success; or up to its first failing command, whose
-- failure is the exception.
pub data UpToFailure (succeeds : Command → Bool) (plan : List Command) : Outcome → Type 0 where
  to_the_end : All (λ c. succeeds c ≡ true) plan → UpToFailure succeeds plan (ok tt, plan)
  cut :
      (done rest : List Command) (c : Command)
      → plan ≡ done ++ (c ∷ rest)
      → All (λ d. succeeds d ≡ true) done
      → succeeds c ≡ false
      → UpToFailure succeeds plan (err (command_failed c), done ++ c ∷ [])

pub run_commands-UpToFailure :
    (succeeds : Command → Bool) (plan : List Command)
    → UpToFailure succeeds plan (run_commands succeeds plan)
unfolding run_commands
run_commands-UpToFailure succeeds [] = to_the_end tt
run_commands-UpToFailure succeeds (c ∷ cs) = elim (Bool-cases (succeeds c)) [
  | inl t ↦ rw t (behind t (run_commands succeeds cs) (run_commands-UpToFailure succeeds cs))
  | inr f ↦ rw f (cut [] cs c refl tt f)
]
  where
    behind :
        succeeds c ≡ true
        → (o : Outcome) → UpToFailure succeeds cs o
        → UpToFailure succeeds (c ∷ cs) (o.0, c ∷ o.1)
    behind t _ (to_the_end h) = to_the_end (t, h)
    behind t _ (cut done rest d q h f) = cut (c ∷ done) rest d (ap (◌∷◌ c) q) (t, h) f

module _ (sha256 : Bytes → Text) (w : World) (paths : ReleasePaths) (files : Files) where
  -- What an upload asks for
  pub record MayUpload (skip : Bool) : Type 0 where
    pub agreed : confirmed skip w.answer ≡ true
    pub verified : verify_release sha256 paths files ≡ []
    pub noted : is_file notes_file files ≡ true
    pub tagged : w.remote_tag ≡ some true
    pub released : gh_release_exists w.release ≡ ok true

  -- Some guard does not hold, an exception says so, and no command is run; or all guards hold, and
  -- the commands are the upload and the edit, in this order, up to the first that fails.
  pub data CiRun (skip prerelease : Bool) : Outcome → Type 0 where
    refused : {e : PublishError} → ¬ MayUpload skip → CiRun skip prerelease (err e, [])
    uploaded :
        {o : Outcome}
        → MayUpload skip
        → UpToFailure w.succeeds (upload_plan paths prerelease) o
        → CiRun skip prerelease o

  gh_release_upload_only-CiRun :
      (skip prerelease : Bool) (es : List VerifyError) (tag : Option Bool)
      (exists : Result PublishError Bool)
      → confirmed skip w.answer ≡ true
      → verify_release sha256 paths files ≡ es
      → w.remote_tag ≡ tag
      → gh_release_exists w.release ≡ exists
      → CiRun skip prerelease (gh_release_upload_only sha256 w paths files prerelease)
  unfolding gh_release_upload_only
  gh_release_upload_only-CiRun skip prerelease (x ∷ es) tag exists a v t r =
      rw v (refused (λ m. cc (m.verified)))
  gh_release_upload_only-CiRun skip prerelease [] tag exists a v t r =
      elim (Bool-cases (is_file notes_file files)) [
        | inr n ↦ rw (v, n) (refused (λ m. cc (m.noted)))
        | inl n ↦ noted tag exists n t r
      ]
    where
      noted :
          (tag : Option Bool) (exists : Result PublishError Bool)
          → is_file notes_file files ≡ true
          → w.remote_tag ≡ tag
          → gh_release_exists w.release ≡ exists
          → CiRun skip prerelease (gh_release_upload_only sha256 w paths files prerelease)
      noted none exists n t r = rw (v, n, t) (refused (λ m. cc (m.tagged)))
      noted (some false) exists n t r = rw (v, n, t) (refused (λ m. cc (m.tagged)))
      noted (some true) (err x) n t r = rw (v, n, t, r) (refused (λ m. cc (m.released)))
      noted (some true) (ok false) n t r = rw (v, n, t, r) (refused (λ m. cc (m.released)))
      noted (some true) (ok true) n t r =
          let run : gh_release_upload_only sha256 w paths files prerelease
              ≡ run_commands w.succeeds (upload_plan paths prerelease) =
            rw (v, n, t, r) refl in
          subst (CiRun skip prerelease) (sym run) (
            uploaded (record { agreed = a; verified = v; noted = n; tagged = t; released = r })
              (run_commands-UpToFailure w.succeeds (upload_plan paths prerelease)))

  -- If the user agrees, the release is verified, its notes are there, the tag is at the origin and the
  -- release exists, then the commands run are the upload of the distributable files and the checksums,
  -- and the edit, in this order: both, each with success and without an exception, or those up to the
  -- first that fails, whose failure is raised. If one of these conditions does not hold, an exception
  -- is raised and no command is run.
  pub publish_ci-CiRun :
      (skip : Bool) (prerelease : Option Bool)
      → CiRun skip
          (or_detected sha256 w paths files prerelease)
          (publish_ci sha256 w paths files skip prerelease)
  unfolding publish_ci
  publish_ci-CiRun skip prerelease = elim (Bool-cases (confirmed skip w.answer)) [
    | inr f ↦ rw f (refused (λ m. cc (m.agreed)))
    | inl t ↦ rw t (
        gh_release_upload_only-CiRun skip (or_detected sha256 w paths files prerelease) _ _ _ t refl
          refl refl)
  ]
