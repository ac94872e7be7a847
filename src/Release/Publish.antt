-- ===== src/Release/Publish.antt =====
-- `publish` and `publish-ci` of scripts/packaging/prepare-release.py: the guards, and the commands of
-- git and gh. What these commands answer is a record; each command that changes something succeeds
-- or raises. The prints are left out.
pub mod Guards
pub mod Order
use unitor_win64_driver.Base.{
  ℕ, zero, suc, Bool, true, false, ◌&&◌, ◌||◌, not, Option, none, some, List, [], ◌∷◌, ◌++◌, Text,
  Bytes, codes, Result, ok, err, if◌then◌else◌, ◌==◌, equal, lower, strip, is_blank, is_digit,
  contains, any,
}
use unitor_win64_driver.Release.{
  Files, is_file, ReleasePaths, distributable_files, checksum_file, notes_file, VerifyError,
  verify_release,
}

-- The commands that change a repository or a release
pub data Command : Type 0 where
  git_tag git_push : Text → Command
  release_create : Text → List Text → Bool → Command
  release_upload : Text → List Text → Command
  release_edit : Text → Bool → Command

pub data PublishError : Type 0 where
  unverified : List VerifyError → PublishError
  missing_notes dirty_tree tag_exists remote_tag_exists ls_remote_failed : PublishError
  tag_missing release_missing view_failed aborted : PublishError
  command_failed : Command → PublishError

-- `gh release view`: its exit status and what it prints
pub record GhView : Type 0 where
  pub returncode : ℕ
  pub stdout : Text
  pub stderr : Text

-- What the tools answer: whether `git status` prints something, whether the tag is known here,
-- whether `git ls-remote` fails or lists it, the release, the user's answer, and whether a command
-- succeeds
pub record World : Type 0 where
  pub dirty : Bool
  pub local_tag : Bool
  pub remote_tag : Option Bool
  pub release : GhView
  pub answer : Text
  pub succeeds : Command → Bool

-- What a command run has done: the exception or not, and the commands in their order
abbrev pub Outcome : Type 0
Outcome = Result PublishError Unit × List Command

-- The text behind a run of digits, if there is one
unfoldable pub behind_digits : Bool → Text → Option Text
behind_digits seen [] = if seen then some [] else none
behind_digits seen (c ∷ cs) =
    let rest = behind_digits true cs in
    if is_digit c then rest else if seen then some (c ∷ cs) else none

abbrev pub behind_char : ℕ → Option Text → Option Text
behind_char c none = none
behind_char c (some []) = none
behind_char c (some (d ∷ ds)) = if c == d then some ds else none

-- `.+` finds a character: any but a line feed
abbrev pub has_char : Option Text → Bool
has_char none = false
has_char (some []) = false
has_char (some (c ∷ cs)) = not (c == 10)

abbrev pub digits_of : Option Text → Option Text
digits_of none = none
digits_of (some t) = behind_digits false t

unfoldable pub is_prerelease_version : Text → Bool
unfolding behind_digits
is_prerelease_version version = has_char (
    behind_char b'-'
      (digits_of (behind_char b'.' (digits_of (behind_char b'.' (digits_of (some version)))))))

abbrev pub missing_phrases : List Text
missing_phrases =
    codes "could not find"
    ∷ codes "not found"
    ∷ codes "no release found"
    ∷ codes "release not found"
    ∷ []

-- `_gh_release_exists`
unfoldable pub gh_release_exists : GhView → Result PublishError Bool
gh_release_exists v =
    let combined = lower (v.stdout ++ (10 ∷ v.stderr)) in
    if v.returncode == 0
    then ok true
    else if v.returncode == 1 && any (λ phrase. contains phrase combined) missing_phrases
    then ok false
    else if v.returncode == 1 && is_blank combined
    then ok false
    else err view_failed

-- `confirm_or_abort`: whether it goes on
unfoldable pub confirmed : Bool → Text → Bool
confirmed skip answer =
    skip || equal (lower (strip answer)) (codes "y") || equal (lower (strip answer)) (codes "yes")

-- Each command raises where it fails, so that no later one is run.
unfoldable pub run_commands : (Command → Bool) → List Command → Outcome
run_commands succeeds [] = (ok tt, [])
run_commands succeeds (c ∷ cs) =
    let rest = run_commands succeeds cs in
    if succeeds c then (rest.0, c ∷ rest.1) else (err (command_failed c), c ∷ [])

abbrev pub assets : ReleasePaths → List Text
assets paths = distributable_files paths ++ checksum_file ∷ []

abbrev pub upload_plan : ReleasePaths → Bool → List Command
upload_plan paths prerelease =
    release_upload paths.version (assets paths) ∷ release_edit paths.version prerelease ∷ []

-- `verify_release` raises where it finds an error.
abbrev pub when_verified : List VerifyError → Outcome → Outcome
when_verified [] go = go
when_verified (e ∷ es) go = (err (unverified (e ∷ es)), [])

-- The test of the remote tag, which must be there or must not
abbrev pub when_tag : Bool → PublishError → Option Bool → Outcome → Outcome
when_tag wanted refusal none go = (err ls_remote_failed, [])
when_tag wanted refusal (some true) go = if wanted then go else (err refusal, [])
when_tag wanted refusal (some false) go = if wanted then (err refusal, []) else go

abbrev pub by_release : Outcome → Outcome → Result PublishError Bool → Outcome
by_release present missing (err e) = (err e, [])
by_release present missing (ok true) = present
by_release present missing (ok false) = missing

-- Behind the commands that have run, unless one raised
abbrev pub and_then : Outcome → Outcome → Outcome
and_then (err e, cs) next = (err e, cs)
and_then (ok u, cs) next = (next.0, cs ++ next.1)

module _ (sha256 : Bytes → Text) (w : World) (paths : ReleasePaths) (files : Files) where
  -- `verify_release`, then the test for the notes
  abbrev pub checked : Outcome → Outcome
  checked go =
      when_verified (verify_release sha256 paths files)
        (if is_file notes_file files then go else (err missing_notes, []))

  abbrev pub upload : Bool → Outcome
  upload prerelease = run_commands w.succeeds (upload_plan paths prerelease)

  unfoldable pub gh_release_upload_only : Bool → Outcome
  unfolding verify_release gh_release_exists run_commands
  gh_release_upload_only prerelease = checked (
      when_tag true tag_missing w.remote_tag
        (by_release (upload prerelease) (err release_missing, []) (gh_release_exists w.release)))

  abbrev pub or_detected : Option Bool → Bool
  or_detected none = is_prerelease_version paths.version
  or_detected (some given) = given

  unfoldable pub publish_ci : Bool → Option Bool → Outcome
  unfolding gh_release_upload_only is_prerelease_version confirmed
  publish_ci skip prerelease =
      let uploaded = gh_release_upload_only (or_detected prerelease) in
      if confirmed skip w.answer then uploaded else (err aborted, [])

  unfoldable pub gh_release_create : Bool → Outcome
  unfolding verify_release gh_release_exists run_commands
  gh_release_create prerelease =
      let created =
        run_commands w.succeeds (release_create paths.version (assets paths) prerelease ∷ []) in
      checked (by_release (upload prerelease) created (gh_release_exists w.release))

  abbrev pub tag_plan : Bool → List Command
  tag_plan skip_tag_push =
      git_tag paths.version ∷ (if skip_tag_push then [] else git_push paths.version ∷ [])

  unfoldable pub publish_release : Bool → Bool → Bool → Outcome
  unfolding verify_release confirmed run_commands gh_release_create
  publish_release skip prerelease skip_tag_push =
      let commands =
        and_then (run_commands w.succeeds (tag_plan skip_tag_push))
          (gh_release_create prerelease) in
      let prompted =
        when_tag false remote_tag_exists w.remote_tag
          (if confirmed skip w.answer then commands else (err aborted, [])) in
      when_verified (verify_release sha256 paths files) (
        if w.dirty
        then (err dirty_tree, [])
        else if w.local_tag
        then (err tag_exists, [])
        else prompted)
