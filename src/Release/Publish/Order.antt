-- ===== src/Release/Publish/Order.antt =====
-- In which order a publication makes its tag and its release, and what it asks for before.
use unitor_win64_driver.Base.{
  ◌≡◌, refl, sym, subst, Bool, true, false, Bool-cases, inl, inr, Option, none, some, List, [], ◌∷◌,
  ◌++◌, Text, Bytes, Result, ok, err, All,
}
use unitor_win64_driver.Release.{
  Files, is_file, ReleasePaths, notes_file, VerifyError, verify_release,
}
use unitor_win64_driver.Release.Publish.{
  Command, release_create, PublishError, missing_notes, World, Outcome, gh_release_exists,
  confirmed, run_commands, assets, upload_plan, and_then, gh_release_create, tag_plan,
  publish_release,
}
use unitor_win64_driver.Release.Publish.Guards.{
  UpToFailure, to_the_end, cut, run_commands-UpToFailure,
}

module _ (sha256 : Bytes → Text) (w : World) (paths : ReleasePaths) (files : Files) where
  -- What comes behind the tag: without the notes, or where the release cannot be looked up, only an
  -- exception; else an update of the release that is there, or a new one
  pub data ReleaseRun (prerelease : Bool) : Outcome → Type 0 where
    without_notes : is_file notes_file files ≡ false → ReleaseRun prerelease (err missing_notes, [])
    unviewed :
        {e : PublishError}
        → is_file notes_file files ≡ true
        → gh_release_exists w.release ≡ err e
        → ReleaseRun prerelease (err e, [])
    updates :
        {o : Outcome}
        → is_file notes_file files ≡ true
        → gh_release_exists w.release ≡ ok true
        → UpToFailure w.succeeds (upload_plan paths prerelease) o
        → ReleaseRun prerelease o
    creates :
        {o : Outcome}
        → is_file notes_file files ≡ true
        → gh_release_exists w.release ≡ ok false
        → UpToFailure w.succeeds (release_create paths.version (assets paths) prerelease ∷ []) o
        → ReleaseRun prerelease o

  abbrev create : Bool → Outcome
  create prerelease = gh_release_create sha256 w paths files prerelease

  gh_release_create-ReleaseRun :
      (prerelease : Bool) (exists : Result PublishError Bool)
      → verify_release sha256 paths files ≡ []
      → gh_release_exists w.release ≡ exists
      → ReleaseRun prerelease (create prerelease)
  unfolding gh_release_create
  gh_release_create-ReleaseRun prerelease exists v r =
      elim (Bool-cases (is_file notes_file files)) [
        | inr n ↦ rw (v, n) (without_notes n)
        | inl n ↦ noted exists n r
      ]
    where
      noted :
          (exists : Result PublishError Bool)
          → is_file notes_file files ≡ true
          → gh_release_exists w.release ≡ exists
          → ReleaseRun prerelease (create prerelease)
      noted (err x) n r = rw (v, n, r) (unviewed n r)
      noted (ok true) n r =
          rw (v, n, r)
            (updates n r (run_commands-UpToFailure w.succeeds (upload_plan paths prerelease)))
      noted (ok false) n r =
          let plan = release_create paths.version (assets paths) prerelease ∷ [] in
          rw (v, n, r) (creates n r (run_commands-UpToFailure w.succeeds plan))

  -- What a publication asks for
  pub record MayPublish (skip : Bool) : Type 0 where
    pub verified : verify_release sha256 paths files ≡ []
    pub clean : w.dirty ≡ false
    pub untagged : w.local_tag ≡ false
    pub unpushed : w.remote_tag ≡ some false
    pub agreed : confirmed skip w.answer ≡ true

  abbrev tagging : Bool → List Command
  tagging skip_tag_push = tag_plan sha256 w paths files skip_tag_push

  -- Some condition does not hold, and no command is run; the tag or its push fails, which is raised;
  -- or both succeed, and the release follows.
  pub data PublishRun (skip prerelease skip_tag_push : Bool) : Outcome → Type 0 where
    refused :
        {e : PublishError}
        → ¬ MayPublish skip
        → PublishRun skip prerelease skip_tag_push (err e, [])
    untagged :
        {e : PublishError} {cs : List Command}
        → MayPublish skip
        → UpToFailure w.succeeds (tagging skip_tag_push) (err e, cs)
        → PublishRun skip prerelease skip_tag_push (err e, cs)
    tagged :
        {o : Outcome}
        → MayPublish skip
        → All (λ c. w.succeeds c ≡ true) (tagging skip_tag_push)
        → ReleaseRun prerelease o
        → PublishRun skip prerelease skip_tag_push (o.0, tagging skip_tag_push ++ o.1)

  abbrev publish : Bool → Bool → Bool → Outcome
  publish skip prerelease skip_tag_push =
      publish_release sha256 w paths files skip prerelease skip_tag_push

  and_then-PublishRun :
      (skip prerelease skip_tag_push : Bool) (o next : Outcome)
      → MayPublish skip
      → UpToFailure w.succeeds (tagging skip_tag_push) o
      → ReleaseRun prerelease next
      → PublishRun skip prerelease skip_tag_push (and_then o next)
  and_then-PublishRun skip prerelease skip_tag_push _ next m (to_the_end h) f = tagged m h f
  and_then-PublishRun skip prerelease skip_tag_push _ next m (cut done rest c q h g) f =
      untagged m (cut done rest c q h g)

  publish_release-permitted :
      (skip prerelease skip_tag_push : Bool)
      → MayPublish skip
      → PublishRun skip prerelease skip_tag_push (publish skip prerelease skip_tag_push)
  unfolding publish_release
  publish_release-permitted skip prerelease skip_tag_push m =
      let tags = run_commands w.succeeds (tagging skip_tag_push) in
      let run : publish skip prerelease skip_tag_push ≡ and_then tags (create prerelease) =
        rw (m.verified, m.clean, m.untagged, m.unpushed, m.agreed) refl in
      subst (PublishRun skip prerelease skip_tag_push) (sym run) (
        and_then-PublishRun skip prerelease skip_tag_push tags (create prerelease) m
          (run_commands-UpToFailure w.succeeds (tagging skip_tag_push))
          (gh_release_create-ReleaseRun prerelease _ m.verified refl))

  publish_release-tagged :
      (skip prerelease skip_tag_push : Bool) (tag : Option Bool)
      → verify_release sha256 paths files ≡ []
      → w.dirty ≡ false
      → w.local_tag ≡ false
      → w.remote_tag ≡ tag
      → PublishRun skip prerelease skip_tag_push (publish skip prerelease skip_tag_push)
  unfolding publish_release
  publish_release-tagged skip prerelease skip_tag_push none v c u t =
      rw (v, c, u, t) (refused (λ m. cc (m.unpushed)))
  publish_release-tagged skip prerelease skip_tag_push (some true) v c u t =
      rw (v, c, u, t) (refused (λ m. cc (m.unpushed)))
  publish_release-tagged skip prerelease skip_tag_push (some false) v c u t =
      elim (Bool-cases (confirmed skip w.answer)) [
        | inr f ↦ rw (v, c, u, t, f) (refused (λ m. cc (m.agreed)))
        | inl a ↦
            publish_release-permitted skip prerelease skip_tag_push
              (record { verified = v; clean = c; untagged = u; unpushed = t; agreed = a })
      ]

  publish_release-verified :
      (skip prerelease skip_tag_push : Bool) (es : List VerifyError)
      → verify_release sha256 paths files ≡ es
      → PublishRun skip prerelease skip_tag_push (publish skip prerelease skip_tag_push)
  unfolding publish_release
  publish_release-verified skip prerelease skip_tag_push (x ∷ es) v =
      rw v (refused (λ m. cc (m.verified)))
  publish_release-verified skip prerelease skip_tag_push [] v = elim (Bool-cases w.dirty) [
    | inl d ↦ rw (v, d) (refused (λ m. cc (m.clean)))
    | inr c ↦ elim (Bool-cases w.local_tag) [
      | inl l ↦ rw (v, c, l) (refused (λ m. cc (m.untagged)))
      | inr u ↦ publish_release-tagged skip prerelease skip_tag_push _ v c u refl
    ]
  ]

  -- If the release is not verified, the tree is not clean, the tag is here, is at the origin or cannot
  -- be looked up there, or the user does not agree, a publication raises and runs no command. Else it
  -- makes the tag and pushes it, unless that is to be skipped, and raises at the first of these that
  -- fails, with nothing behind it. Behind a tag it raises and does nothing more without the notes or
  -- where the release cannot be looked up; and otherwise uploads to and edits a release that is there,
  -- or creates one: all of that with success and no exception, or up to the first command that fails,
  -- whose failure is raised.
  pub publish_release-PublishRun :
      (skip prerelease skip_tag_push : Bool)
      → PublishRun skip prerelease skip_tag_push (publish skip prerelease skip_tag_push)
  publish_release-PublishRun skip prerelease skip_tag_push =
      publish_release-verified skip prerelease skip_tag_push _ refl
