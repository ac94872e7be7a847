-- ===== src/Release/RoundTrip.antt =====
-- Writing the checksums and verifying the release fit together.
use unitor_win64_driver.Base.{
  ◌≡◌, ◌≢◌, refl, sym, ap, ◌∙◌, arith, true, false, some, List, [], ◌∷◌, ◌++◌, append_assoc, Text,
  Bytes, codes, ok, is_space, All, All-append,
}
use unitor_win64_driver.Quality.Lines.{splitlines}
use unitor_win64_driver.Release.{
  Files, find_file, is_file, write_file, ReleasePaths, distributable_files, checksum_file,
  notes_file, missing_of, checksum_text, write_checksums, check_lines, unlisted_errors,
  checksum_errors, file_errors, verify_release,
}
use unitor_win64_driver.Release.Files.{any_after}
use unitor_win64_driver.Release.Lines.{IsWord, IsDigest, IsKept, check_lines-checksum_text}

unlisted_errors-all :
    (sha256 : Bytes → Text) (xs ps : List Text) → unlisted_errors sha256 (xs ++ ps) ps ≡ []
unlisted_errors-all sha256 xs [] = refl
unlisted_errors-all sha256 xs (p ∷ ps) = rw (any_after xs ps p) (
    ap (λ (l : List Text). unlisted_errors sha256 l ps) (sym (append_assoc xs (p ∷ []) ps))
    ∙ unlisted_errors-all sha256 (xs ++ p ∷ []) ps)

-- A distributable file with its content
pub record IsPacked (files : Files) (p : Text) : Type 0 where
  pub content : Bytes
  pub is_there : find_file p files ≡ some content
  pub not_empty : content ≢ []

file_errors-IsPacked :
    (sha256 : Bytes → Text) (files after : Files) (ps : List Text)
    → All (λ p. find_file p after ≡ find_file p files) ps
    → All (IsPacked files) ps
    → file_errors sha256 after ps ≡ []
file_errors-IsPacked sha256 files after [] k h = refl
file_errors-IsPacked sha256 files after (p ∷ ps) k h =
    nonempty h.0.content (k.0 ∙ h.0.is_there) h.0.not_empty
      (file_errors-IsPacked sha256 files after ps k.1 h.1)
  where
    nonempty :
        (content : Bytes)
        → find_file p after ≡ some content
        → content ≢ []
        → file_errors sha256 after ps ≡ []
        → file_errors sha256 after (p ∷ ps) ≡ []
    nonempty [] e n rest = absurd (n refl)
    nonempty (b ∷ bs) e n rest = rw (e, file_errors) rest

missing_of-IsPacked :
    (sha256 : Bytes → Text) (files : Files) (ps : List Text)
    → All (IsPacked files) ps
    → missing_of sha256 files ps ≡ []
missing_of-IsPacked sha256 files [] h = refl
missing_of-IsPacked sha256 files (p ∷ ps) h =
    ground (arith, h.0.is_there, missing_of-IsPacked sha256 files ps h.1)

All-IsKept :
    (sha256 : Bytes → Text) (digests : (content : Bytes) → IsDigest (sha256 content))
    (files after : Files) (ps : List Text)
    → All (λ p. find_file p after ≡ find_file p files) ps
    → All IsDigest ps
    → All (IsPacked files) ps
    → All (IsKept sha256 digests files after) ps
All-IsKept sha256 digests files after [] k n h = tt
All-IsKept sha256 digests files after (p ∷ ps) k n h = (
  record {
    content = h.0.content;
    there_before = h.0.is_there;
    there_after = k.0 ∙ h.0.is_there;
    has_name = n.0;
  },
  All-IsKept sha256 digests files after ps k.1 n.1 h.1,
)

abbrev hyphen_word : Text → Text → Text
hyphen_word v rest = codes "unitor-mt4-bridge-" ++ (v ++ rest)

hyphen_word-IsDigest : (v rest : Text) → IsWord v → IsWord rest → IsDigest (hyphen_word v rest)
unfolding is_space
hyphen_word-IsDigest v rest h k = record {
  not_empty = λ e. ground arith;
  is_word =
      All-append (λ c. is_space c ≡ false) (codes "unitor-mt4-bridge-") (v ++ rest) (ground arith)
        (All-append (λ c. is_space c ≡ false) v rest h k);
}

distributable_files-IsDigest :
    (paths : ReleasePaths)
    → IsWord paths.version
    → IsWord paths.artifact_version
    → All IsDigest (distributable_files paths)
unfolding is_space
distributable_files-IsDigest paths v a = (
  hyphen_word-IsDigest paths.artifact_version (codes "-win11-wms-setup.exe") a (ground arith),
  (
    hyphen_word-IsDigest paths.artifact_version (codes "-win10-virtualmidi-setup.exe") a
        (ground arith),
    (hyphen_word-IsDigest paths.version (codes "-docs.zip") v (ground arith), tt),
  ),
)

verify_release_parts :
    (sha256 : Bytes → Text) (paths : ReleasePaths) (after : Files) (text : Text)
    → file_errors sha256 after (distributable_files paths) ≡ []
    → is_file notes_file after ≡ true
    → find_file checksum_file after ≡ some text
    → check_lines sha256 after (splitlines text) ≡ ([], distributable_files paths)
    → verify_release sha256 paths after ≡ []
unfolding verify_release checksum_errors
verify_release_parts sha256 paths after text f n c checked =
    rw (f, n, c, checked) (unlisted_errors-all sha256 [] (distributable_files paths))

-- A release whose three distributable files are there and not empty, and whose notes are there,
-- gets its checksums, and then passes the verification with no error, if the digest of any content
-- is a word, and the versions in the names are without white space.
pub write_checksums-verify_release :
    (sha256 : Bytes → Text) (paths : ReleasePaths) (files : Files)
    → ((content : Bytes) → IsDigest (sha256 content))
    → IsWord paths.version
    → IsWord paths.artifact_version
    → All (IsPacked files) (distributable_files paths)
    → is_file notes_file files ≡ true
    → (after : Files) × (write_checksums sha256 paths files ≡ ok after)
      × (verify_release sha256 paths after ≡ [])
unfolding write_checksums
write_checksums-verify_release sha256 paths files digests v a packed notes =
    let ps = distributable_files paths in
    let text = checksum_text sha256 files ps in
    let after = write_file checksum_file text files in
    let names = distributable_files-IsDigest paths v a in
    let kept : All (λ p. find_file p after ≡ find_file p files) ps = (refl, (refl, (refl, tt))) in
    let checked =
      check_lines-checksum_text sha256 digests files after ps
        (All-IsKept sha256 digests files after ps kept names packed) in
    (
      after,
      rw (missing_of-IsPacked sha256 files ps packed, write_checksums) refl,
      verify_release_parts sha256 paths after text
          (file_errors-IsPacked sha256 files after ps kept packed) notes refl checked,
    )
