-- ===== src/Release/Verify.antt =====
-- What a release that passes the verification holds.
use unitor_win64_driver.Base.{
  ◌≡◌, ◌≢◌, refl, arith, true, Bool-cases, Option-cases, inl, inr, some, List, [], ◌∷◌, ◌++◌, Text,
  Bytes, equal, equal→eq, any, is_blank, if◌then◌else◌, All,
}
use unitor_win64_driver.Quality.Lines.{splitlines}
use unitor_win64_driver.Release.{
  Files, find_file, is_file, ReleasePaths, distributable_files, checksum_file, notes_file,
  split_once, line_errors, check_lines, unlisted_errors, checksum_errors, file_errors,
  verify_release, no_notes,
}

-- Some line reads as this digest and this name.
pub data Lists (expected name : Text) : List Text → Type 0 where
  here :
      {line : Text} {lines : List Text}
      → split_once line ≡ some (expected, name)
      → Lists expected name (line ∷ lines)
  there :
      {line : Text} {lines : List Text}
      → Lists expected name lines
      → Lists expected name (line ∷ lines)

append-nil_parts {ℓ} : {A : Type ℓ} (xs ys : List A) → xs ++ ys ≡ [] → (xs ≡ []) × (ys ≡ [])
append-nil_parts [] ys h = (refl, h)
append-nil_parts (x ∷ xs) ys h = absurd (ground arith)

module _ (sha256 : Bytes → Text) (files : Files) where
  -- The file is there, with the digest that some line gives for its name.
  pub record IsListed (lines : List Text) (p : Text) : Type 0 where
    pub content : Bytes
    pub is_there : find_file p files ≡ some content
    pub is_listed : Lists (sha256 content) p lines

  IsListed-later :
      {line : Text} {lines : List Text} (p : Text) → IsListed lines p → IsListed (line ∷ lines) p
  IsListed-later p h = record {
    content = h.content;
    is_there = h.is_there;
    is_listed = there h.is_listed;
  }

  line_errors-nil :
      (expected name : Text)
      → line_errors sha256 files expected name ≡ []
      → (content : Bytes) × (find_file name files ≡ some content) × (sha256 content ≡ expected)
  line_errors-nil expected name h = elim (Option-cases (find_file name files)) [
    | inl n ↦ absurd (ground (arith, n, h))
    | inr (content, q) ↦ (content, q, ground (arith, q, h, equal→eq (sha256 content) expected))
  ]

  check_lines-IsListed :
      (lines : List Text) (p : Text)
      → (check_lines sha256 files lines).0 ≡ []
      → any (λ n. equal n p) (check_lines sha256 files lines).1 ≡ true
      → IsListed lines p
  unfolding check_lines
  check_lines-IsListed [] p h a = absurd (ground arith)
  check_lines-IsListed (line ∷ lines) p h a = elim (Bool-cases (is_blank line)) [
    | inl b ↦ IsListed-later p (check_lines-IsListed lines p (rw b at h) (rw b at a))
    | inr b ↦ elim (Option-cases (split_once line)) [
      | inl n ↦ absurd (ground (arith, b, n, h))
      | inr ((expected, name), q) ↦
          let (h0, h1) =
            append-nil_parts (line_errors sha256 files expected name)
              (check_lines sha256 files lines).0 (ground (arith, b, q, h)) in
          elim (Bool-cases (equal name p)) [
            | inl e ↦
                let (content, there_, digest) = line_errors-nil expected name h0 in
                let same = equal→eq name p e in
                record {
                  content = content;
                  is_there = rw same at there_;
                  is_listed = here (cc (q, digest, same));
                }
            | inr e ↦
                IsListed-later p (check_lines-IsListed lines p h1 (ground (arith, b, q, a, e)))
          ]
    ]
  ]

  unlisted_errors-any :
      (names ps : List Text)
      → unlisted_errors sha256 names ps ≡ []
      → All (λ p. any (λ n. equal n p) names ≡ true) ps
  unlisted_errors-any names [] h = tt
  unlisted_errors-any names (p ∷ ps) h = elim (Bool-cases (any (λ n. equal n p) names)) [
    | inl e ↦ (e, unlisted_errors-any names ps (ground (arith, e, h)))
    | inr e ↦ absurd (ground (arith, e, h))
  ]

  -- The listed files are not empty.
  file_errors-nil :
      (ps : List Text)
      → file_errors sha256 files ps ≡ []
      → All (λ p. find_file p files ≢ some []) ps
  file_errors-nil [] h = tt
  file_errors-nil (p ∷ ps) h = ((λ e. ground (arith, e, h)), file_errors-nil ps (ground (arith, h)))

  All-IsListed :
      (lines ps : List Text)
      → (check_lines sha256 files lines).0 ≡ []
      → All (λ p. any (λ n. equal n p) (check_lines sha256 files lines).1 ≡ true) ps
      → All (IsListed lines) ps
  All-IsListed lines [] h a = tt
  All-IsListed lines (p ∷ ps) h a =
      (check_lines-IsListed lines p h a.0, All-IsListed lines ps h a.1)

-- If the verification reports no error, the release notes and the checksums are there, no
-- distributable file is empty, and each of the three is there with the digest that a line of the
-- checksums gives for its name.
pub verify_release-IsListed :
    (sha256 : Bytes → Text) (paths : ReleasePaths) (files : Files)
    → verify_release sha256 paths files ≡ []
    → (is_file notes_file files ≡ true)
      × All (λ p. find_file p files ≢ some []) (distributable_files paths)
      × ((text : Text) × (find_file checksum_file files ≡ some text)
          × All (IsListed sha256 files (splitlines text)) (distributable_files paths))
unfolding verify_release checksum_errors
verify_release-IsListed sha256 paths files h =
    let (h0, h1) = append-nil_parts (file_errors sha256 files (distributable_files paths)) _ h in
    let (h2, h3) = append-nil_parts (if is_file notes_file files then [] else no_notes ∷ []) _ h1 in
    elim (Option-cases (find_file checksum_file files)) [
      | inl n ↦ absurd (ground (arith, n, h3))
      | inr (text, q) ↦
          let (h4, h5) =
            append-nil_parts (check_lines sha256 files (splitlines text)).0
              (unlisted_errors sha256 (check_lines sha256 files (splitlines text)).1
                (distributable_files paths))
              (rw q at h3) in
          (
            ground (arith, h2),
            file_errors-nil sha256 files (distributable_files paths) h0,
            (
              text,
              q,
              All-IsListed sha256 files (splitlines text) (distributable_files paths) h4 (
                  unlisted_errors-any sha256 files (check_lines sha256 files (splitlines text)).1
                    (distributable_files paths) h5),
            ),
          )
    ]
