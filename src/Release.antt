-- ===== src/Release.antt =====
-- Packing and verifying a release: scripts/packaging/prepare-release.py. A directory is a list of
-- names and contents; the text files hold ASCII, so their bytes are their code points. The digest
-- is a parameter, as hashlib computes it.
pub mod Files
pub mod Pack
pub mod Restored
pub mod InPlace
pub mod Verify
pub mod Lines
pub mod RoundTrip
pub mod Publish
use unitor_win64_driver.Base.{
  ℕ, Bool, true, false, ◌&&◌, not, Option, none, some, List, [], ◌∷◌, ◌++◌, Text, Bytes, codes,
  Result, ok, err, if◌then◌else◌, ◌==◌, equal, length, is_space, lstrip, is_blank, any,
}
use unitor_win64_driver.Quality.Lines.{splitlines}

abbrev pub Files : Type 0
Files = List (Text × Bytes)

-- What `path.is_file()` and a read find
abbrev pub find_file : Text → Files → Option Bytes
find_file name [] = none
find_file name ((n, content) ∷ files) =
    let rest = find_file name files in if equal n name then some content else rest

abbrev pub is_file : Text → Files → Bool
is_file name files = elim (find_file name files) [ none ↦ false | some content ↦ true ]

abbrev pub write_file : Text → Bytes → Files → Files
write_file name content files = (name, content) ∷ files

abbrev pub unlink : Text → Files → Files
unlink name [] = []
unlink name ((n, content) ∷ files) =
    let rest = unlink name files in if equal n name then rest else (n, content) ∷ rest

pub record ReleasePaths : Type 0 where
  pub version : Text
  pub artifact_version : Text

-- `FLAVORS`
abbrev pub flavors : List Text
flavors = codes "win11-wms" ∷ codes "win10-virtualmidi" ∷ []

abbrev pub checksum_file : Text
checksum_file = codes "SHA256SUMS.txt"

abbrev pub notes_file : Text
notes_file = codes "RELEASE_NOTES.md"

abbrev pub setup_name : ReleasePaths → Text → Text
setup_name paths flavor =
    codes "unitor-mt4-bridge-"
    ++ (paths.artifact_version ++ (b'-' ∷ (flavor ++ codes "-setup.exe")))

abbrev pub docs_archive : ReleasePaths → Text
docs_archive paths = codes "unitor-mt4-bridge-" ++ (paths.version ++ codes "-docs.zip")

abbrev pub setup_names : ReleasePaths → List Text → List Text
setup_names paths [] = []
setup_names paths (flavor ∷ fs) = setup_name paths flavor ∷ setup_names paths fs

abbrev pub distributable_files : ReleasePaths → List Text
distributable_files paths = setup_names paths flavors ++ docs_archive paths ∷ []

pub data PackError : Type 0 where
  missing_setups : List Text → PackError
  already_exists : Text → PackError
  expected_both : PackError
  copy_failed : Text → PackError
  missing_files : List Text → PackError

-- What `shutil.copy2` does: it copies, or it raises and leaves some content or nothing behind.
pub data CopyOutcome : Type 0 where
  copied : CopyOutcome
  failed : Option Bytes → CopyOutcome

abbrev pub Pending : Type 0
Pending = List (Text × Bytes)

-- The first loop of `pack_setups`, over the names of the flavors
unfoldable pub pack_plan :
    Files → Files → Bool → Pending → List Text → List Text → Result PackError (Pending × List Text)
pack_plan source release force pending missing [] = ok (pending, missing)
pack_plan source release force pending missing (name ∷ names) = elim (find_file name source) [
  | none ↦ pack_plan source release force pending (missing ++ name ∷ []) names
  | some content ↦
      let more = pack_plan source release force (pending ++ (name, content) ∷ []) missing names in
      if is_file name release && not force then err (already_exists name) else more
]

-- `for path in copied: if path.is_file(): path.unlink()`
abbrev pub unlink_all : List Text → Files → Files
unlink_all [] files = files
unlink_all (name ∷ names) files = unlink_all names (unlink name files)

abbrev pub leave : Text → Option Bytes → Files → Files
leave name none files = files
leave name (some content) files = write_file name content files

-- The second loop, with the handler of its exceptions
unfoldable pub copy_loop :
    (Text → CopyOutcome) → List Text → Files → Pending → Result PackError Unit × Files
copy_loop copy copied_names release [] = (ok tt, release)
copy_loop copy copied_names release ((name, content) ∷ pending) = elim (copy name) [
  | copied ↦ copy_loop copy (copied_names ++ name ∷ []) (write_file name content release) pending
  | failed left ↦ (err (copy_failed name), unlink_all copied_names (leave name left release))
]

abbrev pub after_plan :
    (Text → CopyOutcome)
    → Files
    → Result PackError (Pending × List Text)
    → Result PackError Unit × Files
after_plan copy release (err e) = (err e, release)
after_plan copy release (ok (pending, m ∷ ms)) = (err (missing_setups (m ∷ ms)), release)
after_plan copy release (ok (pending, [])) =
    if not (length pending == length flavors)
    then (err expected_both, release)
    else copy_loop copy [] release pending

unfoldable pub pack_setups :
    (Text → CopyOutcome) → ReleasePaths → Files → Bool → Files → Result PackError Unit × Files
unfolding copy_loop
pack_setups copy paths source force release =
    after_plan copy release (pack_plan source release force [] [] (setup_names paths flavors))

module _ (sha256 : Bytes → Text) where
  abbrev pub missing_of : Files → List Text → List Text
  missing_of files [] = []
  missing_of files (p ∷ ps) =
      let rest = missing_of files ps in if is_file p files then rest else p ∷ rest

  -- Each line with the line feed behind it, as `"\n".join(lines) + "\n"` gives them
  abbrev pub checksum_text : Files → List Text → Text
  checksum_text files [] = []
  checksum_text files (p ∷ ps) =
      let rest = checksum_text files ps in
      elim (find_file p files) [
        | none ↦ rest
        | some content ↦ sha256 content ++ (codes "  " ++ (p ++ (10 ∷ rest)))
      ]

  unfoldable pub write_checksums : ReleasePaths → Files → Result PackError Files
  write_checksums paths files = elim (missing_of files (distributable_files paths)) [
    | m ∷ ms ↦ err (missing_files (m ∷ ms))
    | [] ↦ ok (write_file checksum_file (checksum_text files (distributable_files paths)) files)
  ]

-- `line.split(maxsplit=1)` of a line that is not blank: the two parts, or `none` for one part
abbrev pub word_of : Text → Text
word_of [] = []
word_of (c ∷ cs) = let rest = word_of cs in if is_space c then [] else c ∷ rest

abbrev pub behind_word : Text → Text
behind_word [] = []
behind_word (c ∷ cs) = let rest = behind_word cs in if is_space c then c ∷ cs else rest

abbrev pub two_parts : Text → Text → Option (Text × Text)
two_parts word [] = none
two_parts word (c ∷ cs) = some (word, c ∷ cs)

unfoldable pub split_once : Text → Option (Text × Text)
split_once line = two_parts (word_of (lstrip line)) (lstrip (behind_word (lstrip line)))

pub data VerifyError : Type 0 where
  invalid_line references_missing mismatch unlisted missing empty_file : Text → VerifyError
  no_notes no_checksums : VerifyError

module _ (sha256 : Bytes → Text) where
  -- The error of one line that names a file, if there is one
  abbrev pub line_errors : Files → Text → Text → List VerifyError
  line_errors files expected name = elim (find_file name files) [
    | none ↦ references_missing name ∷ []
    | some content ↦ if equal (sha256 content) expected then [] else mismatch name ∷ []
  ]

  -- The loop over the lines: the errors, and the names that it has seen
  unfoldable pub check_lines : Files → List Text → List VerifyError × List Text
  check_lines files [] = ([], [])
  check_lines files (line ∷ lines) =
      let rest = check_lines files lines in
      let checked : List VerifyError × List Text = elim (split_once line) [
        | none ↦ (invalid_line line ∷ rest.0, rest.1)
        | some (expected, name) ↦ (line_errors files expected name ++ rest.0, name ∷ rest.1)
      ] in
      if is_blank line then rest else checked

  abbrev pub unlisted_errors : List Text → List Text → List VerifyError
  unlisted_errors names [] = []
  unlisted_errors names (p ∷ ps) =
      let rest = unlisted_errors names ps in
      if any (λ n. equal n p) names then rest else unlisted p ∷ rest

  -- `_checksum_errors`
  unfoldable pub checksum_errors : ReleasePaths → Files → Text → List VerifyError
  unfolding check_lines
  checksum_errors paths files text =
      (check_lines files (splitlines text)).0
      ++ unlisted_errors (check_lines files (splitlines text)).1 (distributable_files paths)

  abbrev pub file_errors : Files → List Text → List VerifyError
  file_errors files [] = []
  file_errors files (p ∷ ps) =
      let rest = file_errors files ps in
      elim (find_file p files) [
        | none ↦ missing p ∷ rest
        | some [] ↦ empty_file p ∷ rest
        | some (b ∷ bs) ↦ rest
      ]

  -- The errors that `verify_release` prints; with none it ends well.
  unfoldable pub verify_release : ReleasePaths → Files → List VerifyError
  unfolding checksum_errors
  verify_release paths files =
      file_errors files (distributable_files paths)
      ++ ((if is_file notes_file files then [] else no_notes ∷ [])
          ++ elim (find_file checksum_file files) [
            | none ↦ no_checksums ∷ []
            | some text ↦ checksum_errors paths files text
          ])
