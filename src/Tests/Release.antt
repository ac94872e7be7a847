-- ===== src/Tests/Release.antt =====
-- Theorems of the release packaging at a small release.
use unitor_win64_driver.Base.{
  ◌≡◌, ◌≢◌, refl, arith, true, false, none, some, equal, if◌then◌else◌, [], ◌∷◌, ◌++◌, is_space,
  Text, Bytes, codes, ok, All,
}
use unitor_win64_driver.Quality.Lines.{splitlines}
use unitor_win64_driver.Release.{
  Files, find_file, is_file, ReleasePaths, distributable_files, checksum_file, notes_file,
  copy_failed, CopyOutcome, copied, failed, copy_loop, pack_plan, pack_setups, write_checksums,
  split_once, check_lines, checksum_errors, verify_release,
}
use unitor_win64_driver.Release.Pack.{LeavesNothing}
use unitor_win64_driver.Release.Restored.{pack_setups-IsRestored}
use unitor_win64_driver.Release.Lines.{IsDigest, IsWord}
use unitor_win64_driver.Release.Verify.{IsListed, verify_release-IsListed}
use unitor_win64_driver.Release.RoundTrip.{IsPacked, write_checksums-verify_release}

abbrev paths : ReleasePaths
paths = record { version = codes "1.0.0-rc"; artifact_version = codes "1.0.0" }

abbrev win11 : Text
win11 = codes "unitor-mt4-bridge-1.0.0-win11-wms-setup.exe"

abbrev win10 : Text
win10 = codes "unitor-mt4-bridge-1.0.0-win10-virtualmidi-setup.exe"

abbrev docs : Text
docs = codes "unitor-mt4-bridge-1.0.0-rc-docs.zip"

-- The second setup cannot be copied.
abbrev copies : Text → CopyOutcome
copies name = if equal name win10 then failed none else copied

copies-LeavesNothing : LeavesNothing copies
copies-LeavesNothing name left h = ground (arith, h)

abbrev built : Files
built = (win11, 1 ∷ []) ∷ (win10, 2 ∷ []) ∷ []

-- The first setup is copied and removed again.
pack_setups-IsRestored_example :
    find_file win11 (pack_setups copies paths built false ((docs, 3 ∷ []) ∷ [])).1
    ≡ find_file win11 ((docs, 3 ∷ []) ∷ [])
pack_setups-IsRestored_example =
    pack_setups-IsRestored copies paths built ((docs, 3 ∷ []) ∷ []) (copy_failed win10)
      copies-LeavesNothing (unfold pack_setups pack_plan copy_loop in refl) win11

abbrev release : Files
release = (win11, 1 ∷ []) ∷ (win10, 2 ∷ []) ∷ (docs, 3 ∷ []) ∷ (notes_file, 4 ∷ []) ∷ []

a-IsWord : IsWord (b'a' ∷ [])
unfolding is_space
a-IsWord = ground arith

version-IsWord : IsWord paths.version
unfolding is_space
version-IsWord = ground arith

artifact_version-IsWord : IsWord paths.artifact_version
unfolding is_space
artifact_version-IsWord = ground arith

-- A stand-in for the digest: one letter
abbrev digest : Bytes → Text
digest content = b'a' ∷ []

digest-IsDigest : (content : Bytes) → IsDigest (digest content)
digest-IsDigest content = record { not_empty = λ e. ground (arith, e); is_word = a-IsWord }

release-IsPacked : All (IsPacked release) (distributable_files paths)
release-IsPacked = (
  record { content = 1 ∷ []; is_there = refl; not_empty = λ e. ground (arith, e) },
  (
    record { content = 2 ∷ []; is_there = refl; not_empty = λ e. ground (arith, e) },
    (record { content = 3 ∷ []; is_there = refl; not_empty = λ e. ground (arith, e) }, tt),
  ),
)

write_checksums-verify_release_example :
    (after : Files) × (write_checksums digest paths release ≡ ok after)
    × (verify_release digest paths after ≡ [])
write_checksums-verify_release_example =
    write_checksums-verify_release digest paths release digest-IsDigest version-IsWord
      artifact_version-IsWord release-IsPacked refl

abbrev verified : Files
verified =
    (
      checksum_file,
      codes "a  unitor-mt4-bridge-1.0.0-win11-wms-setup.exe\n"
          ++ (codes "a  unitor-mt4-bridge-1.0.0-win10-virtualmidi-setup.exe\n"
              ++ codes "a  unitor-mt4-bridge-1.0.0-rc-docs.zip\n"),
    )
    ∷ release

verified_has_no_error : verify_release digest paths verified ≡ []
unfolding verify_release checksum_errors check_lines split_once splitlines is_space
verified_has_no_error = refl

verify_release-IsListed_example :
    (is_file notes_file verified ≡ true)
    × All (λ p. find_file p verified ≢ some []) (distributable_files paths)
    × ((text : Text) × (find_file checksum_file verified ≡ some text)
        × All (IsListed digest verified (splitlines text)) (distributable_files paths))
verify_release-IsListed_example =
    verify_release-IsListed digest paths verified verified_has_no_error
