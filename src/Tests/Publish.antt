-- ===== src/Tests/Publish.antt =====
-- Publishing a release whose files are missing, and one that the tools would let through.
use unitor_win64_driver.Base.{true, false, none, some, [], ◌∷◌, Text, Bytes, codes}
use unitor_win64_driver.Release.{Files, ReleasePaths}
use unitor_win64_driver.Release.Publish.{World, or_detected, publish_ci, publish_release}
use unitor_win64_driver.Release.Publish.Guards.{CiRun, publish_ci-CiRun}
use unitor_win64_driver.Release.Publish.Order.{PublishRun, publish_release-PublishRun}

abbrev paths : ReleasePaths
paths = record { version = codes "1.0.0-rc"; artifact_version = codes "1.0.0" }

abbrev sha256 : Bytes → Text
sha256 content = codes "ab"

abbrev win11 : Text
win11 = codes "unitor-mt4-bridge-1.0.0-win11-wms-setup.exe"

abbrev win10 : Text
win10 = codes "unitor-mt4-bridge-1.0.0-win10-virtualmidi-setup.exe"

abbrev docs : Text
docs = codes "unitor-mt4-bridge-1.0.0-rc-docs.zip"

abbrev sums : Text
sums =
    codes
      "ab  unitor-mt4-bridge-1.0.0-win11-wms-setup.exe\nab  unitor-mt4-bridge-1.0.0-win10-virtualmidi-setup.exe\nab  unitor-mt4-bridge-1.0.0-rc-docs.zip\n"

abbrev files : Files
files =
    (win11, 1 ∷ [])
    ∷ (win10, 2 ∷ [])
    ∷ (docs, 3 ∷ [])
    ∷ (codes "RELEASE_NOTES.md", 4 ∷ [])
    ∷ (codes "SHA256SUMS.txt", sums)
    ∷ []

abbrev world : World
world = record {
  dirty = false;
  local_tag = false;
  remote_tag = some true;
  release = record { returncode = 0; stdout = []; stderr = [] };
  answer = codes "Yes ";
  succeeds = λ c. true;
}

publish_ci-CiRun_example :
    CiRun sha256 world paths files false
      (or_detected sha256 world paths files none)
      (publish_ci sha256 world paths files false none)
publish_ci-CiRun_example = publish_ci-CiRun sha256 world paths files false none

publish_release-PublishRun_example :
    PublishRun sha256
      (record world { remote_tag = some false })
      paths
      files
      true
      true
      false
      (publish_release sha256
        (record world { remote_tag = some false })
        paths
        files
        true
        true
        false)
publish_release-PublishRun_example =
    publish_release-PublishRun sha256 (record world { remote_tag = some false }) paths files true
      true false
