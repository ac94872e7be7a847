-- ===== src/Tests/Title.antt =====
-- The free chat title, among three chats of the same name.
use unitor_win64_driver.Base.{◌≡◌, false, some, List, [], ◌∷◌, Text, codes, any, equal}
use unitor_win64_driver.Title.{resolve_title}
use unitor_win64_driver.Title.Fresh.{IsLeast, resolve_title-IsLeast}

abbrev chats : List Text
chats = codes "Story 4" ∷ codes "Story 4 (1)" ∷ codes "Story 4 (3)" ∷ codes "Other" ∷ []

resolve_title-IsLeast_example :
    (t : Text) × (resolve_title (codes "Story 4") chats ≡ some t)
    × (any (equal t) chats ≡ false)
    × IsLeast (codes "Story 4") chats t
resolve_title-IsLeast_example = resolve_title-IsLeast (codes "Story 4") chats
