-- ===== src/Release/Files.antt =====
-- Looking a file up behind a write or an unlink.
use unitor_win64_driver.Base.{
  ◌≡◌, refl, arith, true, none, List, [], ◌∷◌, Text, equal, equal→eq, equal_refl, ◌++◌, any,
  if◌then◌else◌,
}
use unitor_win64_driver.Release.{Files, find_file, unlink, unlink_all}

pub find_file-unlink :
    (q name : Text) (files : Files)
    → find_file q (unlink name files) ≡ (if equal name q then none else find_file q files)
find_file-unlink q name [] = ground arith
find_file-unlink q name ((n, content) ∷ files) =
    ground (arith, find_file-unlink q name files, equal→eq n name, equal→eq n q, equal→eq name q)

pub find_file-unlink_all :
    (q : Text) (names : List Text) (files : Files)
    → find_file q (unlink_all names files)
      ≡ (if any (λ n. equal n q) names then none else find_file q files)
find_file-unlink_all q [] files = refl
find_file-unlink_all q (n ∷ names) files =
    ground (arith, find_file-unlink_all q names (unlink n files), find_file-unlink q n files)

pub any_after : (xs ys : List Text) (p : Text) → any (λ n. equal n p) (xs ++ p ∷ ys) ≡ true
any_after [] ys p = ground (arith, equal_refl p)
any_after (x ∷ xs) ys p = ground (arith, any_after xs ys p)
