-- ===== src/Release/Restored.antt =====
-- A packing that fails leaves the release directory as it was.
use unitor_win64_driver.Base.{
  ◌≡◌, refl, arith, false, Bool-cases, inl, inr, Option, none, some, List, [], ◌∷◌, ◌++◌, Text,
  Bytes, Result, ok, err, All, length, ◌==◌,
}
use unitor_win64_driver.Release.{
  Files, find_file, write_file, ReleasePaths, flavors, setup_names, PackError, CopyOutcome, Pending,
  pack_plan, unlink_all, leave, copy_loop, after_plan, pack_setups,
}
use unitor_win64_driver.Release.Files.{find_file-unlink_all}
use unitor_win64_driver.Release.Pack.{
  IsMidway, IsFresh, LeavesNothing, IsMidway-write, pack_plan-IsFresh, CopyOutcome-cases,
  copy_loop-copied, copy_loop_left,
}

module _ (source base : Files) (copy : Text → CopyOutcome) where
  -- What the copies leave: after an error the directory as it was, otherwise each file in place
  abbrev IsRestored : Result PackError Unit × Files → Type 0
  IsRestored r = (e : PackError) → r.0 ≡ err e → (q : Text) → find_file q r.1 ≡ find_file q base

  restored :
      (done : List Text) (now : Files) (name : Text) (left : Option Bytes)
      → left ≡ none
      → IsMidway source base now done
      → (q : Text) → find_file q (unlink_all done (leave name left now)) ≡ find_file q base
  restored done now name (some content) l m q = absurd (ground (arith, l))
  restored done now name none l m q =
      ground (arith, find_file-unlink_all q done now, m.others q, m.were_absent q)

  copy_loop-IsRestored :
      (done : List Text) (now : Files) (pending : Pending)
      → LeavesNothing copy
      → All (IsFresh source base) pending
      → IsMidway source base now done
      → IsRestored (copy_loop copy done now pending)
  copy_loop-IsRestored done now [] l f m = λ e h q. absurd (unfold copy_loop in ground (arith, h))
  copy_loop-IsRestored done now ((name, content) ∷ pending) l f m =
      elim (CopyOutcome-cases (copy name)) [
        | inl c ↦ rw (copy_loop-copied copy done now name content pending c) (
            copy_loop-IsRestored (done ++ name ∷ []) (write_file name content now) pending l f.1
              (IsMidway-write source base name content f.0 m))
        | inr (left, c) ↦
            rw (copy_loop_left copy done now name content pending left c)
              (λ e h q. restored done now name left (l name left c) m q)
      ]

  after_plan-IsRestored :
      (plan : Result PackError (Pending × List Text))
      → LeavesNothing copy
      → ((pending : Pending) → plan ≡ ok (pending, []) → All (IsFresh source base) pending)
      → IsRestored (after_plan copy base plan)
  after_plan-IsRestored (err e') l f = λ e h q. refl
  after_plan-IsRestored (ok (pending, m ∷ ms)) l f = λ e h q. refl
  after_plan-IsRestored (ok (pending, [])) l f =
      elim (Bool-cases (length pending == length flavors)) [
        | inr n ↦ rw (n, after_plan) (λ e h q. refl)
        | inl n ↦
            rw (n, after_plan)
              (copy_loop-IsRestored [] base pending l (f pending refl) (record {
                others = λ q h. refl;
                were_absent = λ q h. absurd (ground (arith, h));
                are_copied = λ q h. absurd (ground (arith, h));
              }))
      ]

-- Without --force the packing is all or nothing: if it ends with an error, whichever it is, and a
-- copy that fails leaves nothing behind, every file of the release directory is as it was before.
pub pack_setups-IsRestored :
    (copy : Text → CopyOutcome) (paths : ReleasePaths) (source release : Files) (e : PackError)
    → LeavesNothing copy
    → (pack_setups copy paths source false release).0 ≡ err e
    → (q : Text) → find_file q (pack_setups copy paths source false release).1 ≡ find_file q release
unfolding pack_setups
pack_setups-IsRestored copy paths source release e l h q =
    after_plan-IsRestored source release copy
      (pack_plan source release false [] [] (setup_names paths flavors)) l
      (λ pending p.
        pack_plan-IsFresh source release [] [] (setup_names paths flavors) pending [] tt p)
      e h q
