-- ===== src/Release/Pack.antt =====
-- The steps of packing: the plan and one copy.
use unitor_win64_driver.Base.{
  ◌≡◌, refl, arith, Bool, true, false, ◌||◌, Option-cases, inl, inr, ◌⊎◌, Option, none, some, List,
  [], ◌∷◌, ◌++◌, Text, Bytes, ok, err, equal, equal→eq, any, All, All-concat,
}
use unitor_win64_driver.Release.{
  Files, find_file, write_file, CopyOutcome, copied, failed, copy_failed, Pending, pack_plan,
  unlink_all, leave, copy_loop,
}

abbrev pub contains_name : Text → List Text → Bool
contains_name q = any (λ n. equal n q)

contains_name-concat :
    (q name : Text) (done : List Text)
    → contains_name q (done ++ name ∷ []) ≡ (contains_name q done || equal name q)
contains_name-concat q name [] = ground arith
contains_name-concat q name (d ∷ done) = ground (arith, contains_name-concat q name done)

-- The directory between two copies: the files copied so far are as in the source, and were not there
-- before; every other file is as it was.
pub record IsMidway (source base now : Files) (done : List Text) : Type 0 where
  pub others : (q : Text) → contains_name q done ≡ false → find_file q now ≡ find_file q base
  pub were_absent : (q : Text) → contains_name q done ≡ true → find_file q base ≡ none
  pub are_copied : (q : Text) → contains_name q done ≡ true → find_file q now ≡ find_file q source

-- A pending file is in the source and not yet in the release.
pub record IsFresh (source base : Files) (entry : Text × Bytes) : Type 0 where
  pub from_source : find_file entry.0 source ≡ some entry.1
  pub absent : find_file entry.0 base ≡ none

-- A copy that fails leaves nothing behind.
abbrev pub LeavesNothing : (Text → CopyOutcome) → Type 0
LeavesNothing copy = (name : Text) (left : Option Bytes) → copy name ≡ failed left → left ≡ none

module _ (source base : Files) where
  pub IsMidway-write :
      {now : Files} {done : List Text} (name : Text) (content : Bytes)
      → IsFresh source base (name, content)
      → IsMidway source base now done
      → IsMidway source base (write_file name content now) (done ++ name ∷ [])
  IsMidway-write {now} {done} name content f m = record {
    others = λ q h. ground (arith, contains_name-concat q name done, m.others q);
    were_absent = λ q h.
        ground
          (arith, contains_name-concat q name done, m.were_absent q, equal→eq name q, f.absent);
    are_copied = λ q h.
        ground
          (arith, contains_name-concat q name done, m.are_copied q, equal→eq name q, f.from_source);
  }

  pub pack_plan-IsFresh :
      (pending : Pending) (missing names : List Text) (pending' : Pending) (missing' : List Text)
      → All (IsFresh source base) pending
      → pack_plan source base false pending missing names ≡ ok (pending', missing')
      → All (IsFresh source base) pending'
  unfolding pack_plan
  pack_plan-IsFresh pending missing [] pending' missing' f h =
      let e : pending ≡ pending' = ground (arith, h) in rw e at f
  pack_plan-IsFresh pending missing (name ∷ names) pending' missing' f h =
      elim (Option-cases (find_file name source)) [
        | inl n ↦
            pack_plan-IsFresh pending (missing ++ name ∷ []) names pending' missing' f
              (ground (arith, n, h))
        | inr (content, e) ↦ elim (Option-cases (find_file name base)) [
          | inl n ↦
              pack_plan-IsFresh (pending ++ (name, content) ∷ []) missing names pending' missing'
                (All-concat (IsFresh source base) pending (name, content) f
                  (record { from_source = e; absent = n }))
                (ground (arith, e, n, h))
          | inr (old, q) ↦ absurd (ground (arith, e, q, h))
        ]
      ]

pub CopyOutcome-cases :
    (o : CopyOutcome) → (o ≡ copied) ⊎ ((left : Option Bytes) × (o ≡ failed left))
CopyOutcome-cases copied = inl refl
CopyOutcome-cases (failed left) = inr (left, refl)

module _ (copy : Text → CopyOutcome) (done : List Text) (now : Files) (name : Text)
    (content : Bytes) (pending : Pending) where
  pub copy_loop-copied :
      copy name ≡ copied
      → copy_loop copy done now ((name, content) ∷ pending)
        ≡ copy_loop copy (done ++ name ∷ []) (write_file name content now) pending
  unfolding copy_loop
  copy_loop-copied c = rw (c, copy_loop) refl

  pub copy_loop_left :
      (left : Option Bytes)
      → copy name ≡ failed left
      → copy_loop copy done now ((name, content) ∷ pending)
        ≡ (err (copy_failed name), unlink_all done (leave name left now))
  unfolding copy_loop
  copy_loop_left left c = rw (c, copy_loop) refl
