-- ===== src/Release/InPlace.antt =====
-- A packing that succeeds has put both setups in place.
use unitor_win64_driver.Base.{
  ◌≡◌, refl, sym, ap, ◌∙◌, ◌≢◌, append_assoc, append-nil, arith, true, false, Bool-cases,
  Option-cases, inl, inr, List, [], ◌∷◌, ◌++◌, Text, Bytes, Result, ok, err, All, length, ◌==◌,
}
use unitor_win64_driver.Release.{
  Files, find_file, is_file, write_file, ReleasePaths, flavors, setup_names, PackError, CopyOutcome,
  Pending, pack_plan, copy_loop, after_plan, pack_setups,
}
use unitor_win64_driver.Release.Files.{any_after}
use unitor_win64_driver.Release.Pack.{
  contains_name, IsMidway, IsFresh, IsMidway-write, pack_plan-IsFresh, CopyOutcome-cases,
  copy_loop-copied, copy_loop_left,
}

abbrev names_of : Pending → List Text
names_of [] = []
names_of ((name, content) ∷ pending) = name ∷ names_of pending

names_of-concat :
    (pending : Pending) (name : Text) (content : Bytes)
    → names_of (pending ++ (name, content) ∷ []) ≡ names_of pending ++ name ∷ []
names_of-concat [] name content = refl
names_of-concat ((n, c) ∷ pending) name content = ap (◌∷◌ n) (names_of-concat pending name content)

concat-ne-nil {ℓ} : {A : Type ℓ} (xs : List A) (a : A) → xs ++ a ∷ [] ≢ []
concat-ne-nil [] a h = ground arith
concat-ne-nil (x ∷ xs) a h = ground arith

module _ (source base : Files) where
  names_of-pack_plan :
      (pending : Pending) (missing names : List Text) (pending' : Pending)
      → pack_plan source base false pending missing names ≡ ok (pending', [])
      → (missing ≡ [])
        × (names_of pending' ≡ names_of pending ++ names)
        × All (λ n. is_file n source ≡ true) names
  unfolding pack_plan
  names_of-pack_plan pending missing [] pending' h =
      let e : pending ≡ pending' = ground (arith, h) in
      (ground (arith, h), rw append-nil (ap (λ (l : Pending). names_of l) (sym e)), tt)
  names_of-pack_plan pending missing (name ∷ names) pending' h =
      elim (Option-cases (find_file name source)) [
        | inl n ↦
            let (e, r, a) =
              names_of-pack_plan pending (missing ++ name ∷ []) names pending'
                (ground (arith, n, h)) in
            absurd (concat-ne-nil missing name e)
        | inr (content, e) ↦ elim (Option-cases (find_file name base)) [
          | inl n ↦
              let (m, r, a) =
                names_of-pack_plan (pending ++ (name, content) ∷ []) missing names pending'
                  (ground (arith, e, n, h)) in
              (
                m,
                r ∙ rw (names_of-concat pending name content, append_assoc) refl,
                (ground (arith, e), a),
              )
          | inr (old, q) ↦ absurd (ground (arith, e, q, h))
        ]
      ]

  copy_loop-source :
      (copy : Text → CopyOutcome) (done : List Text) (now : Files) (pending : Pending)
      → All (IsFresh source base) pending
      → IsMidway source base now done
      → (copy_loop copy done now pending).0 ≡ ok tt
      → (q : Text) → contains_name q (done ++ names_of pending) ≡ true
      → find_file q (copy_loop copy done now pending).1 ≡ find_file q source
  copy_loop-source copy done now [] f m h q c =
      unfold copy_loop in m.are_copied q (rw append-nil at c)
  copy_loop-source copy done now ((name, content) ∷ pending) f m h q c =
      elim (CopyOutcome-cases (copy name)) [
        | inl k ↦
            let step = copy_loop-copied copy done now name content pending k in
            rw step (
              copy_loop-source copy (done ++ name ∷ []) (write_file name content now) pending f.1
                (IsMidway-write source base name content f.0 m) (rw step at h) q
                (rw (append_assoc done (name ∷ []) (names_of pending)) c))
        | inr (left, k) ↦
            absurd (ground (arith, copy_loop_left copy done now name content pending left k, h))
      ]

  after_plan-ok :
      (copy : Text → CopyOutcome) (plan : Result PackError (Pending × List Text))
      → (after_plan copy base plan).0 ≡ ok tt
      → (pending : Pending) × (plan ≡ ok (pending, []))
        × (after_plan copy base plan ≡ copy_loop copy [] base pending)
  after_plan-ok copy (err e) h = absurd (ground (arith, h))
  after_plan-ok copy (ok (pending, m ∷ ms)) h = absurd (ground (arith, h))
  after_plan-ok copy (ok (pending, [])) h = elim (Bool-cases (length pending == length flavors)) [
    | inl n ↦ (pending, refl, rw (n, after_plan) refl)
    | inr n ↦ absurd (ground (arith, n, h))
  ]

  All-in_place :
      (after : Files) (xs ps : List Text)
      → ((q : Text) → contains_name q (xs ++ ps) ≡ true → find_file q after ≡ find_file q source)
      → All (λ p. find_file p after ≡ find_file p source) ps
  All-in_place after xs [] h = tt
  All-in_place after xs (p ∷ ps) h = (
    h p (any_after xs ps p),
    All-in_place after (xs ++ p ∷ []) ps (λ q c. h q (rw append_assoc at c)),
  )

-- Without --force the packing succeeds only if the source has the setups of both flavors, and then
-- both stand in the release directory with the content of the source.
pub pack_setups-source :
    (copy : Text → CopyOutcome) (paths : ReleasePaths) (source release : Files)
    → (pack_setups copy paths source false release).0 ≡ ok tt
    → All (λ n. is_file n source ≡ true) (setup_names paths flavors)
      × All
          (λ n. find_file n (pack_setups copy paths source false release).1 ≡ find_file n source)
          (setup_names paths flavors)
unfolding pack_setups
pack_setups-source copy paths source release h =
    let names = setup_names paths flavors in
    let (pending, p, loop) =
      after_plan-ok source release copy (pack_plan source release false [] [] names) h in
    let (m, same, there) = names_of-pack_plan source release [] [] names pending p in
    let fresh = pack_plan-IsFresh source release [] [] names pending [] tt p in
    let start : IsMidway source release release [] = record {
      others = λ q h. refl;
      were_absent = λ q h. absurd (ground (arith, h));
      are_copied = λ q h. absurd (ground (arith, h));
    } in
    let in_place =
      copy_loop-source source release copy [] release pending fresh start (rw loop at h) in
    (
      there,
      All-in_place source release (pack_setups copy paths source false release).1 [] names
          (λ q c. rw loop (in_place q (rw same c))),
    )
