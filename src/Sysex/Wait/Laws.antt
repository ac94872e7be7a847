-- ===== src/Sysex/Wait/Laws.antt =====
-- When the wait ends, and with what.
use unitor_win64_driver.Base.{
  ℕ, ◌+◌, ◌-◌, ◌≤◌, ◌≡◌, refl, ◌⊎◌, Bool, true, false, inl, inr, Bool-cases, Option-cases, Option,
  none, some, List, [], ◌∷◌, ◌++◌, arith, Text, Bytes, codes, ltb, if◌then◌else◌,
}
use unitor_win64_driver.Midi.{Poll}
use unitor_win64_driver.Midi.Hex.{frame_head_tail}
use unitor_win64_driver.Sysex.Assembler.{new}
use unitor_win64_driver.Sysex.Assembler.Messages.{frames_of, iter_completed_sysex-frames_of}
use unitor_win64_driver.Sysex.Wait.{WaitResult, scan, wait_loop, wait_matched_sysex}

-- The frames delivered in the polls that start before the deadline, up to the first that does not
abbrev pub frames_before : ℕ → List Poll → List Bytes
frames_before deadline [] = []
frames_before deadline (p ∷ ps) =
    let rest = frames_before deadline ps in
    if ltb p.now deadline then frames_of p.pending ++ rest else []

-- The first element that passes the test
abbrev pub first_match : (Bytes → Bool) → List Bytes → Option Bytes
first_match predicate [] = none
first_match predicate (f ∷ fs) = if predicate f then some f else first_match predicate fs

-- Some poll of the recording comes at or after the deadline.
pub data Expires (deadline : ℕ) : List Poll → Type 0 where
  now : {p : Poll} {ps : List Poll} → deadline ≤ p.now → Expires deadline (p ∷ ps)
  later : {p : Poll} {ps : List Poll} → Expires deadline ps → Expires deadline (p ∷ ps)

pub scan-first_match :
    (predicate : Bytes → Bool) (note : Text) (fs : List Bytes)
    → (scan predicate note fs).0 ≡ first_match predicate fs
unfolding scan
scan-first_match predicate note [] = refl
scan-first_match predicate note (f ∷ fs) =
    ground (arith, scan-first_match predicate (codes "discard " ++ frame_head_tail f) fs)

pub first_match-append :
    (predicate : Bytes → Bool) (fs gs : List Bytes)
    → first_match predicate (fs ++ gs)
      ≡ elim (first_match predicate fs) [ none ↦ first_match predicate gs | some f ↦ some f ]
first_match-append predicate [] gs = refl
first_match-append predicate (f ∷ fs) gs = ground (arith, first_match-append predicate fs gs)

-- The loop returns, and the reply is the one given.
abbrev Returns : Option Bytes → Option WaitResult → Type 0
Returns reply o = (r : WaitResult) × (o ≡ some r) × (r.reply ≡ reply)

module _ (predicate : Bytes → Bool) (started deadline : ℕ) where
  wait_loop-expired :
      (note : Text) (p : Poll) (ps : List Poll)
      → ltb p.now deadline ≡ false
      → Returns
          (first_match predicate (frames_before deadline (p ∷ ps)))
          (wait_loop predicate started deadline new note (p ∷ ps))
  unfolding wait_loop
  wait_loop-expired note p ps e =
      rw e (record { reply = none; dt_ms = p.stamp - started; note = note }, refl, refl)

  wait_loop-polled :
      (note : Text) (p : Poll) (ps : List Poll)
      → ltb p.now deadline ≡ true
      → (first_match predicate (frames_of p.pending) ≡ none)
        ⊎ ((f : Bytes) × (first_match predicate (frames_of p.pending) ≡ some f))
      → Returns (first_match predicate (frames_before deadline ps)) (
          wait_loop predicate started deadline new (scan predicate note (frames_of p.pending)).1 ps)
      → Returns
          (first_match predicate (frames_before deadline (p ∷ ps)))
          (wait_loop predicate started deadline new note (p ∷ ps))
  unfolding wait_loop
  wait_loop-polled note p ps t (inl n) (r, e, e') =
      let taken = iter_completed_sysex-frames_of p.pending in
      let hit = scan-first_match predicate note (frames_of p.pending) in
      let split = first_match-append predicate (frames_of p.pending) (frames_before deadline ps) in
      (r, ground (arith, taken, hit, split), ground (arith, split))
  wait_loop-polled note p ps t (inr (f, s)) later_ =
      let taken = iter_completed_sysex-frames_of p.pending in
      let hit = scan-first_match predicate note (frames_of p.pending) in
      let split = first_match-append predicate (frames_of p.pending) (frames_before deadline ps) in
      (
        record { reply = some f; dt_ms = p.stamp - started; note = codes "match" },
        ground (arith, taken, hit, split),
        ground (arith, split),
      )

  wait_loop-Returns :
      (note : Text) {polls : List Poll}
      → Expires deadline polls
      → Returns
          (first_match predicate (frames_before deadline polls))
          (wait_loop predicate started deadline new note polls)
  unfolding wait_loop
  wait_loop-Returns note (now {p} {ps} h) = wait_loop-expired note p ps (ground arith)
  wait_loop-Returns note (later {p} {ps} e) = elim (Bool-cases (ltb p.now deadline)) [
    | inr f ↦ wait_loop-expired note p ps f
    | inl t ↦
        wait_loop-polled note p ps t (Option-cases (first_match predicate (frames_of p.pending)))
          (wait_loop-Returns (scan predicate note (frames_of p.pending)).1 e)
  ]

-- If some poll comes at or after the deadline, the wait returns, and its reply is the first SysEx
-- frame that satisfies the predicate among those that the polls before the deadline deliver, or
-- none if no such frame does.
pub wait_matched_sysex-Returns :
    (predicate : Bytes → Bool) (started timeout : ℕ) {polls : List Poll}
    → Expires (started + timeout) polls
    → (r : WaitResult) × (wait_matched_sysex predicate started timeout polls ≡ some r)
      × (r.reply ≡ first_match predicate (frames_before (started + timeout) polls))
unfolding wait_matched_sysex
wait_matched_sysex-Returns predicate started timeout e =
    wait_loop-Returns predicate started (started + timeout) (codes "none") e
