-- ===== src/Sysex/Wait.antt =====
-- `wait_matched_sysex` of scripts/lab/sysex_matrix_mid_loop_lib.py, over a recording of the polls.
pub mod Laws
use unitor_win64_driver.Base.{
  ℕ, ◌+◌, ◌-◌, Bool, Option, none, some, List, [], ◌∷◌, ◌++◌, Text, Bytes, codes, ltb,
  if◌then◌else◌,
}
use unitor_win64_driver.Midi.{Message, Poll}
use unitor_win64_driver.Midi.Hex.{frame_head_tail}
use unitor_win64_driver.Sysex.Assembler.{SysexAssembler, new, iter_completed_sysex}

-- The tuple that the function returns; the time is in milliseconds, as `Poll` counts it.
pub record WaitResult : Type 0 where
  pub reply : Option Bytes
  pub dt_ms : ℕ
  pub note : Text

-- The inner `for`: the frame that matches, and the note behind the frames that did not
unfoldable pub scan : (Bytes → Bool) → Text → List Bytes → Option Bytes × Text
scan predicate last_note [] = (none, last_note)
scan predicate last_note (frame ∷ frames) =
    let rest = scan predicate (codes "discard " ++ frame_head_tail frame) frames in
    if predicate frame then (some frame, codes "match") else rest

-- `none`: the recording ends before the loop does.
unfoldable pub wait_loop :
    (Bytes → Bool) → ℕ → ℕ → SysexAssembler → Text → List Poll → Option WaitResult
unfolding scan
wait_loop predicate started deadline assembler last_note [] = none
wait_loop predicate started deadline assembler last_note (p ∷ ps) =
    let taken = iter_completed_sysex p.pending assembler in
    let found = scan predicate last_note taken.0 in
    let rest = wait_loop predicate started deadline taken.1 found.1 ps in
    let after : Option WaitResult = elim found.0 [
      | none ↦ rest
      | some frame ↦
          some (record { reply = some frame; dt_ms = p.stamp - started; note = codes "match" })
    ] in
    if ltb p.now deadline
    then after
    else some (record { reply = none; dt_ms = p.stamp - started; note = last_note })

unfoldable pub wait_matched_sysex : (Bytes → Bool) → ℕ → ℕ → List Poll → Option WaitResult
unfolding wait_loop
wait_matched_sysex predicate started timeout polls =
    wait_loop predicate started (started + timeout) new (codes "none") polls
