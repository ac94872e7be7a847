-- ===== src/Inquiry/Wait.antt =====
-- The wait for an identity reply against the wait for a matching frame of the matrix labs.
use unitor_win64_driver.Base.{
  ℕ, ◌+◌, ◌≡◌, refl, arith, Option, none, some, List, [], ◌∷◌, Text, Bytes, codes,
}
use unitor_win64_driver.Midi.{Message, Poll}
use unitor_win64_driver.Sysex.Frame.{is_identity_reply}
use unitor_win64_driver.Sysex.Assembler.{new}
use unitor_win64_driver.Sysex.Assembler.Messages.{frames_of, iter_completed_sysex-frames_of}
use unitor_win64_driver.Sysex.Wait.{WaitResult, scan, wait_loop, wait_matched_sysex}
use unitor_win64_driver.Sysex.Wait.Laws.{first_match, scan-first_match}
use unitor_win64_driver.Inquiry.{first_identity, identity_loop, wait_identity}

-- The reply and the time of a result
abbrev pub outcome : Option WaitResult → Option (Option Bytes × ℕ)
outcome none = none
outcome (some r) = some (r.reply, r.dt_ms)

first_identity-first_match :
    (ms : List Message) → first_identity ms ≡ first_match is_identity_reply (frames_of ms)
unfolding first_identity
first_identity-first_match [] = refl
first_identity-first_match (m ∷ ms) = ground (arith, first_identity-first_match ms)

identity_loop-wait_loop :
    (started deadline : ℕ) (note : Text) (polls : List Poll)
    → identity_loop started deadline polls
      ≡ outcome (wait_loop is_identity_reply started deadline new note polls)
unfolding identity_loop wait_loop
identity_loop-wait_loop started deadline note [] = refl
identity_loop-wait_loop started deadline note (p ∷ ps) =
    let taken = iter_completed_sysex-frames_of p.pending in
    let found = scan-first_match is_identity_reply note (frames_of p.pending) in
    let first = first_identity-first_match p.pending in
    let rest =
      identity_loop-wait_loop started deadline (scan is_identity_reply note (frames_of p.pending)).1
        ps in
    ground (arith, taken, found, first, rest)

-- `_wait_identity` and `wait_matched_sysex` with the identity test are the same wait: both or
-- neither return on a recording, with the same reply at the same time.
pub wait_identity-wait_matched_sysex :
    (started timeout : ℕ) (polls : List Poll)
    → wait_identity started timeout polls
      ≡ outcome (wait_matched_sysex is_identity_reply started timeout polls)
unfolding wait_identity wait_matched_sysex
wait_identity-wait_matched_sysex started timeout polls =
    identity_loop-wait_loop started (started + timeout) (codes "none") polls
