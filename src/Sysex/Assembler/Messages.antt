-- ===== src/Sysex/Assembler/Messages.antt =====
-- The message path of the assembler: mido delivers whole SysEx messages.
use unitor_win64_driver.Base.{◌≡◌, refl, List, [], ◌∷◌, arith, Bytes, if◌then◌else◌}
use unitor_win64_driver.Midi.{Message, is_kind}
use unitor_win64_driver.Sysex.Frame.{framed}
use unitor_win64_driver.Sysex.Assembler.{new, iter_completed_sysex}

-- The payloads of the SysEx messages
abbrev pub sysex_payloads : List Message → List Bytes
sysex_payloads [] = []
sysex_payloads (m ∷ ms) =
    let rest = sysex_payloads ms in if is_kind "sysex" m then m.payload ∷ rest else rest

abbrev pub frames_of : List Message → List Bytes
frames_of [] = []
frames_of (m ∷ ms) =
    let rest = frames_of ms in if is_kind "sysex" m then framed m.payload ∷ rest else rest

-- Each SysEx message becomes one frame, in order, any other message none, and the assembler is new
-- again: no message leaves bytes that the next frame would contain.
pub iter_completed_sysex-frames_of :
    (ms : List Message) → iter_completed_sysex ms new ≡ (frames_of ms, new)
unfolding iter_completed_sysex
iter_completed_sysex-frames_of [] = refl
iter_completed_sysex-frames_of (m ∷ ms) = ground (arith, iter_completed_sysex-frames_of ms)
