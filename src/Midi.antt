-- ===== src/Midi.antt =====
-- The MIDI side of the lab scripts: mido's messages, a recording of what a port delivers and when,
-- and the hexadecimal dumps of the logs.
pub mod Hex
use unitor_win64_driver.Base.{ℕ, Bool, List, String, Text, Bytes, codes, equal}

-- What the scripts read of a mido message: `type`, `data` (of a SysEx message) and `bytes()`
pub record Message : Type 0 where
  pub kind : Text
  pub payload : Bytes
  pub raw : Bytes

-- `message.type == name`
unfoldable pub is_kind : String → Message → Bool
is_kind name m = equal m.kind (codes name)

-- One round of a waiting loop: the clock at its test, what `iter_pending` then yields, and the
-- clock at a `return` in the round. The clock counts milliseconds.
pub record Poll : Type 0 where
  pub now : ℕ
  pub pending : List Message
  pub stamp : ℕ
