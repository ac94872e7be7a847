-- ===== src/Sysex/Assembler.antt =====
-- `SysexAssembler` and `iter_completed_sysex` of scripts/lab/sysex_matrix_mid_loop_lib.py.
-- A method takes the object and returns its result with the new object.
pub mod Stream
pub mod Messages
use unitor_win64_driver.Base.{ℕ, Bool, List, [], ◌∷◌, ◌++◌, Bytes, ◌==◌, if◌then◌else◌}
use unitor_win64_driver.Midi.{Message, is_kind}

pub record SysexAssembler : Type 0 where
  pub buf : Bytes

abbrev pub new : SysexAssembler
new = record { buf = [] }

unfoldable pub reset : SysexAssembler → SysexAssembler
reset a = record a { buf = [] }

abbrev pub opened : Bytes → Bytes
opened [] = 0xF0 ∷ []
opened (b ∷ bs) = b ∷ bs

unfoldable pub push_mido_sysex_data : Bytes → SysexAssembler → List Bytes × SysexAssembler
push_mido_sysex_data payload a =
    (((opened a.buf ++ payload) ++ 0xF7 ∷ []) ∷ [], record a { buf = [] })

-- One round of the loop of `push_raw_bytes`: the frames completed so far, and the buffer
abbrev pub raw_byte : List Bytes → Bytes → ℕ → List Bytes × Bytes
raw_byte completed [] byte = if byte == 0xF0 then (completed, byte ∷ []) else (completed, [])
raw_byte completed (b ∷ bs) byte =
    if byte == 0xF7
    then (completed ++ ((b ∷ bs) ++ byte ∷ []) ∷ [], [])
    else (completed, (b ∷ bs) ++ byte ∷ [])

unfoldable pub raw_loop : List Bytes → Bytes → Bytes → List Bytes × Bytes
raw_loop completed buf [] = (completed, buf)
raw_loop completed buf (byte ∷ raw) =
    raw_loop (raw_byte completed buf byte).0 (raw_byte completed buf byte).1 raw

unfoldable pub push_raw_bytes : Bytes → SysexAssembler → List Bytes × SysexAssembler
unfolding raw_loop
push_raw_bytes raw a = ((raw_loop [] a.buf raw).0, record a { buf = (raw_loop [] a.buf raw).1 })

-- `iter_completed_sysex` over the pending messages
unfoldable pub iter_completed_sysex : List Message → SysexAssembler → List Bytes × SysexAssembler
unfolding push_mido_sysex_data
iter_completed_sysex [] a = ([], a)
iter_completed_sysex (m ∷ ms) a =
    let pushed = push_mido_sysex_data m.payload a in
    let taken = if is_kind "sysex" m then pushed else ([], a) in
    let others = iter_completed_sysex ms taken.1 in (taken.0 ++ others.0, others.1)
