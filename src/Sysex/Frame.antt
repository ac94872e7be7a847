-- ===== src/Sysex/Frame.antt =====
-- What a complete SysEx frame is, and the checks of scripts/lab/sysex_matrix_mid_loop_lib.py,
-- sysex_long_loopback_lib.py, sysex_matrix_bank_loop_lib.py and device-inquiry-loop.py on frames.
pub mod Laws
use unitor_win64_driver.Base.{
  ℕ, ◌%◌, ◌<◌, ◌≡◌, ◌≢◌, Bool, false, not, ◌&&◌, ◌||◌, Option, none, some, [], ◌∷◌, ◌++◌, Bytes,
  Result, ok, err, ltb, leb, ◌==◌, if◌then◌else◌, length, get_elem?, first_or, last_or, rest_of,
  but_last, starts_with, any, All,
}

-- F0, a body, F7
abbrev pub framed : Bytes → Bytes
framed body = 0xF0 ∷ (body ++ 0xF7 ∷ [])

-- The payload of a MIDI data message: seven bits in each byte
abbrev pub IsData : Bytes → Type 0
IsData = All (λ b. b < 0x80)

-- No byte of the body ends the frame.
abbrev pub IsOpen : Bytes → Type 0
IsOpen = All (λ b. b ≢ 0xF7)

pub record IsFrame (bytes : Bytes) : Type 0 where
  pub body : Bytes
  pub body_is_open : IsOpen body
  pub is_framed : bytes ≡ framed body

-- `data[i] == value`, for an index that the test before it has shown to be in range
abbrev pub byte_is : Bytes → ℕ → ℕ → Bool
byte_is bytes i value = elim (get_elem? bytes i) [ none ↦ false | some b ↦ b == value ]

-- `PATCH_SIZE`, `MASTER_SIZE`, `PATCH_PREFIX`, `MASTER_PREFIX` and the two requests
abbrev pub patch_size : ℕ
patch_size = 275

abbrev pub master_size : ℕ
master_size = 351

abbrev pub patch_prefix : Bytes
patch_prefix = 0xF0 ∷ 0x10 ∷ 0x06 ∷ 0x01 ∷ []

abbrev pub master_prefix : Bytes
master_prefix = 0xF0 ∷ 0x10 ∷ 0x06 ∷ 0x03 ∷ []

abbrev pub patch_dump_request_all : Bytes
patch_dump_request_all = 0xF0 ∷ 0x10 ∷ 0x06 ∷ 0x04 ∷ 0x01 ∷ 0x00 ∷ 0xF7 ∷ []

abbrev pub master_dump_request : Bytes
master_dump_request = 0xF0 ∷ 0x10 ∷ 0x06 ∷ 0x04 ∷ 0x03 ∷ 0x00 ∷ 0xF7 ∷ []

-- The size is tested first, so `data[-1]` is there.
unfoldable pub is_patch_dump : Bytes → Bool
is_patch_dump bytes =
    length bytes == patch_size && starts_with patch_prefix bytes && last_or 0 bytes == 0xF7

unfoldable pub is_master_dump : Bytes → Bool
is_master_dump bytes =
    length bytes == master_size && starts_with master_prefix bytes && last_or 0 bytes == 0xF7

abbrev pub inquiry : Bytes
inquiry = 0xF0 ∷ 0x7E ∷ 0x7F ∷ 0x06 ∷ 0x01 ∷ 0xF7 ∷ []

unfoldable pub is_identity_reply : Bytes → Bool
is_identity_reply bytes =
    leb 5 (length bytes)
    && byte_is bytes 0 0xF0
    && byte_is bytes 1 0x7E
    && byte_is bytes 3 0x06
    && byte_is bytes 4 0x02
    && last_or 0 bytes == 0xF7

-- What the frame helpers raise, each with the values of its message
pub data FrameError : Type 0 where
  fixture_not_found index_error not_a_frame non_data_bytes : FrameError
  wrong_size : ℕ → ℕ → FrameError
  incomplete_frame : FrameError
  slot_out_of_range : ℕ → FrameError

abbrev bad_ends : Bytes → Bool
bad_ends bytes = not (first_or 0 bytes == 0xF0) || not (last_or 0 bytes == 0xF7)

-- `data[0]` of an empty file is an `IndexError`.
unfoldable pub load_sysex_fixture : Option Bytes → ℕ → Result FrameError Bytes
load_sysex_fixture none expected_size = err fixture_not_found
load_sysex_fixture (some bytes) expected_size =
    if not (length bytes == expected_size)
    then err (wrong_size (length bytes) expected_size)
    else if length bytes == 0
    then err index_error
    else if bad_ends bytes
    then err not_a_frame
    else ok bytes

-- `load_fixture` of the long loopback: `data[1:-1]` must be data bytes.
unfoldable pub load_fixture : Option Bytes → Result FrameError Bytes
load_fixture none = err fixture_not_found
load_fixture (some bytes) =
    if ltb (length bytes) 3 || bad_ends bytes
    then err not_a_frame
    else if any (λ b. leb 0x80 b) (but_last (rest_of bytes))
    then err non_data_bytes
    else ok bytes

-- The payload that `send_sysex` hands to mido
unfoldable pub send_sysex : Bytes → Result FrameError Bytes
send_sysex [] = err incomplete_frame
send_sysex (b ∷ bs) =
    if ltb (length (b ∷ bs)) 2 || bad_ends (b ∷ bs) then err incomplete_frame else ok (but_last bs)

unfoldable pub patch_dump_request : ℕ → Result FrameError Bytes
patch_dump_request slot =
    if not (leb slot 0x7F)
    then err (slot_out_of_range slot)
    else ok (0xF0 ∷ 0x10 ∷ 0x06 ∷ 0x04 ∷ 0x01 ∷ slot % 0x80 ∷ 0xF7 ∷ [])
