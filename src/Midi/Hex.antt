-- ===== src/Midi/Hex.antt =====
-- `hex_bytes` of scripts/lab/lab_midi_common.py and `frame_head_tail` of
-- scripts/lab/sysex_matrix_mid_loop_lib.py.
use unitor_win64_driver.Base.{
  ℕ, ◌+◌, ◌-◌, ◌*◌, ◌/◌, ◌%◌, ◌<◌, ◌≡◌, refl, Option, none, some, [], ◌∷◌, ◌++◌, arith, Text, Bytes,
  codes, decimal, ltb, leb, if◌then◌else◌, length, take, drop, All,
}

hex_digit : ℕ → ℕ
hex_digit d = if ltb d 10 then d + b'0' else d - 10 + b'A'

-- `f"{byte:02X}"`
abbrev hex_byte : ℕ → Text
hex_byte b = hex_digit (b / 16) ∷ hex_digit (b % 16) ∷ []

-- `" ".join(...)` over the bytes
unfoldable pub joined_hex : Bytes → Text
unfolding hex_digit
joined_hex [] = []
joined_hex (b ∷ []) = hex_byte b
joined_hex (b ∷ c ∷ bs) = hex_byte b ++ (b' ' ∷ joined_hex (c ∷ bs))

unfoldable pub hex_bytes : Bytes → Option ℕ → Text
unfolding joined_hex
hex_bytes bytes none = joined_hex bytes
hex_bytes bytes (some limit) =
    if ltb limit (length bytes)
    then joined_hex (take limit bytes) ++ (codes " … (" ++ (decimal (length bytes) ++ codes " B)"))
    else joined_hex bytes

unfoldable pub frame_head_tail : Bytes → Text
unfolding hex_bytes
frame_head_tail bytes =
    if leb (length bytes) 8
    then hex_bytes bytes none
    else codes "head="
      ++ (hex_bytes (take 4 bytes) none
          ++ (codes " tail="
              ++ (hex_bytes (drop (length bytes - 4) bytes) none
                  ++ (codes " len=" ++ decimal (length bytes)))))

-- The value of an upper-case hexadecimal digit
abbrev digit_value : ℕ → ℕ
digit_value c = if ltb c b'A' then c - b'0' else c - b'A' + 10

-- Reads pairs of digits with one character between them.
unfoldable pub read_hex : Text → Bytes
read_hex (hi ∷ lo ∷ sep ∷ cs) = (digit_value hi * 16 + digit_value lo) ∷ read_hex cs
read_hex (hi ∷ lo ∷ []) = (digit_value hi * 16 + digit_value lo) ∷ []
read_hex _ = []

digit_value-hex_digit : (d : ℕ) → d < 16 → digit_value (hex_digit d) ≡ d
unfolding hex_digit
digit_value-hex_digit d h = ground arith

-- A dump can be read back: the text of a byte string determines the bytes.
pub read_hex-joined_hex :
    (bytes : Bytes) → All (λ b. b < 256) bytes → read_hex (joined_hex bytes) ≡ bytes
unfolding read_hex joined_hex hex_digit
read_hex-joined_hex [] h = refl
read_hex-joined_hex (b ∷ []) h =
    ground (arith, digit_value-hex_digit (b / 16), digit_value-hex_digit (b % 16))
read_hex-joined_hex (b ∷ c ∷ bs) h = ground (arith, read_hex-joined_hex (c ∷ bs) h.1)
