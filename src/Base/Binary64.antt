-- ===== src/Base/Binary64.antt =====
-- Products of a natural number with a floating-point constant, rounded as IEEE 754 binary64 does.
use Prim.Native.Nat.{ℕ, zero, suc, ◌+◌, ◌-◌, ◌*◌, ◌/◌, ◌%◌, ◌^◌}
use unitor_win64_driver.Base.Tests.{ltb, ◌==◌, if◌then◌else◌}

-- `n.bit_length()`, on fuel
unfoldable pub bit_length : ℕ → ℕ → ℕ
bit_length zero n = 0
bit_length (suc fuel) n = let rest = bit_length fuel (n / 2) in if n == 0 then 0 else rest + 1

-- A significand kept to 53 bits: `q` with the remainder `r` of a division by `unit`, to even
abbrev pub round_even : ℕ → ℕ → ℕ → ℕ
round_even unit q r = if ltb (2 * r) unit then q else if ltb unit (2 * r) then q + 1 else q + q % 2

-- `int(n * c)` for the constant `c` = `significand` / 2 ^ `scale`. For `n` below 2 ^ 53 the exact
-- product has less than 107 bits, so the fuel of 128 is enough.
unfoldable pub int_times : ℕ → ℕ → ℕ → ℕ
int_times significand scale n =
    let exact = n * significand in
    let unit = 2 ^ (bit_length 128 exact - 53) in
    round_even unit (exact / unit) (exact % unit) * unit / 2 ^ scale

-- `int(n * 1.4)` and `int(n * 0.98)`
unfoldable pub int_times_1_4 : ℕ → ℕ
int_times_1_4 = int_times 6305039478318694 52

unfoldable pub int_times_0_98 : ℕ → ℕ
int_times_0_98 = int_times 8827055269646172 53
