-- ===== src/Sysex/Synthetic.antt =====
-- `build_synthetic_sysex` of scripts/lab/sysex_long_loopback_lib.py.
use unitor_win64_driver.Base.{
  ℕ, zero, suc, ◌+◌, ◌-◌, ◌*◌, ◌/◌, ◌%◌, ◌≤◌, ◌<◌, ◌≡◌, refl, not, some, [], ◌∷◌, ◌++◌, arith,
  Bytes, Result, ok, err, ltb, leb, ◌==◌, if◌then◌else◌, length, get_or, but_last, rest_of, any,
  but_last-concat,
}
use unitor_win64_driver.Sysex.Frame.{framed, IsData, load_fixture}
use unitor_win64_driver.Sysex.Frame.Laws.{load_fixture_iff, IsData-any, length-framed}

-- `SYNTH_MARK`
abbrev pub synth_mark : Bytes
synth_mark = 0x7D ∷ 0x4C ∷ 0x42 ∷ []

pub data SynthError : Type 0 where
  size_below_8 too_small_for_mark size_mismatch non_data_byte : SynthError

-- `count` rounds of `body.append(index & 0x7F)`, from `index` on
unfoldable pub fill : ℕ → ℕ → Bytes
fill index zero = []
fill index (suc count) = index % 0x80 ∷ fill (index + 1) count

unfoldable pub build_synthetic_sysex : ℕ → Result SynthError Bytes
build_synthetic_sysex size =
    if ltb size 8
    then err size_below_8
    else if ltb (size - 2) (length synth_mark + 2)
    then err too_small_for_mark
    else let marked = synth_mark ++ size / 0x80 % 0x80 ∷ size % 0x80 ∷ [] in
      let body = marked ++ fill 0 (size - 2 - length marked) in
      let frame = 0xF0 ∷ (body ++ 0xF7 ∷ []) in
      if not (length frame == size)
      then err size_mismatch
      else if any (λ b. leb 0x80 b) (but_last (rest_of frame))
      then err non_data_byte
      else ok frame

length-fill : (index count : ℕ) → length (fill index count) ≡ count
unfolding fill
length-fill index zero = refl
length-fill index (suc count) = omega (arith, length-fill (index + 1) count)

fill-IsData : (index count : ℕ) → IsData (fill index count)
unfolding fill
fill-IsData index zero = tt
fill-IsData index (suc count) = (omega arith, fill-IsData (index + 1) count)

abbrev synthetic_body : ℕ → Bytes
synthetic_body size = 0x7D ∷ 0x4C ∷ 0x42 ∷ size / 0x80 % 0x80 ∷ size % 0x80 ∷ fill 0 (size - 2 - 5)

synthetic_body-IsData : (size : ℕ) → IsData (synthetic_body size)
synthetic_body-IsData size = (
  omega arith,
  (omega arith, (omega arith, (omega arith, (omega arith, fill-IsData 0 (size - 2 - 5))))),
)

build-framed :
    (size : ℕ) → 8 ≤ size → build_synthetic_sysex size ≡ ok (framed (synthetic_body size))
unfolding build_synthetic_sysex
build-framed size h = ground (
  arith,
  length-framed (synthetic_body size),
  length-fill 0 (size - 2 - 5),
  but_last-concat 0xF7 (synthetic_body size),
  IsData-any (synthetic_body size) (synthetic_body-IsData size),
)

-- The size that a frame carries behind its mark, modulo 2 ^ 14
abbrev pub carried_size : Bytes → ℕ
carried_size frame = get_or frame 4 0 * 0x80 + get_or frame 5 0

-- For every size from 8 on the checks at the end of `build_synthetic_sysex` pass: it returns a
-- frame of exactly that many bytes, which carries the size modulo 2 ^ 14 behind its mark and which
-- the fixture check of the long loopback accepts. Any smaller size is refused.
pub build_synthetic_sysex_lem :
    (size : ℕ)
    → (size < 8 → build_synthetic_sysex size ≡ err size_below_8)
      × (8 ≤ size
          → (frame : Bytes) × (build_synthetic_sysex size ≡ ok frame)
            × (length frame ≡ size)
            × (carried_size frame ≡ size % 0x4000)
            × (load_fixture (some frame) ≡ ok frame))
build_synthetic_sysex_lem size = (
  λ h. unfold build_synthetic_sysex in ground arith,
  λ h. (
    framed (synthetic_body size),
    build-framed size h,
    omega (arith, length-framed (synthetic_body size), length-fill 0 (size - 2 - 5)),
    omega arith,
    (load_fixture_iff _ _).1 (
      refl,
      record {
        body = synthetic_body size;
        is_framed = refl;
        not_empty = omega arith;
        is_data = synthetic_body-IsData size;
      },
    ),
  ),
)
