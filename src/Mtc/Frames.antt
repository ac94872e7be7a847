-- ===== src/Mtc/Frames.antt =====
-- The quarter frames that the time code lab sends, and the time that they stand for.
use unitor_win64_driver.Base.{
  ℕ, zero, suc, ◌+◌, ◌*◌, ◌/◌, ◌%◌, ◌<◌, ◌≡◌, refl, ap, arith, List, [], ◌∷◌, Bytes, length, All,
  All-append, get_or,
}
use unitor_win64_driver.Mtc.{quarter_frame_bytes, nibbles, frames_of_nibbles, build_time_frames}

-- A quarter frame message: the status F1 and one data byte
pub record IsQuarterFrame (frame : Bytes) : Type 0 where
  pub value : ℕ
  pub is_data : value < 0x80
  pub shape : frame ≡ 0xF1 ∷ value ∷ []

-- What a receiver assembles from the eight low nibbles, by the MIDI time code specification: the
-- nibble of type 7 holds the top bit of the hours and two bits of the frame rate.
pub record SmpteTime : Type 0 where
  pub rate : ℕ
  pub hours : ℕ
  pub minutes : ℕ
  pub seconds : ℕ
  pub frames : ℕ

abbrev pub value_of : Bytes → ℕ
value_of frame = get_or frame 1 0 % 16

abbrev pub assemble : Bytes → Bytes → Bytes → Bytes → Bytes → Bytes → Bytes → Bytes → SmpteTime
assemble f0 f1 f2 f3 f4 f5 f6 f7 = record {
  rate = value_of f7 / 2 % 4;
  hours = value_of f6 + value_of f7 % 2 * 16;
  minutes = value_of f4 + value_of f5 * 16;
  seconds = value_of f2 + value_of f3 * 16;
  frames = value_of f0 + value_of f1 * 16;
}

-- The times of the complete groups of eight
unfoldable pub times_of : List Bytes → List SmpteTime
times_of (f0 ∷ f1 ∷ f2 ∷ f3 ∷ f4 ∷ f5 ∷ f6 ∷ f7 ∷ rest) =
    assemble f0 f1 f2 f3 f4 f5 f6 f7 ∷ times_of rest
times_of _ = []

abbrev pub repeated : ℕ → SmpteTime → List SmpteTime
repeated zero t = []
repeated (suc n) t = t ∷ repeated n t

abbrev pub sent_time : SmpteTime
sent_time = record { rate = 0; hours = 17; minutes = 2; seconds = 3; frames = 4 }

frames_of_nibbles-IsQuarterFrame :
    (frame_type : ℕ) (ns : List ℕ) → All IsQuarterFrame (frames_of_nibbles frame_type ns)
unfolding frames_of_nibbles quarter_frame_bytes
frames_of_nibbles-IsQuarterFrame frame_type [] = tt
frames_of_nibbles-IsQuarterFrame frame_type (n ∷ ns) = (
  record { value = frame_type % 8 * 16 + n % 16; is_data = omega arith; shape = refl },
  frames_of_nibbles-IsQuarterFrame (frame_type + 1) ns,
)

pub build_time_frames-IsQuarterFrame : (count : ℕ) → All IsQuarterFrame (build_time_frames count)
unfolding build_time_frames
build_time_frames-IsQuarterFrame zero = tt
build_time_frames-IsQuarterFrame (suc count) =
    All-append IsQuarterFrame (frames_of_nibbles 0 nibbles) (build_time_frames count)
      (frames_of_nibbles-IsQuarterFrame 0 nibbles) (build_time_frames-IsQuarterFrame count)

pub length-build_time_frames : (count : ℕ) → length (build_time_frames count) ≡ count * 8
unfolding build_time_frames frames_of_nibbles
length-build_time_frames zero = refl
length-build_time_frames (suc count) = omega (arith, length-build_time_frames count)

times_of-build_time_frames :
    (count : ℕ) → times_of (build_time_frames count) ≡ repeated count sent_time
unfolding build_time_frames frames_of_nibbles quarter_frame_bytes times_of
times_of-build_time_frames zero = refl
times_of-build_time_frames (suc count) = ap (◌∷◌ sent_time) (times_of-build_time_frames count)

-- `count` times make 8 * `count` well-formed quarter frames, and a receiver assembles each group of
-- eight to the same time: 17:02:03:04 with the rate code 0, which is 24 frames per second.
pub build_time_frames_lem :
    (count : ℕ)
    → (length (build_time_frames count) ≡ count * 8)
      × All IsQuarterFrame (build_time_frames count)
      × (times_of (build_time_frames count) ≡ repeated count sent_time)
build_time_frames_lem count = (
  length-build_time_frames count,
  build_time_frames-IsQuarterFrame count,
  times_of-build_time_frames count,
)
