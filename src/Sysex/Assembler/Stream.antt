-- ===== src/Sysex/Assembler/Stream.antt =====
-- The raw byte stream path of the assembler: what it completes, in how many pieces it comes.
use unitor_win64_driver.Base.{
  ℕ, ◌≡◌, ◌≢◌, refl, ◌∙◌, inl, inr, Bool-cases, List, [], ◌∷◌, ◌++◌, append_assoc, append-nil,
  arith, Bytes, ◌==◌, All, All-concat,
}
use unitor_win64_driver.Sysex.Frame.{framed, IsOpen, IsFrame}
use unitor_win64_driver.Sysex.Assembler.{SysexAssembler, new, raw_byte, raw_loop, push_raw_bytes}

-- The buffer between two calls: empty, or F0 and bytes that end no frame
pub data IsPartial : Bytes → Type 0 where
  empty : IsPartial []
  begun : {body : Bytes} → IsOpen body → IsPartial (0xF0 ∷ body)

abbrev Keeps : List Bytes × Bytes → Type 0
Keeps r = All IsFrame r.0 × IsPartial r.1

raw_byte-Keeps :
    (completed : List Bytes) {buf : Bytes} (byte : ℕ)
    → All IsFrame completed
    → IsPartial buf
    → Keeps (raw_byte completed buf byte)
raw_byte-Keeps completed byte fs empty = elim (Bool-cases (byte == 0xF0)) [
  | inl e ↦ let p : byte ≡ 0xF0 = ground arith in rw (e, p) (fs, begun tt)
  | inr e ↦ rw e (fs, empty)
]
raw_byte-Keeps completed byte fs (begun {body} open_) = elim (Bool-cases (byte == 0xF7)) [
  | inl e ↦
      let p : byte ≡ 0xF7 = ground arith in
      rw e (
        All-concat IsFrame completed _ fs
            (record { body = body; body_is_open = open_; is_framed = rw p }),
        empty,
      )
  | inr e ↦ rw e (fs, begun (All-concat (λ b. b ≢ 0xF7) body byte open_ (ground arith)))
]

raw_loop-Keeps :
    (completed : List Bytes) {buf : Bytes} (raw : Bytes)
    → All IsFrame completed
    → IsPartial buf
    → Keeps (raw_loop completed buf raw)
unfolding raw_loop
raw_loop-Keeps completed [] fs p = (fs, p)
raw_loop-Keeps completed {buf} (byte ∷ raw) fs p =
    let k = raw_byte-Keeps completed byte fs p in
    raw_loop-Keeps (raw_byte completed buf byte).0 raw k.0 k.1

-- Whatever bytes arrive, each completed frame is F0, bytes other than F7, then F7, and the buffer
-- stays empty or an unfinished frame.
pub push_raw_bytes-IsFrame :
    (raw : Bytes) (a : SysexAssembler)
    → IsPartial a.buf
    → All IsFrame (push_raw_bytes raw a).0 × IsPartial (push_raw_bytes raw a).1.buf
unfolding push_raw_bytes
push_raw_bytes-IsFrame raw a p = raw_loop-Keeps [] raw tt p

raw_byte-shift :
    (done completed : List Bytes) (buf : Bytes) (byte : ℕ)
    → raw_byte (done ++ completed) buf byte
      ≡ (done ++ (raw_byte completed buf byte).0, (raw_byte completed buf byte).1)
raw_byte-shift done completed [] byte = ground arith
raw_byte-shift done completed (b ∷ bs) byte =
    ground (arith, append_assoc done completed (((b ∷ bs) ++ byte ∷ []) ∷ []))

raw_loop-shift :
    (done completed : List Bytes) (buf raw : Bytes)
    → raw_loop (done ++ completed) buf raw
      ≡ (done ++ (raw_loop completed buf raw).0, (raw_loop completed buf raw).1)
unfolding raw_loop
raw_loop-shift done completed buf [] = refl
raw_loop-shift done completed buf (byte ∷ raw) =
    rw raw_byte-shift
      (raw_loop-shift done (raw_byte completed buf byte).0 (raw_byte completed buf byte).1 raw)

raw_loop-append :
    (completed : List Bytes) (buf xs ys : Bytes)
    → raw_loop completed buf (xs ++ ys)
      ≡ raw_loop (raw_loop completed buf xs).0 (raw_loop completed buf xs).1 ys
unfolding raw_loop
raw_loop-append completed buf [] ys = refl
raw_loop-append completed buf (byte ∷ xs) ys =
    raw_loop-append (raw_byte completed buf byte).0 (raw_byte completed buf byte).1 xs ys

-- A stream may be cut anywhere: feeding it in two pieces completes the frames of the first piece,
-- then those of the second, and leaves the buffer that feeding it whole leaves.
pub push_raw_bytes-append :
    (xs ys : Bytes) (a : SysexAssembler)
    → push_raw_bytes (xs ++ ys) a ≡ (
      (push_raw_bytes xs a).0 ++ (push_raw_bytes ys (push_raw_bytes xs a).1).0,
      (push_raw_bytes ys (push_raw_bytes xs a).1).1,
    )
unfolding push_raw_bytes
push_raw_bytes-append xs ys a =
    let mid = raw_loop [] a.buf xs in
    let e = raw_loop-append [] a.buf xs ys in
    let s = raw_loop-shift mid.0 [] mid.1 ys in
    let s' : raw_loop mid.0 mid.1 ys
        ≡ (mid.0 ++ (raw_loop [] mid.1 ys).0, (raw_loop [] mid.1 ys).1) =
      rw append-nil at s in
    rw (e, s')

-- Noise that starts no frame, then a frame
pub record Segment : Type 0 where
  pub noise : Bytes
  pub body : Bytes

pub record IsSegment (s : Segment) : Type 0 where
  pub noise_is_idle : All (λ b. b ≢ 0xF0) s.noise
  pub body_is_open : IsOpen s.body

abbrev pub stream : List Segment → Bytes
stream [] = []
stream (s ∷ ss) = s.noise ++ (framed s.body ++ stream ss)

abbrev pub frames : List Segment → List Bytes
frames [] = []
frames (s ∷ ss) = framed s.body ∷ frames ss

raw_loop-noise :
    (completed : List Bytes) (noise rest : Bytes)
    → All (λ b. b ≢ 0xF0) noise
    → raw_loop completed [] (noise ++ rest) ≡ raw_loop completed [] rest
unfolding raw_loop
raw_loop-noise completed [] rest h = refl
raw_loop-noise completed (b ∷ bs) rest h = ground (arith, raw_loop-noise completed bs rest h.1)

raw_loop-body :
    (completed : List Bytes) (b : ℕ) (bs body rest : Bytes)
    → IsOpen body
    → raw_loop completed (b ∷ bs) (body ++ 0xF7 ∷ rest)
      ≡ raw_loop (completed ++ ((b ∷ bs) ++ (body ++ 0xF7 ∷ [])) ∷ []) [] rest
unfolding raw_loop
raw_loop-body completed b bs [] rest h = refl
raw_loop-body completed b bs (c ∷ body) rest h = ground (
  arith,
  raw_loop-body completed b (bs ++ c ∷ []) body rest h.1,
  append_assoc bs (c ∷ []) (body ++ 0xF7 ∷ []),
)

raw_loop-framed :
    (completed : List Bytes) (body rest : Bytes)
    → IsOpen body
    → raw_loop completed [] (framed body ++ rest) ≡ raw_loop (completed ++ framed body ∷ []) [] rest
unfolding raw_loop
raw_loop-framed completed body rest h =
    rw append_assoc (raw_loop-body completed 0xF0 [] body rest h)

raw_loop-stream :
    (completed : List Bytes) (ss : List Segment)
    → All IsSegment ss
    → raw_loop completed [] (stream ss) ≡ (completed ++ frames ss, [])
unfolding raw_loop
raw_loop-stream completed [] h = rw append-nil
raw_loop-stream completed (s ∷ ss) h =
    raw_loop-noise completed s.noise (framed s.body ++ stream ss) h.0.noise_is_idle
    ∙ raw_loop-framed completed s.body (stream ss) h.0.body_is_open
    ∙ raw_loop-stream (completed ++ framed s.body ∷ []) ss h.1
    ∙ rw append_assoc

-- A new assembler recovers exactly the frames of a stream, in order, whatever bytes other than F0
-- stand before each, and is left with an empty buffer.
pub push_raw_bytes-stream :
    (ss : List Segment) → All IsSegment ss → push_raw_bytes (stream ss) new ≡ (frames ss, new)
unfolding push_raw_bytes
push_raw_bytes-stream ss h = rw (raw_loop-stream [] ss h)
