-- ===== src/Concurrent/Reassembly.antt =====
-- Draining the buffer: it ends, and scores just the frames of the messages.
use unitor_win64_driver.Base.{
  ℕ, zero, suc, ◌≤◌, ◌<◌, ◌≡◌, ◌≢◌, refl, Option, none, some, [], ◌∷◌, ◌++◌, arith, Bytes, length,
  All, Option-cases, inl, inr,
}
use unitor_win64_driver.Sysex.Frame.{IsData}
use unitor_win64_driver.Concurrent.{
  Input, Counters, score_sysex_frame, from_start, cut_end, drain_loop, drain_sysex_hold,
}

cut_end-data :
    (payload rest : Bytes)
    → IsData payload
    → cut_end (payload ++ (0xF7 ∷ rest)) ≡ some (payload ++ 0xF7 ∷ [], rest)
unfolding cut_end
cut_end-data [] rest h = refl
cut_end-data (b ∷ bs) rest h = ground (arith, cut_end-data bs rest h.1)

length-cut_end :
    (hold : Bytes) {frame rest : Bytes}
    → cut_end hold ≡ some (frame, rest)
    → length rest < length hold
unfolding cut_end
length-cut_end [] h = ground arith
length-cut_end (b ∷ bs) {frame} {rest} h = elim (Option-cases (cut_end bs)) [
  | inl n ↦ ground arith
  | inr ((f, r), e) ↦ ground (arith, length-cut_end bs e)
]

length-from_start : (hold : Bytes) → length (from_start hold) ≤ length hold
length-from_start [] = omega arith
length-from_start (b ∷ bs) = ground (arith, length-from_start bs)

-- F7 does not occur.
abbrev pub IsOpenEnded : Bytes → Type 0
IsOpenEnded = All (λ b. b ≢ 0xF7)

-- Nothing, or the beginning of a frame
pub data IsUnfinished : Bytes → Type 0 where
  nothing : IsUnfinished []
  begun : (body : Bytes) → IsOpenEnded body → IsUnfinished (0xF0 ∷ body)

cut_end-none : (hold : Bytes) → cut_end hold ≡ none → IsOpenEnded hold
unfolding cut_end
cut_end-none [] h = tt
cut_end-none (b ∷ bs) h = elim (Option-cases (cut_end bs)) [
  | inl n ↦ (ground arith, cut_end-none bs n)
  | inr ((f, r), e) ↦ absurd (ground arith)
]

from_start-head : (hold bs : Bytes) (b : ℕ) → from_start hold ≡ b ∷ bs → b ≡ 0xF0
from_start-head [] bs b h = ground arith
from_start-head (c ∷ cs) bs b h = ground (arith, from_start-head cs bs b)

-- The loop ends, and what it leaves is unfinished.
abbrev Ends : Option (Bytes × Counters) → Type 0
Ends o = (hold : Bytes) × (c : Counters) × (o ≡ some (hold, c)) × IsUnfinished hold

module _ (which : Input) where
  abbrev EndsBelow : ℕ → Type 0
  EndsBelow fuel =
      (hold : Bytes) (c : Counters) → length hold < fuel → Ends (drain_loop fuel which hold c)

  drain_loop-cut :
      (fuel : ℕ) (hold bs : Bytes) (c : Counters)
      → EndsBelow fuel
      → from_start hold ≡ 0xF0 ∷ bs
      → length bs < fuel
      → Ends (drain_loop (suc fuel) which hold c)
  unfolding drain_loop
  drain_loop-cut fuel hold bs c ih s h = elim (Option-cases (cut_end (0xF0 ∷ bs))) [
    | inl n ↦ (
      0xF0 ∷ bs,
      c,
      rw (s, drain_loop) (rw (n, drain_loop) refl),
      begun bs (cut_end-none (0xF0 ∷ bs) n).1,
    )
    | inr ((frame, rest), e) ↦
        let (hold', c', r, u) =
          ih rest (score_sysex_frame which frame c)
            (ground (arith, length-cut_end (0xF0 ∷ bs) e)) in
        (hold', c', rw (s, drain_loop) (rw (e, drain_loop) r), u)
  ]

  drain_loop-Ends : (fuel : ℕ) → EndsBelow fuel
  unfolding drain_loop
  drain_loop-Ends zero hold c h = absurd (omega arith)
  drain_loop-Ends (suc fuel) hold c h = started (drain_loop-Ends fuel) (from_start hold) refl
    where
      started :
          EndsBelow fuel
          → (s : Bytes) → from_start hold ≡ s
          → Ends (drain_loop (suc fuel) which hold c)
      started ih [] e = ([], c, rw (e, drain_loop) refl, nothing)
      started ih (b ∷ bs) e =
          let start : from_start hold ≡ 0xF0 ∷ bs = rw (from_start-head hold bs b e) at e in
          drain_loop-cut fuel hold bs c ih start (ground (arith, length-from_start hold))

-- Whatever the buffer holds, the draining ends, and leaves nothing or the beginning of a frame.
pub drain_sysex_hold-IsUnfinished :
    (which : Input) (hold : Bytes) (c : Counters)
    → (hold' : Bytes) × (c' : Counters) × (drain_sysex_hold which hold c ≡ some (hold', c'))
      × IsUnfinished hold'
unfolding drain_sysex_hold
drain_sysex_hold-IsUnfinished which hold c =
    drain_loop-Ends which (suc (length hold)) hold c (omega arith)

-- The frame that mido's message stands for
abbrev pub frame_of : Bytes → Bytes
frame_of payload = 0xF0 ∷ (payload ++ 0xF7 ∷ [])

-- A whole message is scored at once, and nothing is left of it.
pub drain_sysex_hold-frame_of :
    (which : Input) (payload : Bytes) (c : Counters)
    → IsData payload
    → drain_sysex_hold which (frame_of payload) c
      ≡ some ([], score_sysex_frame which (frame_of payload) c)
unfolding drain_sysex_hold cut_end
drain_sysex_hold-frame_of which payload c h = rw (cut_end-data payload [] h, drain_loop)
