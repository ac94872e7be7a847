-- ===== src/Inquiry.antt =====
-- The inquiry loop of scripts/lab/device-inquiry-loop.py, over a recording of each cycle. Times are
-- whole milliseconds; the log lines are events that carry the values of the lines.
pub mod Wait
pub mod Counters
pub mod Session
use unitor_win64_driver.Base.{
  ℕ, zero, suc, ◌+◌, ◌-◌, ◌*◌, Bool, true, false, ◌&&◌, Option, none, some, List, [], ◌∷◌, ◌++◌,
  Bytes, ltb, leb, if◌then◌else◌, but_last, rest_of, length, ◌>>=◌,
}
use unitor_win64_driver.Midi.{Message, is_kind, Poll}
use unitor_win64_driver.Sysex.Frame.{framed, inquiry, is_identity_reply}

-- The inner `for` of `_wait_identity`
unfoldable pub first_identity : List Message → Option Bytes
first_identity [] = none
first_identity (m ∷ ms) =
    let rest = first_identity ms in
    let payload = framed m.payload in
    if is_kind "sysex" m then if is_identity_reply payload then some payload else rest else rest

-- The loop from its test on; `none`: the recording ends before the loop does.
unfoldable pub identity_loop : ℕ → ℕ → List Poll → Option (Option Bytes × ℕ)
unfolding first_identity
identity_loop started deadline [] = none
identity_loop started deadline (p ∷ ps) =
    let rest = identity_loop started deadline ps in
    let after : Option (Option Bytes × ℕ) = elim (first_identity p.pending) [
      | none ↦ rest
      | some payload ↦ some (some payload, p.stamp - started)
    ] in
    if ltb p.now deadline then after else some (none, p.stamp - started)

unfoldable pub wait_identity : ℕ → ℕ → List Poll → Option (Option Bytes × ℕ)
wait_identity started timeout polls = identity_loop started (started + timeout) polls

pub record InquiryLoopOpts : Type 0 where
  pub count : ℕ
  pub interval : ℕ
  pub reply_timeout : ℕ
  pub pass_percent : ℕ

-- What one cycle reads: the clock at its start, the first wait, the clock when the time left is
-- taken, and the second wait
pub record Cycle : Type 0 where
  pub cycle_started : ℕ
  pub first_started : ℕ
  pub first_polls : List Poll
  pub slack_now : ℕ
  pub late_started : ℕ
  pub late_polls : List Poll

-- A line of the lab log, with its index
pub data Event : Type 0 where
  send : ℕ → ℕ → Event
  recv : ℕ → Bytes → ℕ → Event
  timeout : ℕ → ℕ → ℕ → Event
  late : ℕ → Bytes → ℕ → Event

-- `max(0.0, remaining)`
abbrev pub late_timeout : InquiryLoopOpts → Cycle → ℕ
late_timeout opts c = opts.interval - (c.slack_now - c.cycle_started)

-- (got_reply, was_late) with the line
abbrev pub late_outcome : InquiryLoopOpts → Cycle → ℕ → ℕ → Option Bytes × ℕ → (Bool × Bool) × Event
late_outcome opts c index first_dt (none, late_ms) =
    ((false, false), timeout index (late_timeout opts c) (first_dt + late_ms))
late_outcome opts c index first_dt (some reply, late_ms) =
    ((true, true), late index reply (first_dt + late_ms))

unfoldable pub resolve_inquiry_outcome :
    InquiryLoopOpts → Cycle → ℕ → Option Bytes × ℕ → Option ((Bool × Bool) × Event)
resolve_inquiry_outcome opts c index (some reply, first_dt) =
    some ((true, false), recv index reply first_dt)
resolve_inquiry_outcome opts c index (none, first_dt) =
    wait_identity c.late_started (late_timeout opts c) c.late_polls >>= λ waited.
    some (late_outcome opts c index first_dt waited)

-- The lines, the payloads handed to mido, and the two counters
pub record LoopState : Type 0 where
  pub lines : List Event
  pub sent : List Bytes
  pub replies : ℕ
  pub late_replies : ℕ

-- `if got: replies += 1; if late: late_replies += 1`
abbrev pub count_reply : Bool × Bool → LoopState → LoopState
count_reply (false, late_) s = s
count_reply (true, false) s = record s { replies = s.replies + 1 }
count_reply (true, true) s = record s { replies = s.replies + 1; late_replies = s.late_replies + 1 }

unfoldable pub run_one_inquiry : InquiryLoopOpts → LoopState → ℕ → Cycle → Option LoopState
unfolding resolve_inquiry_outcome
run_one_inquiry opts s index c = do
  first ← wait_identity c.first_started opts.reply_timeout c.first_polls
  (flags, line) ← resolve_inquiry_outcome opts c index first
  some (
      count_reply flags (record s {
        lines = s.lines ++ send index c.cycle_started ∷ line ∷ [];
        sent = s.sent ++ but_last (rest_of inquiry) ∷ [];
      }))

-- The loop from `index` on, one recorded cycle for each inquiry
unfoldable pub inquiry_rounds : InquiryLoopOpts → LoopState → ℕ → List Cycle → Option LoopState
unfolding run_one_inquiry
inquiry_rounds opts s index [] = some s
inquiry_rounds opts s index (c ∷ cs) = do
  next ← run_one_inquiry opts s index c
  inquiry_rounds opts next (index + 1) cs

-- `rate >= pass_percent`, the rate being 0 for no inquiry. The division is exact enough: two
-- different rates of fewer than 2 ^ 40 inquiries differ by more than it rounds.
abbrev pub rate_passes : ℕ → ℕ → ℕ → Bool
rate_passes replies zero pass_percent = leb pass_percent 0
rate_passes replies (suc n) pass_percent = leb (pass_percent * suc n) (100 * replies)

abbrev start : LoopState
start = record { lines = []; sent = []; replies = 0; late_replies = 0 }

-- One recorded cycle stands for each of the `count` inquiries.
unfoldable pub run_inquiry_loop : InquiryLoopOpts → List Cycle → Option (LoopState × Bool)
unfolding inquiry_rounds
run_inquiry_loop opts cycles = do
  s ← inquiry_rounds opts start 1 cycles
  some (s, rate_passes s.replies opts.count opts.pass_percent)
