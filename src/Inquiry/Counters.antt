-- ===== src/Inquiry/Counters.antt =====
-- The counters and the verdict of the inquiry loop, against what the recordings contain.
use unitor_win64_driver.Base.{
  ℕ, ◌+◌, ◌≤◌, ◌≡◌, refl, arith, Bool, true, false, ◌&&◌, ◌||◌, not, Option, none, some, List, [],
  ◌∷◌, ◌++◌, Bytes, length, length-append, All, but_last, rest_of,
}
use unitor_win64_driver.Midi.{Poll}
use unitor_win64_driver.Sysex.Frame.{is_identity_reply, inquiry}
use unitor_win64_driver.Sysex.Wait.Laws.{
  Expires, first_match, frames_before, wait_matched_sysex-Returns,
}
use unitor_win64_driver.Inquiry.{
  wait_identity, InquiryLoopOpts, Cycle, Event, send, recv, timeout, late, late_timeout,
  resolve_inquiry_outcome, LoopState, count_reply, run_one_inquiry, inquiry_rounds, rate_passes,
  start, run_inquiry_loop,
}
use unitor_win64_driver.Inquiry.Wait.{wait_identity-wait_matched_sysex}

wait_identity-reply :
    (started limit : ℕ) {polls : List Poll}
    → Expires (started + limit) polls
    → (dt : ℕ) × (wait_identity started limit polls
        ≡ some (first_match is_identity_reply (frames_before (started + limit) polls), dt))
wait_identity-reply started limit {polls} e =
    let (r, h, k) = wait_matched_sysex-Returns is_identity_reply started limit e in
    (r.dt_ms, ground (arith, wait_identity-wait_matched_sysex started limit polls, h, k))

module _ (opts : InquiryLoopOpts) where
  -- The first identity reply before the end of the reply timeout
  abbrev pub on_time : Cycle → Option Bytes
  on_time c =
      first_match is_identity_reply
        (frames_before (c.first_started + opts.reply_timeout) c.first_polls)

  -- The first identity reply in what is left of the interval
  abbrev pub in_slack : Cycle → Option Bytes
  in_slack c =
      first_match is_identity_reply
        (frames_before (c.late_started + late_timeout opts c) c.late_polls)

  -- Both waits of the cycle see a poll at or after their deadlines.
  pub record IsRecorded (c : Cycle) : Type 0 where
    pub first_ends : Expires (c.first_started + opts.reply_timeout) c.first_polls
    pub late_ends : Expires (c.late_started + late_timeout opts c) c.late_polls

abbrev pub is_some : Option Bytes → Bool
is_some none = false
is_some (some reply) = true

abbrev pub bit : Bool → ℕ
bit true = 1
bit false = 0

-- How many cycles are answered, and how many of these only in the slack
abbrev pub answered : InquiryLoopOpts → List Cycle → ℕ
answered opts [] = 0
answered opts (c ∷ cs) =
    bit (is_some (on_time opts c) || is_some (in_slack opts c)) + answered opts cs

abbrev pub answered_late : InquiryLoopOpts → List Cycle → ℕ
answered_late opts [] = 0
answered_late opts (c ∷ cs) =
    bit (not (is_some (on_time opts c)) && is_some (in_slack opts c)) + answered_late opts cs

-- What a state has more than another one
record Gains (s t : LoopState) (replies late sent : ℕ) : Type 0 where
  gained : t.replies ≡ s.replies + replies
  gained_late : t.late_replies ≡ s.late_replies + late
  sent_more : length t.sent ≡ length s.sent + sent

-- The state with the two lines and the payload of one inquiry
abbrev logged : LoopState → ℕ → Cycle → Event → LoopState
logged s index c line = record s {
  lines = s.lines ++ send index c.cycle_started ∷ line ∷ [];
  sent = s.sent ++ but_last (rest_of inquiry) ∷ [];
}

run_one_inquiry-waits :
    (opts : InquiryLoopOpts) (s : LoopState) (index : ℕ) (c : Cycle) (first slack : Option Bytes)
    (dt late_dt : ℕ)
    → wait_identity c.first_started opts.reply_timeout c.first_polls ≡ some (first, dt)
    → wait_identity c.late_started (late_timeout opts c) c.late_polls ≡ some (slack, late_dt)
    → (t : LoopState) × (run_one_inquiry opts s index c ≡ some t)
      × Gains s t
          (bit (is_some first || is_some slack))
          (bit (not (is_some first) && is_some slack))
          1
unfolding run_one_inquiry resolve_inquiry_outcome
run_one_inquiry-waits opts s index c (some f) slack dt late_dt h k = (
  count_reply (true, false) (logged s index c (recv index f dt)),
  rw h refl,
  record {
    gained = refl;
    gained_late = omega arith;
    sent_more = length-append s.sent (but_last (rest_of inquiry) ∷ []);
  },
)
run_one_inquiry-waits opts s index c none (some f) dt late_dt h k = (
  count_reply (true, true) (logged s index c (late index f (dt + late_dt))),
  rw (h, resolve_inquiry_outcome, k) refl,
  record {
    gained = refl;
    gained_late = refl;
    sent_more = length-append s.sent (but_last (rest_of inquiry) ∷ []);
  },
)
run_one_inquiry-waits opts s index c none none dt late_dt h k = (
  logged s index c (timeout index (late_timeout opts c) (dt + late_dt)),
  rw (h, resolve_inquiry_outcome, k) refl,
  record {
    gained = omega arith;
    gained_late = omega arith;
    sent_more = length-append s.sent (but_last (rest_of inquiry) ∷ []);
  },
)

inquiry_rounds-Gains :
    (opts : InquiryLoopOpts) (s : LoopState) (index : ℕ) (cs : List Cycle)
    → All (IsRecorded opts) cs
    → (t : LoopState) × (inquiry_rounds opts s index cs ≡ some t)
      × Gains s t (answered opts cs) (answered_late opts cs) (length cs)
unfolding inquiry_rounds
inquiry_rounds-Gains opts s index [] h =
    (s, refl, record { gained = omega arith; gained_late = omega arith; sent_more = omega arith })
inquiry_rounds-Gains opts s index (c ∷ cs) h =
    let (dt, first) = wait_identity-reply c.first_started opts.reply_timeout h.0.first_ends in
    let (late_dt, slack) = wait_identity-reply c.late_started (late_timeout opts c) h.0.late_ends in
    let (t, e, g) = run_one_inquiry-waits opts s index c _ _ dt late_dt first slack in
    let (u, e', g') = inquiry_rounds-Gains opts t (index + 1) cs h.1 in
    (
      u,
      rw e e',
      record {
        gained = omega (arith, g.gained, g'.gained);
        gained_late = omega (arith, g.gained_late, g'.gained_late);
        sent_more = omega (arith, g.sent_more, g'.sent_more);
      },
    )

answered_bounds :
    (opts : InquiryLoopOpts) (cs : List Cycle)
    → (answered_late opts cs ≤ answered opts cs) × (answered opts cs ≤ length cs)
answered_bounds opts [] = (omega arith, omega arith)
answered_bounds opts (c ∷ cs) = ground (arith, answered_bounds opts cs)

-- On recordings in which every wait sees its deadline the loop returns. It has sent one inquiry for
-- each cycle; its replies are the cycles with an identity reply before the timeout or in the rest
-- of the interval, its late replies those with one only in the rest; so late replies are at most
-- the replies, and these at most the inquiries. The verdict is that of the replies.
pub run_inquiry_loop-answered :
    (opts : InquiryLoopOpts) (cs : List Cycle)
    → opts.count ≡ length cs
    → All (IsRecorded opts) cs
    → (s : LoopState) × (run_inquiry_loop opts cs
        ≡ some (s, rate_passes (answered opts cs) opts.count opts.pass_percent))
      × (s.replies ≡ answered opts cs)
      × (s.late_replies ≡ answered_late opts cs)
      × (length s.sent ≡ opts.count)
      × (s.late_replies ≤ s.replies)
      × (s.replies ≤ opts.count)
unfolding run_inquiry_loop
run_inquiry_loop-answered opts cs n h =
    let (s, e, g) = inquiry_rounds-Gains opts start 1 cs h in
    let (low, high) = answered_bounds opts cs in
    let replies : s.replies ≡ answered opts cs = omega (arith, g.gained) in
    let late_ : s.late_replies ≡ answered_late opts cs = omega (arith, g.gained_late) in
    (s, rw (e, replies) refl, replies, late_, omega (arith, g.sent_more), omega arith, omega arith)
