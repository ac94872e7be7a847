-- ===== src/Loopback/Trials.antt =====
-- What one trial of a payload does.
use unitor_win64_driver.Base.{
  ℕ, ◌+◌, ◌≡◌, refl, arith, Bool, true, false, ◌&&◌, not, Bool-cases, inl, inr, Option, none, some,
  List, [], ◌∷◌, Bytes, ok, length, length-append, equal,
}
use unitor_win64_driver.Sysex.Frame.{send_sysex}
use unitor_win64_driver.Sysex.Wait.{WaitResult}
use unitor_win64_driver.Sysex.Wait.Laws.{Expires, first_match, frames_before}
use unitor_win64_driver.Sysex.Diff.Laws.{wait_exact_sysex-first_match}
use unitor_win64_driver.Loopback.{
  LoopbackArgs, Trial, fail_line, send_line, recv_line, timeout_line, ScenarioStats, wall_passed,
  send_raises, emit, record_fail, trial_result, run_one_trial,
}

abbrev pub is_some {ℓ} : {A : Type ℓ} → Option A → Bool
is_some none = false
is_some (some a) = true

abbrev pub bit : Bool → ℕ
bit true = 1
bit false = 0

module _ (args : LoopbackArgs) (payload : Bytes) where
  -- The wait of the trial sees a poll at or after its deadline.
  abbrev pub IsRecorded : Trial → Type 0
  IsRecorded t = Expires (t.started + args.reply_timeout) t.polls

  abbrev pub reply_of : Trial → Option Bytes
  reply_of t =
      first_match (λ f. equal f payload) (frames_before (t.started + args.reply_timeout) t.polls)

  -- The payload is sent, and it comes back before the deadline.
  abbrev pub matched : Trial → Bool
  matched t = not (send_raises (send_sysex payload) t.port_raises) && is_some (reply_of t)

  abbrev pub outcomes : List Trial → List Bool
  outcomes [] = []
  outcomes (t ∷ ts) = matched t ∷ outcomes ts

-- What one trial adds to the counters
pub record Adds (s t : ScenarioStats) (hit : Bool) : Type 0 where
  pub one_sent : t.sent ≡ s.sent + 1
  pub ok_added : t.ok_count ≡ s.ok_count + bit hit
  pub fail_added : length t.fail_lines ≡ length s.fail_lines + bit (not hit)
  pub same_abort : t.abort_reason ≡ s.abort_reason

-- The state behind the line of the sent frame
abbrev sent_state : ℕ → ScenarioStats → ScenarioStats
sent_state index s = emit (send_line index) (record s { sent = s.sent + 1 })

trial_result-Adds :
    (index : ℕ) (s : ScenarioStats) (r : WaitResult) (o : Option Bytes)
    → r.reply ≡ o
    → (s' : ScenarioStats) × (trial_result index (sent_state index s) r ≡ (is_some o, s'))
      × Adds s s' (is_some o)
trial_result-Adds index s r (some reply) e = (
  emit (recv_line index r.dt_ms) (record (sent_state index s) { ok_count = s.ok_count + 1 }),
  ground arith,
  record { one_sent = refl; ok_added = refl; fail_added = omega arith; same_abort = refl },
)
trial_result-Adds index s r none e = (
  record_fail (timeout_line index r.dt_ms r.note) (sent_state index s),
  ground arith,
  record {
    one_sent = refl;
    ok_added = omega arith;
    fail_added = length-append s.fail_lines (timeout_line index r.dt_ms r.note ∷ []);
    same_abort = refl;
  },
)

pub run_one_trial-Adds :
    (args : LoopbackArgs) (deadline : Option ℕ) (payload : Bytes) (s : ScenarioStats) (index : ℕ)
    (t : Trial)
    → IsRecorded args payload t
    → wall_passed deadline t.checked ≡ false
    → (s' : ScenarioStats) × (run_one_trial args deadline payload s index t
        ≡ some (ok (matched args payload t, s')))
      × Adds s s' (matched args payload t)
unfolding run_one_trial
run_one_trial-Adds args deadline payload s index t h w =
    elim (Bool-cases (send_raises (send_sysex payload) t.port_raises)) [
      | inl e ↦ (
        record_fail (fail_line index) (record s { sent = s.sent + 1 }),
        rw (w, e) refl,
        rw e (record {
          one_sent = refl;
          ok_added = omega arith;
          fail_added = length-append s.fail_lines (fail_line index ∷ []);
          same_abort = refl;
        }),
      )
      | inr e ↦
          let (r, q, k) = wait_exact_sysex-first_match payload t.started args.reply_timeout h in
          let (s', q', a) = trial_result-Adds index s r (reply_of args payload t) k in
          (s', rw (w, e, q, q') refl, rw e a)
    ]
