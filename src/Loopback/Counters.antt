-- ===== src/Loopback/Counters.antt =====
-- What the counters of a payload's trials say.
use unitor_win64_driver.Base.{
  ℕ, suc, ◌+◌, ◌≤◌, ◌≡◌, refl, arith, Bool, true, false, Bool-cases, inl, inr, Option, none, some,
  List, [], ◌∷◌, Bytes, length, All,
}
use unitor_win64_driver.Loopback.{
  LoopbackArgs, Trial, AbortReason, wall_exceeded, consecutive_fails, ScenarioStats, new_stats,
  wall_passed, run_one_trial, abort, next_consecutive, must_abort, payload_rounds,
  run_payload_trials,
}
use unitor_win64_driver.Loopback.Trials.{IsRecorded, matched, Adds, run_one_trial-Adds}

-- What the counters say of each other, and of the trials made
record Accounts (s s' : ScenarioStats) (trials : ℕ) : Type 0 where
  sum : s'.ok_count + length s'.fail_lines + s.sent ≡ s'.sent + (s.ok_count + length s.fail_lines)
  at_most : s'.sent ≤ s.sent + trials
  all_made : s'.abort_reason ≡ none → s'.sent ≡ s.sent + trials

Accounts-abort :
    {s s' : ScenarioStats} {hit : Bool} {trials : ℕ} (reason : AbortReason)
    → Adds s s' hit
    → Accounts s (abort reason s') (suc trials)
Accounts-abort {hit = true} reason a = record {
  sum = omega (arith, a.one_sent, a.ok_added, a.fail_added);
  at_most = omega (arith, a.one_sent);
  all_made = λ e. absurd (ground (arith, e));
}
Accounts-abort {hit = false} reason a = record {
  sum = omega (arith, a.one_sent, a.ok_added, a.fail_added);
  at_most = omega (arith, a.one_sent);
  all_made = λ e. absurd (ground (arith, e));
}

Accounts-step :
    {s s' s'' : ScenarioStats} {hit : Bool} {trials : ℕ}
    → Adds s s' hit
    → Accounts s' s'' trials
    → Accounts s s'' (suc trials)
Accounts-step {hit = true} a b = record {
  sum = omega (arith, a.one_sent, a.ok_added, a.fail_added, b.sum);
  at_most = omega (arith, a.one_sent, b.at_most);
  all_made = λ e. omega (arith, a.one_sent, b.all_made e);
}
Accounts-step {hit = false} a b = record {
  sum = omega (arith, a.one_sent, a.ok_added, a.fail_added, b.sum);
  at_most = omega (arith, a.one_sent, b.at_most);
  all_made = λ e. omega (arith, a.one_sent, b.all_made e);
}

payload_rounds-Accounts :
    (args : LoopbackArgs) (deadline : Option ℕ) (payload : Bytes) (consecutive : ℕ)
    (s : ScenarioStats) (index : ℕ) (ts : List Trial)
    → All (IsRecorded args payload) ts
    → (s' : ScenarioStats) × (payload_rounds args deadline payload consecutive s index ts ≡ some s')
      × Accounts s s' (length ts)
unfolding payload_rounds
payload_rounds-Accounts args deadline payload consecutive s index [] h =
    (s, refl, record { sum = omega arith; at_most = omega arith; all_made = λ e. omega arith })
payload_rounds-Accounts args deadline payload consecutive s index (t ∷ ts) h =
    elim (Bool-cases (wall_passed deadline t.checked)) [
      | inl w ↦ (
        abort (wall_exceeded index) s,
        unfold run_one_trial in rw w refl,
        record {
          sum = omega arith;
          at_most = omega arith;
          all_made = λ e. absurd (ground (arith, e));
        },
      )
      | inr w ↦
          let (s', q, a) = run_one_trial-Adds args deadline payload s index t h.0 w in
          let c = next_consecutive (matched args payload t) consecutive in
          let (s'', q', b) =
            payload_rounds-Accounts args deadline payload c s' (index + 1) ts h.1 in
          elim (Bool-cases (must_abort args c)) [
            | inl m ↦ (
              abort (consecutive_fails c) s',
              rw (q, m) refl,
              Accounts-abort (consecutive_fails c) a,
            )
            | inr m ↦ (s'', rw (q, m) q', Accounts-step a b)
          ]
    ]

-- On recordings in which every wait sees its deadline the trials of a payload return, whatever the
-- wall deadline: each trial sent is counted as a match or has a fail line, no more are sent than
-- planned, and all of them unless the run is aborted.
pub run_payload_trials-Accounts :
    (args : LoopbackArgs) (deadline : Option ℕ) (payload : Bytes) (ts : List Trial)
    → All (IsRecorded args payload) ts
    → (s : ScenarioStats) × (run_payload_trials args deadline payload ts ≡ some s)
      × (s.ok_count + length s.fail_lines ≡ s.sent)
      × (s.sent ≤ length ts)
      × (s.abort_reason ≡ none → s.sent ≡ length ts)
unfolding run_payload_trials
run_payload_trials-Accounts args deadline payload ts h =
    let (s, q, a) = payload_rounds-Accounts args deadline payload 0 new_stats 1 ts h in
    (s, q, omega (arith, a.sum), omega (arith, a.at_most), λ e. omega (arith, a.all_made e))
