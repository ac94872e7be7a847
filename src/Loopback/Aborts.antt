-- ===== src/Loopback/Aborts.antt =====
-- When the trials of a payload are aborted.
use unitor_win64_driver.Base.{
  ℕ, ◌+◌, ◌<◌, ◌≡◌, refl, ◌∙◌, arith, Bool, true, false, Bool-cases, inl, inr, Option, none, some,
  List, [], ◌∷◌, ◌++◌, append-nil, Bytes, ok, ltb, if◌then◌else◌, All,
}
use unitor_win64_driver.Loopback.{
  LoopbackArgs, Trial, consecutive_fails, ScenarioStats, new_stats, run_one_trial, abort,
  next_consecutive, must_abort, payload_rounds, run_payload_trials,
}
use unitor_win64_driver.Loopback.Runs.{
  misses, has_run_end, aborts_on, aborts_on-hit, aborts_on-miss, aborts_on-last,
}
use unitor_win64_driver.Loopback.Trials.{is_some, IsRecorded, matched, outcomes, run_one_trial-Adds}

payload_rounds-step :
    (args : LoopbackArgs) (deadline : Option ℕ) (payload : Bytes) (c : ℕ) (s : ScenarioStats)
    (index : ℕ) (t : Trial) (ts : List Trial) (hit : Bool) (s' : ScenarioStats)
    → run_one_trial args deadline payload s index t ≡ some (ok (hit, s'))
    → payload_rounds args deadline payload c s index (t ∷ ts) ≡ (
        if must_abort args (next_consecutive hit c)
        then some (abort (consecutive_fails (next_consecutive hit c)) s')
        else payload_rounds args deadline payload (next_consecutive hit c) s' (index + 1) ts)
unfolding payload_rounds
payload_rounds-step args deadline payload c s index t ts hit s' q = rw q refl

-- Fewer misses so far than the abort needs
abbrev IsBelow : LoopbackArgs → ℕ → Type 0
IsBelow args c = ltb 0 args.abort_after_timeouts ≡ true → c < args.abort_after_timeouts

-- The rounds return, and abort exactly when the results to come, behind the misses so far, have a
-- run of misses that is long enough.
abbrev AbortsOn : LoopbackArgs → List Bool → Option ScenarioStats → Type 0
AbortsOn args results o =
    (s : ScenarioStats) × (o ≡ some s)
    × (is_some s.abort_reason ≡ aborts_on args.abort_after_timeouts results)

payload_rounds-AbortsOn :
    (args : LoopbackArgs) (payload : Bytes) (c : ℕ) (s : ScenarioStats) (index : ℕ)
    (ts : List Trial)
    → All (IsRecorded args payload) ts
    → s.abort_reason ≡ none
    → IsBelow args c
    → AbortsOn args
        (misses c ++ outcomes args payload ts)
        (payload_rounds args none payload c s index ts)
payload_rounds-AbortsOn args payload c s index [] h n b = (
  s,
  unfold payload_rounds in refl,
  rw append-nil (ground (arith, n, has_run_end c args.abort_after_timeouts)),
)
payload_rounds-AbortsOn args payload c s index (t ∷ ts) h n b =
    let (s', q, a) = run_one_trial-Adds args none payload s index t h.0 refl in
    let k = args.abort_after_timeouts in
    let step = payload_rounds-step args none payload c s index t ts (matched args payload t) s' q in
    elim (Bool-cases (matched args payload t)) [
      | inl e ↦
          let (s'', q', r) =
            payload_rounds-AbortsOn args payload 0 s' (index + 1) ts h.1 (a.same_abort ∙ n)
              (λ z. ground arith) in
          let go_on : must_abort args 0 ≡ false = ground arith in
          (s'', step ∙ rw (e, go_on) q', r ∙ rw e (aborts_on-hit c k (outcomes args payload ts) b))
      | inr e ↦ elim (Bool-cases (must_abort args (c + 1))) [
        | inl m ↦ (
          abort (consecutive_fails (c + 1)) s',
          step ∙ rw (e, m) refl,
          rw e (aborts_on-last c k (outcomes args payload ts) (ground (arith, b))),
        )
        | inr m ↦
            let (s'', q', r) =
              payload_rounds-AbortsOn args payload (c + 1) s' (index + 1) ts h.1 (a.same_abort ∙ n)
                (λ z. ground arith) in
            (s'', step ∙ rw (e, m) q', r ∙ rw e (aborts_on-miss c k (outcomes args payload ts)))
      ]
    ]

-- Without a wall deadline, and with every wait seeing its own, the trials of a payload are aborted
-- exactly when the abort is switched on by a number other than 0 and somewhere as many trials in a
-- row as it says do not bring the payload back: the send raises or the exact frame does not arrive.
pub run_payload_trials-aborts_on :
    (args : LoopbackArgs) (payload : Bytes) (ts : List Trial)
    → All (IsRecorded args payload) ts
    → (s : ScenarioStats) × (run_payload_trials args none payload ts ≡ some s)
      × (is_some s.abort_reason ≡ aborts_on args.abort_after_timeouts (outcomes args payload ts))
unfolding run_payload_trials
run_payload_trials-aborts_on args payload ts h =
    payload_rounds-AbortsOn args payload 0 new_stats 1 ts h refl (λ z. ground arith)
