-- ===== src/Scenario/Rounds.antt =====
-- What the counters of a scenario say.
use unitor_win64_driver.Base.{
  ℕ, suc, ◌+◌, ◌≡◌, refl, arith, Bool, true, false, not, Bool-cases, inl, inr, Option, none, some,
  List, [], ◌∷◌, ◌++◌, Bytes, Result, ok, length, length-append, All,
}
use unitor_win64_driver.Sysex.Frame.{FrameError, send_sysex}
use unitor_win64_driver.Sysex.Wait.{WaitResult}
use unitor_win64_driver.Sysex.Wait.Laws.{
  Expires, first_match, frames_before, wait_matched_sysex-Returns,
}
use unitor_win64_driver.Scenario.{
  Line, fail_line, sent_line, request_line, recv_line, timeout_line, ScenarioStats, new_stats,
  record_ok, record_fail, send_raises, push_rounds, run_push_scenario, DumpRound, dump_result,
  requested, dump_rounds, run_dump_scenario,
}

abbrev pub bit : Bool → ℕ
bit true = 1
bit false = 0

abbrev pub is_some : Option Bytes → Bool
is_some none = false
is_some (some reply) = true

-- What a scenario adds to the counters: so many rounds, of which so many are good
pub record Adds (s t : ScenarioStats) (rounds good : ℕ) : Type 0 where
  pub sent_added : t.sent ≡ s.sent + rounds
  pub ok_added : t.ok_count ≡ s.ok_count + good
  pub all_counted :
      t.ok_count + length t.fail_lines + rounds
      ≡ s.ok_count + length s.fail_lines + (rounds + rounds)

Adds-next :
    {s t u : ScenarioStats} {rounds good : ℕ} (hit : Bool)
    → Adds s t 1 (bit hit)
    → Adds t u rounds good
    → Adds s u (suc rounds) (bit hit + good)
Adds-next hit a b = record {
  sent_added = omega (arith, a.sent_added, b.sent_added);
  ok_added = omega (arith, a.ok_added, b.ok_added);
  all_counted = omega (arith, a.all_counted, b.all_counted);
}

Adds-ok :
    (line : Line) (s : ScenarioStats) (ls : List Line)
    → Adds s (record_ok line (record s { sent = s.sent + 1; lines = ls })) 1 1
Adds-ok line s ls = record { sent_added = refl; ok_added = refl; all_counted = omega arith }

Adds-fail :
    (line : Line) (s : ScenarioStats) (ls : List Line)
    → Adds s (record_fail line (record s { sent = s.sent + 1; lines = ls })) 1 0
Adds-fail line s ls = record {
  sent_added = refl;
  ok_added = omega arith;
  all_counted = omega (arith, length-append s.fail_lines (line ∷ []));
}

-- The pushes that go out
abbrev pub pushed : Bytes → List Bool → ℕ
pushed payload [] = 0
pushed payload (port_raises ∷ rounds) =
    bit (not (send_raises (send_sysex payload) port_raises)) + pushed payload rounds

push_rounds-Adds :
    (payload : Bytes) (s : ScenarioStats) (index : ℕ) (rounds : List Bool)
    → Adds s (push_rounds payload s index rounds) (length rounds) (pushed payload rounds)
unfolding push_rounds
push_rounds-Adds payload s index [] = record {
  sent_added = omega arith;
  ok_added = omega arith;
  all_counted = omega arith;
}
push_rounds-Adds payload s index (port_raises ∷ rounds) =
    elim (Bool-cases (send_raises (send_sysex payload) port_raises)) [
      | inl e ↦
          let s' = record_fail (fail_line index) (record s { sent = s.sent + 1 }) in
          rw e (
            Adds-next false (Adds-fail (fail_line index) s s.lines)
              (push_rounds-Adds payload s' (index + 1) rounds))
      | inr e ↦
          let s' = record_ok (sent_line index) (record s { sent = s.sent + 1 }) in
          rw e (
            Adds-next true (Adds-ok (sent_line index) s s.lines)
              (push_rounds-Adds payload s' (index + 1) rounds))
    ]

module _ (predicate : Bytes → Bool) (reply_timeout : ℕ) where
  -- The wait of the round sees a poll at or after its deadline.
  abbrev pub IsRecorded : DumpRound → Type 0
  IsRecorded d = Expires (d.started + reply_timeout) d.polls

  abbrev pub reply_of : DumpRound → Option Bytes
  reply_of d = first_match predicate (frames_before (d.started + reply_timeout) d.polls)

  -- The rounds in which a matching frame comes in time
  abbrev pub answered : List DumpRound → ℕ
  answered [] = 0
  answered (d ∷ ds) = bit (is_some (reply_of d)) + answered ds

dump_result-Adds :
    (index : ℕ) (request : Bytes) (s : ScenarioStats) (r : WaitResult) (o : Option Bytes)
    → r.reply ≡ o
    → Adds s
        (dump_result index
          (record s { sent = s.sent + 1; lines = s.lines ++ request_line index request ∷ [] })
          r)
        1
        (bit (is_some o))
dump_result-Adds index request s r none e =
    rw e
      (Adds-fail (timeout_line index r.dt_ms r.note) s (s.lines ++ request_line index request ∷ []))
dump_result-Adds index request s r (some reply) e =
    rw e (Adds-ok (recv_line index r.dt_ms) s (s.lines ++ request_line index request ∷ []))

-- Each request is a frame.
pub record IsSendable (request : Result FrameError Bytes) : Type 0 where
  pub frame : Bytes
  pub payload : Bytes
  pub is_request : request ≡ ok frame
  pub is_sent : send_sysex frame ≡ ok payload

module _ (request_at : ℕ → Result FrameError Bytes) (predicate : Bytes → Bool) (reply_timeout : ℕ)
    (sendable : (index : ℕ) → IsSendable (request_at index)) where
  pub dump_rounds-Adds :
      (s : ScenarioStats) (index : ℕ) (ds : List DumpRound)
      → All (IsRecorded predicate reply_timeout) ds
      → (t : ScenarioStats) × (dump_rounds request_at predicate reply_timeout s index ds
          ≡ some (ok t))
        × Adds s t (length ds) (answered predicate reply_timeout ds)
  unfolding dump_rounds
  dump_rounds-Adds s index [] h = (
    s,
    refl,
    record { sent_added = omega arith; ok_added = omega arith; all_counted = omega arith },
  )
  dump_rounds-Adds s index (d ∷ ds) h =
      let (r, q, k) = wait_matched_sysex-Returns predicate d.started reply_timeout h.0 in
      let o = sendable index in
      let out = record s {
        sent = s.sent + 1;
        lines = s.lines ++ request_line index o.frame ∷ [];
      } in
      let a = dump_result-Adds index o.frame s r (reply_of predicate reply_timeout d) k in
      let (t, q', b) = dump_rounds-Adds (dump_result index out r) (index + 1) ds h.1 in
      (
        t,
        rw (o.is_request, dump_rounds) (rw (o.is_sent, requested, dump_rounds) (rw q q')),
        Adds-next (is_some (reply_of predicate reply_timeout d)) a b,
      )

-- What a scenario's counters say in the end
pub record Counts (t : ScenarioStats) (rounds good : ℕ) : Type 0 where
  pub all_sent : t.sent ≡ rounds
  pub all_good : t.ok_count ≡ good
  pub sum : t.ok_count + length t.fail_lines ≡ t.sent

pub Counts-Adds :
    {t : ScenarioStats} {rounds good : ℕ} → Adds new_stats t rounds good → Counts t rounds good
Counts-Adds a = record {
  all_sent = omega (arith, a.sent_added);
  all_good = omega (arith, a.ok_added);
  sum = omega (arith, a.sent_added, a.all_counted);
}

-- A push scenario counts every round as sent, and as good exactly those in which the payload is a
-- frame and the send does not raise; each other round leaves a fail line.
pub run_push_scenario-Counts :
    (payload : Bytes) (rounds : List Bool)
    → Counts (run_push_scenario payload rounds) (length rounds) (pushed payload rounds)
unfolding run_push_scenario
run_push_scenario-Counts payload rounds = Counts-Adds (push_rounds-Adds payload new_stats 1 rounds)

-- A dump scenario whose request is a frame, on a recording in which every wait sees its deadline,
-- returns. It counts every round as sent, and as good exactly those in which a frame that satisfies
-- the predicate comes before the deadline; each other round leaves a fail line.
pub run_dump_scenario-Counts :
    (request payload : Bytes) (predicate : Bytes → Bool) (reply_timeout : ℕ) (ds : List DumpRound)
    → send_sysex request ≡ ok payload
    → All (IsRecorded predicate reply_timeout) ds
    → (t : ScenarioStats) × (run_dump_scenario request predicate reply_timeout ds ≡ some (ok t))
      × Counts t (length ds) (answered predicate reply_timeout ds)
unfolding run_dump_scenario
run_dump_scenario-Counts request payload predicate reply_timeout ds sent h =
    let sendable : (index : ℕ) → IsSendable (ok request) =
      λ index. record { frame = request; payload = payload; is_request = refl; is_sent = sent } in
    let (t, q, a) =
      dump_rounds-Adds (λ index. ok request) predicate reply_timeout sendable new_stats 1 ds h in
    (t, q, Counts-Adds a)
