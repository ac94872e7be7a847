-- ===== src/Scenario.antt =====
-- The push and dump scenarios of scripts/lab/sysex_matrix_mid_loop_lib.py and the bank burst of
-- scripts/lab/sysex_matrix_bank_loop_lib.py. Times are whole milliseconds; a line of the log is a
-- value that carries what the line prints.
pub mod Rounds
pub mod Bank
pub mod Verdict
use unitor_win64_driver.Base.{
  ℕ, zero, suc, ◌+◌, ◌-◌, ◌*◌, ◌%◌, Bool, true, false, ◌&&◌, ◌||◌, not, Option, none, some, List,
  [], ◌∷◌, ◌++◌, Text, Bytes, Result, ok, err, ltb, leb, ◌==◌, if◌then◌else◌, ◌>>=◌,
}
use unitor_win64_driver.Midi.{Poll}
use unitor_win64_driver.Sysex.Frame.{
  FrameError, send_sysex, load_sysex_fixture, patch_size, master_size, is_patch_dump,
  is_master_dump, patch_dump_request_all, master_dump_request, patch_dump_request,
}
use unitor_win64_driver.Sysex.Wait.{WaitResult, wait_matched_sysex}

pub data Line : Type 0 where
  fail_line sent_line : ℕ → Line
  request_line : ℕ → Bytes → Line
  recv_line : ℕ → ℕ → Line
  timeout_line : ℕ → ℕ → Text → Line

-- `ScenarioStats`, with the log lines of the scenario
pub record ScenarioStats : Type 0 where
  pub sent : ℕ
  pub ok_count : ℕ
  pub fail_lines : List Line
  pub lines : List Line

abbrev pub new_stats : ScenarioStats
new_stats = record { sent = 0; ok_count = 0; fail_lines = []; lines = [] }

abbrev pub record_ok : Line → ScenarioStats → ScenarioStats
record_ok line s = record s { ok_count = s.ok_count + 1; lines = s.lines ++ line ∷ [] }

abbrev pub record_fail : Line → ScenarioStats → ScenarioStats
record_fail line s = record s {
  fail_lines = s.fail_lines ++ line ∷ [];
  lines = s.lines ++ line ∷ [];
}

-- `send_sysex` raises: the payload is no frame, or mido or the port refuses it.
abbrev pub send_raises : Result FrameError Bytes → Bool → Bool
send_raises (err e) port_raises = true
send_raises (ok body) port_raises = port_raises

-- `run_push_scenario` from `index` on; for each round, whether mido or the port raises on the send
unfoldable pub push_rounds : Bytes → ScenarioStats → ℕ → List Bool → ScenarioStats
push_rounds payload s index [] = s
push_rounds payload s index (port_raises ∷ rounds) =
    let counted = record s { sent = s.sent + 1 } in
    push_rounds payload
      (if send_raises (send_sysex payload) port_raises
        then record_fail (fail_line index) counted
        else record_ok (sent_line index) counted)
      (index + 1) rounds

unfoldable pub run_push_scenario : Bytes → List Bool → ScenarioStats
unfolding push_rounds
run_push_scenario payload rounds = push_rounds payload new_stats 1 rounds

-- What a dump round reads: the clock at the start of the wait, and its polls
pub record DumpRound : Type 0 where
  pub started : ℕ
  pub polls : List Poll

-- The end of a round, from the result of the wait
abbrev pub dump_result : ℕ → ScenarioStats → WaitResult → ScenarioStats
dump_result index s r = elim r.reply [
  | some reply ↦ record_ok (recv_line index r.dt_ms) s
  | none ↦ record_fail (timeout_line index r.dt_ms r.note) s
]

-- The state when the request is out: an incomplete frame raises, and nothing catches it.
abbrev pub requested : Bytes → ScenarioStats → ℕ → Result FrameError ScenarioStats
requested request s index = elim (send_sysex request) [
  | err e ↦ err e
  | ok body ↦
      ok (record s { sent = s.sent + 1; lines = s.lines ++ request_line index request ∷ [] })
]

-- The loop of `run_dump_scenario` from `index` on, with the request of each round. `none`: the
-- recording ends before a wait does.
module _ (request_at : ℕ → Result FrameError Bytes) (predicate : Bytes → Bool)
    (reply_timeout : ℕ) where
  unfoldable pub dump_rounds :
      ScenarioStats → ℕ → List DumpRound → Option (Result FrameError ScenarioStats)
  dump_rounds s index [] = some (ok s)
  dump_rounds s index (d ∷ ds) = elim (request_at index) [
    | err e ↦ some (err e)
    | ok request ↦ elim (requested request s index) [
      | err e ↦ some (err e)
      | ok s' ↦ wait_matched_sysex predicate d.started reply_timeout d.polls >>= λ r.
          dump_rounds (dump_result index s' r) (index + 1) ds
    ]
  ]

unfoldable pub run_dump_scenario :
    Bytes → (Bytes → Bool) → ℕ → List DumpRound → Option (Result FrameError ScenarioStats)
unfolding dump_rounds
run_dump_scenario request predicate reply_timeout rounds =
    dump_rounds (λ index. ok request) predicate reply_timeout new_stats 1 rounds

-- `(start_slot + index - 1) & 0x7F`
abbrev pub slot_at : ℕ → ℕ → ℕ
slot_at start_slot index = (start_slot + index - 1) % 0x80

-- `run_bank_burst`; the header of its log already asks for the first request.
unfoldable pub run_bank_burst : ℕ → ℕ → List DumpRound → Option (Result FrameError ScenarioStats)
unfolding dump_rounds
run_bank_burst start_slot reply_timeout rounds = elim (patch_dump_request start_slot) [
  | err e ↦ some (err e)
  | ok first_request ↦
      dump_rounds (λ index. patch_dump_request (slot_at start_slot index)) is_patch_dump
        reply_timeout new_stats 1 rounds
]

-- `not (stats.rate < pass_percent or stats.sent == 0)`
abbrev pub passes : ℕ → ScenarioStats → Bool
passes pass_percent s = not (ltb (100 * s.ok_count) (pass_percent * s.sent) || s.sent == 0)

abbrev pub all_pass : ℕ → List ScenarioStats → Bool
all_pass pass_percent [] = true
all_pass pass_percent (s ∷ ss) = passes pass_percent s && all_pass pass_percent ss

-- The arguments and the recordings of `run_all_scenarios`
pub record Session : Type 0 where
  pub patch_fixture : Option Bytes
  pub master_fixture : Option Bytes
  pub include_dump : Bool
  pub include_push : Bool
  pub reply_timeout : ℕ
  pub pass_percent : ℕ
  pub patch_dumps : List DumpRound
  pub master_dumps : List DumpRound
  pub patch_pushes : List Bool
  pub master_pushes : List Bool

infixl 5 ◌>>◌
abbrev pub ◌>>◌ :
    Option (Result FrameError ScenarioStats)
    → (ScenarioStats → Option (Result FrameError (List ScenarioStats)))
    → Option (Result FrameError (List ScenarioStats))
none >> f = none
some (err e) >> f = some (err e)
some (ok s) >> f = f s

-- `_run_dump_pair`
unfoldable pub run_dump_pair : Session → Option (Result FrameError (List ScenarioStats))
unfolding run_dump_scenario
run_dump_pair x =
    run_dump_scenario patch_dump_request_all is_patch_dump x.reply_timeout x.patch_dumps >> λ patch.
    run_dump_scenario master_dump_request is_master_dump x.reply_timeout x.master_dumps >> λ master.
    some (ok (patch ∷ master ∷ []))

-- `_run_push_pair`
unfoldable pub run_push_pair : Session → Bytes → Bytes → List ScenarioStats
unfolding run_push_scenario
run_push_pair x patch master =
    run_push_scenario patch x.patch_pushes ∷ run_push_scenario master x.master_pushes ∷ []

abbrev pub stats_and_verdict :
    Session
    → Bytes
    → Bytes
    → Result FrameError (List ScenarioStats)
    → Result FrameError (List ScenarioStats × Bool)
stats_and_verdict x patch master (err e) = err e
stats_and_verdict x patch master (ok dumps) =
    let all_stats = dumps ++ (if x.include_push then run_push_pair x patch master else []) in
    ok (all_stats, all_pass x.pass_percent all_stats)

unfoldable pub run_all_scenarios : Session → Option (Result FrameError (List ScenarioStats × Bool))
unfolding run_dump_pair run_push_pair
run_all_scenarios x = elim (load_sysex_fixture x.patch_fixture patch_size) [
  | err e ↦ some (err e)
  | ok patch ↦ elim (load_sysex_fixture x.master_fixture master_size) [
    | err e ↦ some (err e)
    | ok master ↦ (if x.include_dump then run_dump_pair x else some (ok [])) >>= λ dumps.
        some (stats_and_verdict x patch master dumps)
  ]
]
