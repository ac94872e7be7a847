-- ===== src/Tests/Stress.antt =====
-- The stress drivers: a run of one cycle, then the deadline.
use unitor_win64_driver.Base.{
  ℕ, ◌≡◌, refl, true, false, none, some, List, [], ◌∷◌, Text, codes, arith, All, is_space,
}
use unitor_win64_driver.Stress.{Label, mid, bank, long, exited, new_stats, CycleStats, Phase, Cycle}
use unitor_win64_driver.Stress.Combined
use unitor_win64_driver.Stress.Longevity
use unitor_win64_driver.Stress.Returns
use unitor_win64_driver.Stress.Returns.{Begins, Accounts, run_overnight-Accounts}
use unitor_win64_driver.Stress.Accepted.{Accepts, combined, phases, command, command-Accepts}
use unitor_win64_driver.Stress.Monitor
use unitor_win64_driver.Stress.Monitor.Run.{run_longevity-first_bad}

abbrev dir : ℕ → Label → Text
dir cycle label = codes "cycle"

abbrev args : Combined.Args
args = record {
  hours = 1000;
  fresh_starts = 3;
  mid_count = 40;
  bank_count = 5;
  long_count = 10;
  long_sizes = codes "64";
  long_interval = 250;
  long_reply_timeout = 8000;
  cycle_gap = 0;
  matrix_out = codes "A";
  matrix_in = codes "B";
  long_out = codes "C";
  long_in = codes "D";
}

abbrev phase : Label → Phase
phase label = record { ended = exited 0; clock = 700 }

abbrev first : Cycle
first = record { top = 10; started = 11; phase = phase; gap_hit = false }

abbrev last : Cycle
last = record { top = 1200; started = 1200; phase = phase; gap_hit = false }

-- A cycle whose second phase fails and ends behind the deadline
abbrev late_phase : Label → Phase
late_phase mid = record { ended = exited 0; clock = 900 }
late_phase bank = record { ended = exited 2; clock = 1100 }
late_phase long = record { ended = exited 0; clock = 1150 }

abbrev second : Cycle
second = record { top = 800; started = 801; phase = late_phase; gap_hit = false }

run_overnight-Accounts_example :
    (bs : List Cycle) × (m : ℕ) × (s : CycleStats) × (Combined.run_overnight dir args
        (codes "Bridge.exe")
        10
        (first ∷ second ∷ last ∷ [])
      ≡ some (m, s))
    × Begins 1010 0 (first ∷ second ∷ last ∷ []) bs
    × Accounts 1010 0 new_stats bs m s
run_overnight-Accounts_example =
    run_overnight-Accounts dir args (codes "Bridge.exe") 10 (first ∷ second ∷ last ∷ [])
      (Returns.later (Returns.later (Returns.now (omega arith))))

args-IsAccepted : Combined.main_refusal args ≡ none
unfolding Combined.main_refusal is_space
args-IsAccepted = refl

command-Accepts_example :
    All
      (λ label. Accepts label (command dir (combined args (codes "Bridge.exe")) 1 label))
      (phases (combined args (codes "Bridge.exe")))
command-Accepts_example = command-Accepts dir (combined args (codes "Bridge.exe")) 1 args-IsAccepted

abbrev longevity_args : Longevity.Args
longevity_args = record {
  hours = 1000;
  mid_count = 40;
  bank_count = 5;
  long_count = 10;
  long_sizes = codes "64";
  long_interval = 250;
  long_reply_timeout = 8000;
  cycle_gap = 0;
  matrix_out = codes "A";
  matrix_in = codes "B";
  long_out = codes "C";
  long_in = codes "D";
  bridge_ready_timeout = 45000;
}

abbrev failed : Label → Longevity.Phase
failed label = record {
  bridge_before = true;
  midisrv_before = true;
  ended = exited 1;
  bridge_after = true;
  midisrv_after = true;
  clock = 700;
}

abbrev watched : ℕ → Longevity.Cycle
watched t = record { top = t; started = t; phase = failed; gap_hit = false }

abbrev recording : List Longevity.Cycle
recording = watched 10 ∷ watched 1200 ∷ []

run_longevity-first_bad_example :
    Longevity.run_longevity dir longevity_args 10 recording true ≡ some (2, true)
run_longevity-first_bad_example =
    run_longevity-first_bad dir longevity_args 10 recording true
      (Monitor.later (Monitor.now (omega arith)))
