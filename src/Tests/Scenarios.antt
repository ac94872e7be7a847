-- ===== src/Tests/Scenarios.antt =====
-- Theorems of the scenarios and the bank burst at short recordings.
use unitor_win64_driver.Base.{
  ◌≡◌, refl, ◌↔◌, arith, Bool, true, false, some, List, [], ◌∷◌, Bytes, codes, ok, All,
}
use unitor_win64_driver.Midi.{Message}
use unitor_win64_driver.Sysex.Frame.{
  framed, is_patch_dump, load_sysex_fixture, patch_size, master_size,
}
use unitor_win64_driver.Sysex.Wait.Laws.{now, later}
use unitor_win64_driver.Sysex.Synthetic.{fill}
use unitor_win64_driver.Scenario.{DumpRound, Session, ScenarioStats, run_all_scenarios}
use unitor_win64_driver.Scenario.Rounds.{IsRecorded}
use unitor_win64_driver.Scenario.Verdict.{AreGood, run_all_scenarios-AreGood}

-- Fixtures of the right lengths
abbrev patch_body : Bytes
patch_body = 0x10 ∷ 0x06 ∷ 0x01 ∷ fill 0 270

abbrev master_body : Bytes
master_body = 0x10 ∷ 0x06 ∷ 0x03 ∷ fill 0 346

abbrev dump_message : Message
dump_message = record { kind = codes "sysex"; payload = patch_body; raw = [] }

-- A dump that comes, and one that does not
abbrev dumps : List DumpRound
dumps =
    record {
      started = 0;
      polls =
          record { now = 0; pending = dump_message ∷ []; stamp = 1 }
          ∷ record { now = 900; pending = []; stamp = 901 }
          ∷ [];
    }
    ∷ record { started = 0; polls = record { now = 900; pending = []; stamp = 901 } ∷ [] }
    ∷ []

dumps-IsRecorded : All (IsRecorded is_patch_dump 500) dumps
dumps-IsRecorded = (later (now (ground arith)), (now (ground arith), tt))

abbrev session : Session
session = record {
  patch_fixture = some (framed patch_body);
  master_fixture = some (framed master_body);
  include_dump = true;
  include_push = true;
  reply_timeout = 500;
  pass_percent = 50;
  patch_dumps = dumps;
  master_dumps = [];
  patch_pushes = false ∷ [];
  master_pushes = false ∷ [];
}

patch_loads : load_sysex_fixture session.patch_fixture patch_size ≡ ok (framed patch_body)
unfolding load_sysex_fixture fill
patch_loads = refl

master_loads : load_sysex_fixture session.master_fixture master_size ≡ ok (framed master_body)
unfolding load_sysex_fixture fill
master_loads = refl

run_all_scenarios-AreGood_example :
    (stats : List ScenarioStats) × (verdict : Bool) × (run_all_scenarios session
      ≡ some (ok (stats, verdict)))
    × ((verdict ≡ true) ↔ AreGood session (framed patch_body) (framed master_body))
run_all_scenarios-AreGood_example =
    run_all_scenarios-AreGood session (framed patch_body) (framed master_body) patch_loads
      master_loads refl refl dumps-IsRecorded tt
