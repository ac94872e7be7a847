-- ===== src/Scenario/Bank.antt =====
-- The bank burst: its counters, and the slots that it asks for.
use unitor_win64_driver.Base.{
  ℕ, ◌+◌, ◌-◌, ◌%◌, ◌≤◌, ◌<◌, ◌≡◌, arith, List, [], ◌∷◌, some, Bytes, ok, length, All,
}
use unitor_win64_driver.Sysex.Frame.{patch_dump_request, is_patch_dump}
use unitor_win64_driver.Sysex.Frame.Laws.{patch_dump_request_lem}
use unitor_win64_driver.Scenario.{ScenarioStats, new_stats, DumpRound, slot_at, run_bank_burst}
use unitor_win64_driver.Scenario.Rounds.{
  IsRecorded, answered, IsSendable, Counts, Counts-Adds, dump_rounds-Adds,
}

abbrev pub request : ℕ → Bytes
request slot = 0xF0 ∷ 0x10 ∷ 0x06 ∷ 0x04 ∷ 0x01 ∷ slot ∷ 0xF7 ∷ []

request_is_made : (slot : ℕ) → slot < 0x80 → patch_dump_request slot ≡ ok (request slot)
unfolding patch_dump_request
request_is_made slot h = ground arith

slot_at-IsSendable :
    (start_slot index : ℕ) → IsSendable (patch_dump_request (slot_at start_slot index))
slot_at-IsSendable start_slot index =
    let made = request_is_made (slot_at start_slot index) (omega arith) in
    record {
      frame = request (slot_at start_slot index);
      payload = 0x10 ∷ 0x06 ∷ 0x04 ∷ 0x01 ∷ slot_at start_slot index ∷ [];
      is_request = made;
      is_sent = ((patch_dump_request_lem _ _).0 made).1;
    }

-- A bank burst from a slot below 80 hex, on a recording in which every wait sees its deadline,
-- returns: no request of it is refused. It counts every round as sent, and as good exactly those in
-- which a patch dump comes before the deadline.
pub run_bank_burst-Counts :
    (start_slot reply_timeout : ℕ) (ds : List DumpRound)
    → start_slot < 0x80
    → All (IsRecorded is_patch_dump reply_timeout) ds
    → (t : ScenarioStats) × (run_bank_burst start_slot reply_timeout ds ≡ some (ok t))
      × Counts t (length ds) (answered is_patch_dump reply_timeout ds)
unfolding run_bank_burst
run_bank_burst-Counts start_slot reply_timeout ds low h =
    let requests = λ (index : ℕ). patch_dump_request (slot_at start_slot index) in
    let (t, q, a) =
      dump_rounds-Adds requests is_patch_dump reply_timeout (slot_at-IsSendable start_slot)
        new_stats 1 ds h in
    (t, rw (request_is_made start_slot low, run_bank_burst) q, Counts-Adds a)

-- 128 requests in a row ask for each slot once: every slot has one index from 1 to 128, and only one.
pub slot_at_covers :
    (start_slot slot : ℕ)
    → slot < 0x80
    → (index : ℕ) × (1 ≤ index)
      × (index ≤ 0x80)
      × (slot_at start_slot index ≡ slot)
      × ((other : ℕ) → 1 ≤ other → other ≤ 0x80 → slot_at start_slot other ≡ slot → other ≡ index)
slot_at_covers start_slot slot h =
    let index = (slot + 0x80 - start_slot % 0x80) % 0x80 + 1 in
    (index, omega arith, omega arith, omega arith, λ other low high e. omega arith)
