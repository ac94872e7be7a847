-- ===== src/Scenario/Verdict.antt =====
-- When all scenarios of a session pass.
use unitor_win64_driver.Base.{
  ℕ, ◌*◌, ◌≤◌, ◌≡◌, refl, ◌↔◌, arith, Bool, true, ◌&&◌, List, [], ◌∷◌, some, Bytes, ok, length, All,
}
use unitor_win64_driver.Sysex.Frame.{
  send_sysex, load_sysex_fixture, patch_size, master_size, is_patch_dump, is_master_dump,
  patch_dump_request_all, master_dump_request,
}
use unitor_win64_driver.Scenario.{
  ScenarioStats, run_push_scenario, passes, all_pass, Session, run_dump_pair, run_all_scenarios,
}
use unitor_win64_driver.Scenario.Rounds.{
  IsRecorded, answered, pushed, Counts, run_push_scenario-Counts, run_dump_scenario-Counts,
}

-- Enough of the rounds are good, and there are any.
abbrev pub IsGood : ℕ → ℕ → ℕ → Type 0
IsGood pass_percent rounds good = (1 ≤ rounds) × (pass_percent * rounds ≤ 100 * good)

passes-IsGood :
    (pass_percent : ℕ) {t : ScenarioStats} {rounds good : ℕ}
    → Counts t rounds good
    → (passes pass_percent t ≡ true) ↔ IsGood pass_percent rounds good
passes-IsGood p {t} {rounds} {good} c =
    let sent : t.sent ≡ rounds = c.all_sent in
    let good_ : t.ok_count ≡ good = c.all_good in
    rw (sent, good_) (λ h. ground arith, λ h. ground arith)

-- All four scenarios are good.
abbrev pub AreGood : Session → Bytes → Bytes → Type 0
AreGood x patch master =
    IsGood x.pass_percent (length x.patch_dumps)
      (answered is_patch_dump x.reply_timeout x.patch_dumps)
    × IsGood x.pass_percent (length x.master_dumps)
        (answered is_master_dump x.reply_timeout x.master_dumps)
    × IsGood x.pass_percent (length x.patch_pushes) (pushed patch x.patch_pushes)
    × IsGood x.pass_percent (length x.master_pushes) (pushed master x.master_pushes)

all_pass_iff :
    (p : ℕ) (a b c d : ScenarioStats)
    → (all_pass p (a ∷ b ∷ c ∷ d ∷ []) ≡ true)
      ↔ ((passes p a ≡ true) × (passes p b ≡ true) × (passes p c ≡ true) × (passes p d ≡ true))
all_pass_iff p a b c d = all_true (passes p a) (passes p b) (passes p c) (passes p d)
  where
    all_true :
        (a b c d : Bool)
        → ((a && (b && (c && (d && true)))) ≡ true)
          ↔ ((a ≡ true) × (b ≡ true) × (c ≡ true) × (d ≡ true))
    all_true a b c d = (λ h. ground arith, λ h. ground arith)

-- A session with dumps and pushes whose fixtures load, on a recording in which every wait sees its
-- deadline, returns. It passes exactly when each of its four scenarios has rounds, and as many good
-- ones as the percentage asks: dumps that arrive in time, and pushes that go out.
pub run_all_scenarios-AreGood :
    (x : Session) (patch master : Bytes)
    → load_sysex_fixture x.patch_fixture patch_size ≡ ok patch
    → load_sysex_fixture x.master_fixture master_size ≡ ok master
    → x.include_dump ≡ true
    → x.include_push ≡ true
    → All (IsRecorded is_patch_dump x.reply_timeout) x.patch_dumps
    → All (IsRecorded is_master_dump x.reply_timeout) x.master_dumps
    → (stats : List ScenarioStats) × (verdict : Bool) × (run_all_scenarios x
        ≡ some (ok (stats, verdict)))
      × ((verdict ≡ true) ↔ AreGood x patch master)
unfolding run_all_scenarios send_sysex
run_all_scenarios-AreGood x patch master l m dump push h k =
    let (a, q, ca) =
      run_dump_scenario-Counts patch_dump_request_all (0x10 ∷ 0x06 ∷ 0x04 ∷ 0x01 ∷ 0x00 ∷ [])
        is_patch_dump x.reply_timeout x.patch_dumps refl h in
    let (b, q', cb) =
      run_dump_scenario-Counts master_dump_request (0x10 ∷ 0x06 ∷ 0x04 ∷ 0x03 ∷ 0x00 ∷ [])
        is_master_dump x.reply_timeout x.master_dumps refl k in
    let c = run_push_scenario patch x.patch_pushes in
    let d = run_push_scenario master x.master_pushes in
    let cc_ = run_push_scenario-Counts patch x.patch_pushes in
    let cd = run_push_scenario-Counts master x.master_pushes in
    let p = x.pass_percent in
    let pair : run_dump_pair x ≡ some (ok (a ∷ b ∷ [])) = unfold run_dump_pair in rw (q, q') refl in
    let iff = all_pass_iff p a b c d in
    (
      a ∷ b ∷ c ∷ d ∷ [],
      all_pass p (a ∷ b ∷ c ∷ d ∷ []),
      rw (l, run_all_scenarios) (rw (m, run_all_scenarios) (rw (dump, pair, push) refl)),
      (
        λ t.
            let (ta, tb, tc, td) = iff.0 t in
            (
              (passes-IsGood p ca).0 ta,
              (passes-IsGood p cb).0 tb,
              (passes-IsGood p cc_).0 tc,
              (passes-IsGood p cd).0 td,
            ),
        λ (ga, gb, gc, gd). iff.1 (
          (passes-IsGood p ca).1 ga,
          (passes-IsGood p cb).1 gb,
          (passes-IsGood p cc_).1 gc,
          (passes-IsGood p cd).1 gd,
        ),
      ),
    )
