-- ===== src/Stress/Returns.antt =====
-- An overnight run ends, and its counters are those of the cycles that it has begun.
use unitor_win64_driver.Base.{
  ℕ, ◌+◌, ◌≤◌, ◌<◌, ◌≡◌, refl, ◌∙◌, inl, inr, Bool, true, false, Bool-cases, Option, some, List, [],
  ◌∷◌, arith, Text, ltb, length,
}
use unitor_win64_driver.Options.{CommandLine}
use unitor_win64_driver.Stress.Combined
use unitor_win64_driver.Stress.{
  new_stats, Label, ChildEnd, CycleStats, should_stop, Cycle, run_one_cycle, cycle_loop,
}
use unitor_win64_driver.Stress.Accounts.{
  all_phases, passes, fails, passed_of, failed_of, started, breaks_off, how_many, Adds,
  run_one_cycle-Adds, should_stop_tests,
}

-- Some test of the loop comes at or after the deadline.
pub data Expires (deadline : ℕ) : List Cycle → Type 0 where
  now : {c : Cycle} {cs : List Cycle} → deadline ≤ c.top → Expires deadline (c ∷ cs)
  later : {c : Cycle} {cs : List Cycle} → Expires deadline cs → Expires deadline (c ∷ cs)

-- The cycles of a recording that are begun: those before the first test of the loop that comes at or
-- after the deadline, and none behind a cycle that Ctrl+C breaks off
pub data Begins (deadline gap : ℕ) : List Cycle → List Cycle → Type 0 where
  over : {c : Cycle} {cs : List Cycle} → deadline ≤ c.top → Begins deadline gap (c ∷ cs) []
  broken :
      {c d : Cycle} {cs : List Cycle}
      → c.top < deadline
      → breaks_off deadline gap c all_phases ≡ true
      → Begins deadline gap (c ∷ (d ∷ cs)) (c ∷ [])
  begun :
      {c : Cycle} {cs bs : List Cycle}
      → c.top < deadline
      → breaks_off deadline gap c all_phases ≡ false
      → Begins deadline gap cs bs
      → Begins deadline gap (c ∷ cs) (c ∷ bs)

-- How many phases of this label end so in these cycles
abbrev pub total : ℕ → (ChildEnd → Bool) → Label → List Cycle → ℕ
total deadline ends l [] = 0
total deadline ends l (c ∷ cs) =
    how_many ends l c (started deadline c all_phases) + total deadline ends l cs

-- `n` cycles and the counters of `s` before these, `m` cycles and those of `t` behind them
pub record Accounts (deadline : ℕ) (n : ℕ) (s : CycleStats) (begun : List Cycle) (m : ℕ)
    (t : CycleStats) : Type 0 where
  pub cycles : m ≡ n + length begun
  pub passed : (l : Label) → passed_of l t ≡ passed_of l s + total deadline passes l begun
  pub failed : (l : Label) → failed_of l t ≡ failed_of l s + total deadline fails l begun

module _ (deadline gap : ℕ) (command : ℕ → Label → CommandLine) where
  abbrev loop : ℕ → CycleStats → List Cycle → Option (ℕ × CycleStats)
  loop = cycle_loop deadline gap command all_phases

  abbrev Returns : ℕ → CycleStats → List Cycle → Type 0
  Returns n s cs =
      (bs : List Cycle) × (m : ℕ) × (t : CycleStats) × (loop n s cs ≡ some (m, t))
      × Begins deadline gap cs bs
      × Accounts deadline n s bs m t

  cycle_loop-stops :
      (n : ℕ) (s : CycleStats) (c : Cycle) (cs : List Cycle)
      → should_stop deadline c.top s ≡ true
      → loop n s (c ∷ cs) ≡ some (n, s)
  unfolding cycle_loop
  cycle_loop-stops n s c cs h = rw h refl

  cycle_loop-over :
      (n : ℕ) (s : CycleStats) (c : Cycle) (cs : List Cycle)
      → deadline ≤ c.top
      → Returns n s (c ∷ cs)
  cycle_loop-over n s c cs h = (
    [],
    n,
    s,
    cycle_loop-stops n s c cs (should_stop_tests deadline c.top s ∙ ground (arith, h)),
    over h,
    record { cycles = omega arith; passed = λ l. omega arith; failed = λ l. omega arith },
  )

  module _ (n : ℕ) (s : CycleStats) (c : Cycle) (going : s.stopped ≡ false)
      (early : c.top < deadline) where
    abbrev after : CycleStats
    after = run_one_cycle deadline gap command all_phases (n + 1) c s

    after-Adds : Adds deadline gap command c s all_phases after
    after-Adds = run_one_cycle-Adds deadline gap command c (n + 1) all_phases s going

    cycle_loop-goes : (cs : List Cycle) → loop n s (c ∷ cs) ≡ loop (n + 1) after cs
    unfolding cycle_loop
    cycle_loop-goes cs =
        let h : should_stop deadline c.top s ≡ false =
          should_stop_tests deadline c.top s ∙ ground (arith, going, early) in
        rw h refl

    cycle_loop-broken :
        (cs : List Cycle)
        → Expires deadline cs
        → breaks_off deadline gap c all_phases ≡ true
        → Returns n s (c ∷ cs)
    cycle_loop-broken [] e b = elim e [ ]
    cycle_loop-broken (d ∷ cs) e b =
        let a = after-Adds in
        let h : should_stop deadline d.top after ≡ true =
          should_stop_tests deadline d.top after ∙ ground (arith, a.halted, b) in
        (
          c ∷ [],
          n + 1,
          after,
          cycle_loop-goes (d ∷ cs) ∙ cycle_loop-stops (n + 1) after d cs h,
          broken early b,
          record {
            cycles = omega arith;
            passed = λ l. omega (arith, a.passed l);
            failed = λ l. omega (arith, a.failed l);
          },
        )

    cycle_loop-begun :
        (cs : List Cycle)
        → breaks_off deadline gap c all_phases ≡ false
        → Returns (n + 1) after cs
        → Returns n s (c ∷ cs)
    cycle_loop-begun cs b (bs, m, t, q, g, r) =
        let a = after-Adds in
        (
          c ∷ bs,
          m,
          t,
          cycle_loop-goes cs ∙ q,
          begun early b g,
          record {
            cycles = omega (arith, r.cycles);
            passed = λ l. omega (arith, a.passed l, r.passed l);
            failed = λ l. omega (arith, a.failed l, r.failed l);
          },
        )

  cycle_loop-Returns :
      (n : ℕ) (s : CycleStats) (cs : List Cycle)
      → s.stopped ≡ false
      → Expires deadline cs
      → Returns n s cs
  cycle_loop-Returns n s [] going e = elim e [ ]
  cycle_loop-Returns n s (c ∷ cs) going (now h) = cycle_loop-over n s c cs h
  cycle_loop-Returns n s (c ∷ cs) going (later e) = elim (Bool-cases (ltb c.top deadline)) [
    | inr f ↦ cycle_loop-over n s c cs (ground arith)
    | inl t ↦
        let early : c.top < deadline = ground arith in
        elim (Bool-cases (breaks_off deadline gap c all_phases)) [
          | inl b ↦ cycle_loop-broken n s c going early cs e b
          | inr b ↦
              cycle_loop-begun n s c going early cs b
                (cycle_loop-Returns (n + 1) _ cs ((after-Adds n s c going early).halted ∙ b) e)
        ]
  ]

-- An overnight run on a recording in which some test of the loop comes at or after the deadline ends.
-- It begins the cycles before the first such test, but none behind one that Ctrl+C breaks off. In a
-- cycle a phase is started only if the one before it was not hit by Ctrl+C and was over before the
-- deadline. The number of cycles is that of the cycles begun, and for each label the counters are the
-- numbers of the started phases that gave 0, and of those that ended otherwise and not by Ctrl+C.
pub run_overnight-Accounts :
    (dir : ℕ → Label → Text) (args : Combined.Args) (bridge : Text) (start : ℕ)
    (cycles : List Cycle)
    → Expires (start + args.hours) cycles
    → (bs : List Cycle) × (m : ℕ) × (s : CycleStats) × (Combined.run_overnight dir args bridge start
          cycles
        ≡ some (m, s))
      × Begins (start + args.hours) args.cycle_gap cycles bs
      × Accounts (start + args.hours) 0 new_stats bs m s
unfolding Combined.run_overnight
run_overnight-Accounts dir args bridge start cycles e =
    cycle_loop-Returns (start + args.hours) args.cycle_gap (Combined.child_command dir args bridge)
      0 new_stats cycles refl e
