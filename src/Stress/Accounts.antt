-- ===== src/Stress/Accounts.antt =====
-- What one cycle of an overnight run adds to the counters, and whether Ctrl+C comes in it.
use unitor_win64_driver.Base.{
  ℕ, ◌+◌, ◌-◌, ◌≡◌, refl, ◌∙◌, Bool, true, false, ◌&&◌, ◌||◌, not, Bool-cases, inl, inr, List, [],
  ◌∷◌, arith, ltb, ◌==◌, if◌then◌else◌,
}
use unitor_win64_driver.Options.{CommandLine}
use unitor_win64_driver.Stress.{
  Label, mid, bank, long, ChildEnd, exited, killed, interrupted, CycleStats, note, cycle_line,
  should_stop, run_labeled_child, run_cycle_gap, Cycle, run_phases, run_one_cycle,
}

abbrev pub same : Label → Label → Bool
same mid mid = true
same bank bank = true
same long long = true
same _ _ = false

abbrev pub is_interrupted : ChildEnd → Bool
is_interrupted (exited code) = false
is_interrupted (killed signal) = false
is_interrupted interrupted = true

-- A child passes with the status 0, and fails with any other and by a signal.
abbrev pub passes : ChildEnd → Bool
passes (exited code) = code == 0
passes (killed signal) = false
passes interrupted = false

abbrev pub fails : ChildEnd → Bool
fails (exited code) = not (code == 0)
fails (killed signal) = true
fails interrupted = false

abbrev pub passed_of : Label → CycleStats → ℕ
passed_of mid s = s.mid_ok
passed_of bank s = s.bank_ok
passed_of long s = s.long_ok

abbrev pub failed_of : Label → CycleStats → ℕ
failed_of mid s = s.mid_fail
failed_of bank s = s.bank_fail
failed_of long s = s.long_fail

abbrev pub all_phases : List Label
all_phases = mid ∷ bank ∷ long ∷ []

-- The phases that are started in a cycle: the first, and each one behind a phase that Ctrl+C does
-- not hit and that is over before the deadline
abbrev pub started : ℕ → Cycle → List Label → List Label
started deadline c [] = []
started deadline c (l ∷ ls) =
    let rest = started deadline c ls in
    let goes_on = not (is_interrupted (c.phase l).ended) && ltb (c.phase l).clock deadline in
    l ∷ (if goes_on then rest else [])

-- Ctrl+C comes in a phase that is started, or in the gap behind the last.
abbrev pub breaks_off : ℕ → ℕ → Cycle → List Label → Bool
breaks_off deadline gap c [] = ltb 0 gap && c.gap_hit
breaks_off deadline gap c (l ∷ ls) =
    is_interrupted (c.phase l).ended
    || (ltb (c.phase l).clock deadline && breaks_off deadline gap c ls)

-- How many of these phases have this label and end so
abbrev pub how_many : (ChildEnd → Bool) → Label → Cycle → List Label → ℕ
how_many ends l c [] = 0
how_many ends l c (m ∷ ms) =
    (if same l m && ends (c.phase m).ended then 1 else 0) + how_many ends l c ms

abbrev added : Bool → Bool → ℕ
added a b = if a && b then 1 else 0

passed_of-child :
    (cycle : ℕ) (m : Label) (command : CommandLine) (e : ChildEnd) (s : CycleStats) (l : Label)
    → s.stopped ≡ false
    → passed_of l (run_labeled_child cycle m command e s)
      ≡ passed_of l s + added (same l m) (passes e)
unfolding run_labeled_child
passed_of-child cycle m command e s l h = ground arith

failed_of-child :
    (cycle : ℕ) (m : Label) (command : CommandLine) (e : ChildEnd) (s : CycleStats) (l : Label)
    → s.stopped ≡ false
    → failed_of l (run_labeled_child cycle m command e s)
      ≡ failed_of l s + added (same l m) (fails e)
unfolding run_labeled_child
failed_of-child cycle m command e s l h = ground arith

stopped-child :
    (cycle : ℕ) (m : Label) (command : CommandLine) (e : ChildEnd) (s : CycleStats)
    → s.stopped ≡ false
    → (run_labeled_child cycle m command e s).stopped ≡ is_interrupted e
unfolding run_labeled_child
stopped-child cycle m command e s h = ground arith

run_cycle_gap-counters :
    (gap : ℕ) (hit : Bool) (s : CycleStats) (l : Label)
    → (passed_of l (run_cycle_gap gap hit s) ≡ passed_of l s)
      × (failed_of l (run_cycle_gap gap hit s) ≡ failed_of l s)
unfolding run_cycle_gap
run_cycle_gap-counters gap hit s l = ground arith

run_cycle_gap-stopped :
    (gap : ℕ) (hit : Bool) (s : CycleStats)
    → s.stopped ≡ false
    → (run_cycle_gap gap hit s).stopped ≡ (ltb 0 gap && hit)
unfolding run_cycle_gap
run_cycle_gap-stopped gap hit s h = ground arith

pub should_stop_tests :
    (deadline now : ℕ) (s : CycleStats)
    → should_stop deadline now s ≡ (not (ltb now deadline) || s.stopped)
unfolding should_stop
should_stop_tests deadline now s = refl

module _ (deadline gap : ℕ) (command : ℕ → Label → CommandLine) (c : Cycle) where
  -- What the phases of a list add, behind `s`
  pub record Adds (s : CycleStats) (labels : List Label) (t : CycleStats) : Type 0 where
    pub passed :
        (l : Label)
        → passed_of l t ≡ passed_of l s + how_many passes l c (started deadline c labels)
    pub failed :
        (l : Label) → failed_of l t ≡ failed_of l s + how_many fails l c (started deadline c labels)
    pub halted : t.stopped ≡ breaks_off deadline gap c labels

  -- The test behind a phase that leaves `s'`
  tested :
      (m : Label) (ms : List Label) (s s' u : CycleStats)
      → ((l : Label) → passed_of l s' ≡ passed_of l s + added (same l m) (passes (c.phase m).ended))
      → ((l : Label) → failed_of l s' ≡ failed_of l s + added (same l m) (fails (c.phase m).ended))
      → s'.stopped ≡ is_interrupted (c.phase m).ended
      → (s'.stopped ≡ false → Adds s' ms u)
      → Adds s (m ∷ ms) (if should_stop deadline (c.phase m).clock s' then s' else u)
  tested m ms s s' u pass fail stopped rest = elim (Bool-cases (is_interrupted (c.phase m).ended)) [
    | inl t ↦ rw (should_stop_tests deadline (c.phase m).clock s') (record {
      passed = λ l. ground (arith, pass l);
      failed = λ l. ground (arith, fail l);
      halted = ground arith;
    })
    | inr f ↦ elim (Bool-cases (ltb (c.phase m).clock deadline)) [
      | inr late ↦ rw (should_stop_tests deadline (c.phase m).clock s') (record {
        passed = λ l. ground (arith, pass l);
        failed = λ l. ground (arith, fail l);
        halted = ground arith;
      })
      | inl early ↦
          let r = rest (stopped ∙ f) in
          rw (should_stop_tests deadline (c.phase m).clock s') (record {
            passed = λ l. ground (arith, pass l, r.passed l);
            failed = λ l. ground (arith, fail l, r.failed l);
            halted = ground (arith, r.halted);
          })
    ]
  ]

  run_phases-Adds :
      (n : ℕ) (labels : List Label) (s : CycleStats)
      → s.stopped ≡ false
      → Adds s labels (run_phases deadline gap command n c labels s)
  unfolding run_phases
  run_phases-Adds n [] s h = record {
    passed = λ l. omega (arith, (run_cycle_gap-counters gap c.gap_hit s l).0);
    failed = λ l. omega (arith, (run_cycle_gap-counters gap c.gap_hit s l).1);
    halted = run_cycle_gap-stopped gap c.gap_hit s h;
  }
  run_phases-Adds n (m ∷ ms) s h =
      let child = run_labeled_child n m (command n m) (c.phase m).ended in
      tested m ms s (child s) (run_phases deadline gap command n c ms (child s))
        (λ l. passed_of-child n m (command n m) (c.phase m).ended s l h)
        (λ l. failed_of-child n m (command n m) (c.phase m).ended s l h)
        (stopped-child n m (command n m) (c.phase m).ended s h) (run_phases-Adds n ms (child s))

  pub run_one_cycle-Adds :
      (n : ℕ) (labels : List Label) (s : CycleStats)
      → s.stopped ≡ false
      → Adds s labels (run_one_cycle deadline gap command labels n c s)
  unfolding run_one_cycle
  run_one_cycle-Adds n labels s h =
      let a = run_phases-Adds n labels (note (cycle_line n (deadline - c.started)) s) h in
      record {
        passed = λ l. ground (arith, a.passed l);
        failed = λ l. ground (arith, a.failed l);
        halted = a.halted;
      }
