-- ===== src/Stress/Monitor/Run.antt =====
-- The whole run as the monitor sees it.
use unitor_win64_driver.Base.{
  ℕ, ◌+◌, ◌-◌, ◌≡◌, refl, ap, ◌∙◌, Bool, true, false, Bool-cases, inl, inr, not, ◌&&◌, Option, some,
  List, [], ◌∷◌, ◌++◌, arith, Text, ltb,
}
use unitor_win64_driver.Options.{CommandLine}
use unitor_win64_driver.Stress.{Label, mid, bank, long}
use unitor_win64_driver.Stress.Longevity.{
  Args, child_command, CycleStats, new_stats, note, cycle_line, Cycle, should_stop, run_one_cycle,
  cycle_loop, run_longevity,
}
use unitor_win64_driver.Stress.Monitor.{
  Outcome, clean, ctrl_c, failure, cycle_outcomes, outcomes, first_bad, status_of, is_failure,
  Expires, now, later, IsGoing, Matches, should_stop-going, should_stop-halted, exit_code-Matches,
  first_bad-append, first_bad-append_bad, run_phases-Matches,
}

module _ (deadline gap : ℕ) (command : ℕ → Label → CommandLine) where
  run_one_cycle-Matches :
      (n : ℕ) (c : Cycle) (s : CycleStats)
      → IsGoing s
      → Matches
          (first_bad (cycle_outcomes deadline gap c (mid ∷ bank ∷ long ∷ [])))
          (run_one_cycle deadline gap command n c s)
  unfolding run_one_cycle
  run_one_cycle-Matches n c s g =
      run_phases-Matches deadline gap command n c (mid ∷ bank ∷ long ∷ [])
        (note (cycle_line n (deadline - c.started)) s) (ground (arith, g))

  -- The loop returns, and the counters are those that the outcome leaves.
  abbrev Returns : Outcome → Option (ℕ × CycleStats) → Type 0
  Returns o r = (n : ℕ) × (s : CycleStats) × (r ≡ some (n, s)) × Matches o s

  abbrev loop : ℕ → CycleStats → List Cycle → Option (ℕ × CycleStats)
  loop = cycle_loop deadline gap command

  cycle_loop-stops :
      (n : ℕ) (s : CycleStats) (c : Cycle) (cs : List Cycle) (o : Outcome)
      → should_stop deadline c.top s ≡ true
      → Matches o s
      → Returns o (loop n s (c ∷ cs))
  unfolding cycle_loop
  cycle_loop-stops n s c cs o h m = (n, s, rw h refl, m)

  cycle_loop-halted :
      (n : ℕ) (s : CycleStats) (cs : List Cycle) (o : Outcome)
      → Expires deadline cs
      → s.stopped ≡ true
      → Matches o s
      → Returns o (loop n s cs)
  cycle_loop-halted n s [] o e h m = elim e [ ]
  cycle_loop-halted n s (c ∷ cs) o e h m =
      cycle_loop-stops n s c cs o (should_stop-halted deadline c.top s h) m

  -- The rest of the run behind a cycle whose outcome is `o`
  behind :
      (o : Outcome) (xs ys : List Outcome) (n : ℕ) (s : CycleStats) (cs : List Cycle)
      → first_bad xs ≡ o
      → Matches o s
      → Expires deadline cs
      → (IsGoing s → Returns (first_bad ys) (loop n s cs))
      → Returns (first_bad (xs ++ ys)) (loop n s cs)
  behind clean xs ys n s cs h m e more = rw (first_bad-append xs ys h) (more m)
  behind ctrl_c xs ys n s cs h m e more =
      rw (first_bad-append_bad xs ys (λ q. cc), h) (cycle_loop-halted n s cs ctrl_c e m.0 m)
  behind failure xs ys n s cs h m e more =
      rw (first_bad-append_bad xs ys (λ q. cc), h) (cycle_loop-halted n s cs failure e m.0 m)

  cycle_loop-goes :
      (n : ℕ) (s : CycleStats) (c : Cycle) (cs : List Cycle)
      → should_stop deadline c.top s ≡ false
      → loop n s (c ∷ cs) ≡ loop (n + 1) (run_one_cycle deadline gap command (n + 1) c s) cs
  unfolding cycle_loop
  cycle_loop-goes n s c cs h = rw h refl

  outcomes_past :
      (c : Cycle) (cs : List Cycle)
      → ltb c.top deadline ≡ false
      → outcomes deadline gap (c ∷ cs) ≡ []
  outcomes_past c cs h = rw h refl

  outcomes_before :
      (c : Cycle) (cs : List Cycle)
      → ltb c.top deadline ≡ true
      → outcomes deadline gap (c ∷ cs)
        ≡ cycle_outcomes deadline gap c (mid ∷ bank ∷ long ∷ []) ++ outcomes deadline gap cs
  outcomes_before c cs h = rw h refl

  cycle_loop-past :
      (n : ℕ) (s : CycleStats) (c : Cycle) (cs : List Cycle)
      → IsGoing s
      → ltb c.top deadline ≡ false
      → Returns (first_bad (outcomes deadline gap (c ∷ cs))) (loop n s (c ∷ cs))
  cycle_loop-past n s c cs g t =
      let q : should_stop deadline c.top s ≡ true =
        should_stop-going deadline c.top s g ∙ ap not t in
      rw (outcomes_past c cs t) (cycle_loop-stops n s c cs clean q g)

  cycle_loop-Returns :
      (n : ℕ) (s : CycleStats) (cs : List Cycle)
      → IsGoing s
      → Expires deadline cs
      → Returns (first_bad (outcomes deadline gap cs)) (loop n s cs)
  cycle_loop-Returns n s [] g e = elim e [ ]
  cycle_loop-Returns n s (c ∷ cs) g (now h) = cycle_loop-past n s c cs g (ground arith)
  cycle_loop-Returns n s (c ∷ cs) g (later e) = elim (Bool-cases (ltb c.top deadline)) [
    | inr t ↦ cycle_loop-past n s c cs g t
    | inl t ↦
        let q : should_stop deadline c.top s ≡ false =
          should_stop-going deadline c.top s g ∙ ap not t in
        let s' = run_one_cycle deadline gap command (n + 1) c s in
        rw (outcomes_before c cs t, cycle_loop-goes n s c cs q)
          (behind _ (cycle_outcomes deadline gap c (mid ∷ bank ∷ long ∷ []))
            (outcomes deadline gap cs) (n + 1) s' cs refl (run_one_cycle-Matches (n + 1) c s g) e
            (λ g'. cycle_loop-Returns (n + 1) s' cs g' e))
  ]

-- If some test of the loop comes at or after the deadline, the run ends. Its status is that of the
-- first phase or gap before the deadline that is not clean: 130 for Ctrl+C, 2 for a failure, 0 if
-- all are clean. The bridge is left up exactly after a failure that it has survived.
pub run_longevity-first_bad :
    (dir : ℕ → Label → Text) (args : Args) (start : ℕ) (cycles : List Cycle) (alive : Bool)
    → Expires (start + args.hours) cycles
    → let o = first_bad (outcomes (start + args.hours) args.cycle_gap cycles) in
      run_longevity dir args start cycles alive ≡ some (status_of o, is_failure o && alive)
unfolding run_longevity
run_longevity-first_bad dir args start cycles alive e =
    let (n, s, r, m) =
      cycle_loop-Returns (start + args.hours) args.cycle_gap (child_command dir args) 0 new_stats
        cycles
        (record { not_stopped = refl; not_aborted = refl; mids = refl; banks = refl; longs = refl })
        e in
    let x =
      exit_code-Matches (first_bad (outcomes (start + args.hours) args.cycle_gap cycles)) s alive
        m in
    rw (r, x.0, x.1) refl
