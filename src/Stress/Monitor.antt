-- ===== src/Stress/Monitor.antt =====
-- The longevity run as a monitor: what happens first decides its exit status.
pub mod Run
use unitor_win64_driver.Base.{
  ℕ, ◌+◌, ◌-◌, ◌≤◌, ◌≡◌, ◌≢◌, refl, ap, ◌∙◌, Bool, true, false, Bool-cases, inl, inr, not, ◌&&◌,
  Option, none, some, List, [], ◌∷◌, ◌++◌, arith, Text, ltb, ◌==◌, if◌then◌else◌, ◌>>=◌,
}
use unitor_win64_driver.Options.{CommandLine}
use unitor_win64_driver.Stress.{
  Label, mid, bank, long, ChildEnd, exited, killed, interrupted, is_zero,
}
use unitor_win64_driver.Stress.Longevity.{
  Args, child_command, CycleStats, new_stats, note, cycle_line, Phase, Cycle, run_labeled_child,
  run_cycle_gap, should_stop, run_phases, run_one_cycle, cycle_loop, exit_code, leaves_bridge_up,
  run_longevity,
}

-- What one phase or one gap comes to
pub data Outcome : Type 0 where
  clean ctrl_c failure : Outcome

-- A phase is clean if the bridge and the service live before and after a child that exits with 0.
-- It is ended by Ctrl+C where that hits the child. Anything else is a failure.
abbrev pub phase_outcome : Phase → Outcome
phase_outcome p =
    let ending : Outcome = elim p.ended [
      | interrupted ↦ ctrl_c
      | exited code ↦ if code == 0 && p.bridge_after && p.midisrv_after then clean else failure
      | killed signal ↦ failure
    ] in
    if p.bridge_before && p.midisrv_before then ending else failure

abbrev pub gap_outcome : ℕ → Bool → Outcome
gap_outcome gap hit = if ltb 0 gap && hit then ctrl_c else clean

-- What comes before the deadline in one cycle, if nothing ends the run before
abbrev pub cycle_outcomes : ℕ → ℕ → Cycle → List Label → List Outcome
cycle_outcomes deadline gap c [] = gap_outcome gap c.gap_hit ∷ []
cycle_outcomes deadline gap c (label ∷ labels) =
    let rest = cycle_outcomes deadline gap c labels in
    phase_outcome (c.phase label) ∷ (if ltb (c.phase label).clock deadline then rest else [])

abbrev pub outcomes : ℕ → ℕ → List Cycle → List Outcome
outcomes deadline gap [] = []
outcomes deadline gap (c ∷ cs) =
    let rest = outcomes deadline gap cs in
    if ltb c.top deadline
    then cycle_outcomes deadline gap c (mid ∷ bank ∷ long ∷ []) ++ rest
    else []

-- The first outcome that is not clean
abbrev pub first_bad : List Outcome → Outcome
first_bad [] = clean
first_bad (clean ∷ os) = first_bad os
first_bad (ctrl_c ∷ os) = ctrl_c
first_bad (failure ∷ os) = failure

abbrev pub status_of : Outcome → ℕ
status_of clean = 0
status_of ctrl_c = 130
status_of failure = 2

abbrev pub is_failure : Outcome → Bool
is_failure clean = false
is_failure ctrl_c = false
is_failure failure = true

-- Some test of the loop comes at or after the deadline.
pub data Expires (deadline : ℕ) : List Cycle → Type 0 where
  now : {c : Cycle} {cs : List Cycle} → deadline ≤ c.top → Expires deadline (c ∷ cs)
  later : {c : Cycle} {cs : List Cycle} → Expires deadline cs → Expires deadline (c ∷ cs)

pub record IsGoing (s : CycleStats) : Type 0 where
  pub not_stopped : s.stopped ≡ false
  pub not_aborted : s.aborted ≡ false
  pub mids : s.mid_fail ≡ 0
  pub banks : s.bank_fail ≡ 0
  pub longs : s.long_fail ≡ 0

-- The state that an outcome leaves
abbrev pub Matches : Outcome → CycleStats → Type 0
Matches clean s = IsGoing s
Matches ctrl_c s = (s.stopped ≡ true) × (s.aborted ≡ false)
Matches failure s = (s.stopped ≡ true) × (s.aborted ≡ true)

pub run_labeled_child-Matches :
    (cycle : ℕ) (label : Label) (command : CommandLine) (p : Phase) (s : CycleStats)
    → IsGoing s
    → Matches (phase_outcome p) (run_labeled_child cycle label command p s)
unfolding run_labeled_child
run_labeled_child-Matches cycle mid command p s g = ground arith
run_labeled_child-Matches cycle bank command p s g = ground arith
run_labeled_child-Matches cycle long command p s g = ground arith

run_cycle_gap-Matches :
    (gap : ℕ) (hit : Bool) (s : CycleStats)
    → IsGoing s
    → Matches (gap_outcome gap hit) (run_cycle_gap gap hit s)
unfolding run_cycle_gap
run_cycle_gap-Matches gap hit s g = ground arith

pub should_stop-going :
    (deadline t : ℕ) (s : CycleStats) → IsGoing s → should_stop deadline t s ≡ not (ltb t deadline)
unfolding should_stop
should_stop-going deadline t s g = ground arith

pub should_stop-halted :
    (deadline t : ℕ) (s : CycleStats) → s.stopped ≡ true → should_stop deadline t s ≡ true
unfolding should_stop
should_stop-halted deadline t s h = ground arith

pub exit_code-Matches :
    (o : Outcome) (s : CycleStats) (alive : Bool)
    → Matches o s
    → (exit_code s ≡ status_of o) × (leaves_bridge_up alive s ≡ (is_failure o && alive))
unfolding exit_code leaves_bridge_up
exit_code-Matches clean s alive g = ground arith
exit_code-Matches ctrl_c s alive g = ground arith
exit_code-Matches failure s alive g = ground arith

first_bad-one : (o : Outcome) → first_bad (o ∷ []) ≡ o
first_bad-one clean = refl
first_bad-one ctrl_c = refl
first_bad-one failure = refl

pub first_bad-append :
    (xs ys : List Outcome) → first_bad xs ≡ clean → first_bad (xs ++ ys) ≡ first_bad ys
first_bad-append [] ys h = refl
first_bad-append (clean ∷ xs) ys h = first_bad-append xs ys h
first_bad-append (ctrl_c ∷ xs) ys h = cc
first_bad-append (failure ∷ xs) ys h = cc

pub first_bad-append_bad :
    (xs ys : List Outcome) → first_bad xs ≢ clean → first_bad (xs ++ ys) ≡ first_bad xs
first_bad-append_bad [] ys h = absurd (h refl)
first_bad-append_bad (clean ∷ xs) ys h = first_bad-append_bad xs ys h
first_bad-append_bad (ctrl_c ∷ xs) ys h = refl
first_bad-append_bad (failure ∷ xs) ys h = refl

module _ (deadline gap : ℕ) (command : ℕ → Label → CommandLine) where
  pub run_phases-Matches :
      (n : ℕ) (c : Cycle) (labels : List Label) (s : CycleStats)
      → IsGoing s
      → Matches
          (first_bad (cycle_outcomes deadline gap c labels))
          (run_phases deadline gap command n c labels s)
  unfolding run_phases
  run_phases-Matches n c [] s g =
      rw (first_bad-one (gap_outcome gap c.gap_hit)) (run_cycle_gap-Matches gap c.gap_hit s g)
  run_phases-Matches n c (label ∷ labels) s g =
      tested (phase_outcome (c.phase label))
        (run_labeled_child n label (command n label) (c.phase label) s)
        (run_labeled_child-Matches n label (command n label) (c.phase label) s g)
        (λ t h. run_phases-Matches n c labels t h)
    where
      tested :
          (o : Outcome) (t : CycleStats)
          → Matches o t
          → ((u : CycleStats)
              → IsGoing u
              → Matches
                  (first_bad (cycle_outcomes deadline gap c labels))
                  (run_phases deadline gap command n c labels u))
          → Matches
              (first_bad (
                o
                ∷ (if ltb (c.phase label).clock deadline
                    then cycle_outcomes deadline gap c labels
                    else [])))
              (if should_stop deadline (c.phase label).clock t
                then t
                else run_phases deadline gap command n c labels t)
      tested clean t h ih = elim (Bool-cases (ltb (c.phase label).clock deadline)) [
        | inl e ↦ rw (should_stop-going deadline (c.phase label).clock t h, e) (ih t h)
        | inr e ↦ rw (should_stop-going deadline (c.phase label).clock t h, e) h
      ]
      tested ctrl_c t h ih = rw (should_stop-halted deadline (c.phase label).clock t h.0) h
      tested failure t h ih = rw (should_stop-halted deadline (c.phase label).clock t h.0) h
