-- ===== src/Sessions/Verdict.antt =====
-- The verdict of the sessions with a bridge each.
use unitor_win64_driver.Base.{
  ℕ, zero, suc, ◌+◌, ◌≡◌, refl, ap, ◌∙◌, Bool, true, false, Bool-cases, inl, inr, ◌&&◌, not, Option,
  none, some, List, [], ◌∷◌, arith, Text, Result, ok, err, length, All, any, contains,
  if◌then◌else◌, ◌==◌,
}
use unitor_win64_driver.Quality.Lines.{splitlines}
use unitor_win64_driver.Options.{CommandLine}
use unitor_win64_driver.Bridge.{ReadyError, StartError, no_executable, not_ready, wait_until_ready}
use unitor_win64_driver.Bridge.Ready.{Ended, Expires, Waits, wait_until_ready-Waits}
use unitor_win64_driver.Sessions.{
  ReturnCode, is_zero, bridge_fail_needles, fail_hits, bridge_fail_lines, record_bridge_fail_hits,
  BridgeStart, Done, nothing, behind, write_finish_footer, start_outcome, run_one_bridge_start,
  bridge_starts, run_with_bridge, finish_starts, finished,
}

-- An exception, or whether the child gave 0 and no line of the bridge has a failure
abbrev pub Outcome : Type 0
Outcome = Result StartError Bool

-- A line that has one of the texts of a failure
abbrev pub has_failure : Text → Bool
has_failure line = any (λ needle. contains needle line) bridge_fail_needles

abbrev pub is_clean : BridgeStart → Bool
is_clean b = is_zero b.rc && not (any has_failure (splitlines b.captured))

abbrev pub first_raise : List Outcome → Option StartError
first_raise [] = none
first_raise (err e ∷ os) = some e
first_raise (ok c ∷ os) = first_raise os

abbrev pub all_clean : List Outcome → Bool
all_clean [] = true
all_clean (err e ∷ os) = false
all_clean (ok c ∷ os) = c && all_clean os

-- The first exception, else the value
abbrev pub settled : {A : Type 0} → Option StartError → A → Result StartError A
settled none a = ok a
settled (some e) a = err e

abbrev pub verdict : List Outcome → Result StartError ℕ
verdict os = settled (first_raise os) (if all_clean os then 0 else 2)

record_bridge_fail_hits-saw_fail :
    (start_index : ℕ) (hits : List Text)
    → not (record_bridge_fail_hits start_index hits).1 ≡ (length hits == 0)
unfolding record_bridge_fail_hits
record_bridge_fail_hits-saw_fail start_index [] = refl
record_bridge_fail_hits-saw_fail start_index (hit ∷ hits) = ground arith

fail_hits-has_failure :
    (lines : List Text) → (length (fail_hits lines) == 0) ≡ not (any has_failure lines)
unfolding fail_hits
fail_hits-has_failure [] = refl
fail_hits-has_failure (line ∷ lines) = elim (Bool-cases (has_failure line)) [
  | inl t ↦ rw t (ground arith)
  | inr f ↦ rw f (fail_hits-has_failure lines)
]

saw_fail-is_clean :
    (start_index : ℕ) (b : BridgeStart)
    → (is_zero b.rc && not (record_bridge_fail_hits start_index (bridge_fail_lines b.captured)).1)
      ≡ is_clean b
unfolding bridge_fail_lines
saw_fail-is_clean start_index b =
    rw
      (
        record_bridge_fail_hits-saw_fail start_index (fail_hits (splitlines b.captured)),
        fail_hits-has_failure (splitlines b.captured),
      )
      refl

module _ (out_port in_port : Text) (ready_timeout : ℕ) where
  -- What a start comes to
  pub data Meets (b : BridgeStart) : Outcome → Type 0 where
    no_file : b.is_file ≡ false → Meets b (err no_executable)
    unready :
        {e : ReadyError}
        → b.is_file ≡ true
        → Waits out_port in_port (b.started + ready_timeout) b.polls (err e)
        → Meets b (err (not_ready e))
    ran :
        {names : Text × Text}
        → b.is_file ≡ true
        → Waits out_port in_port (b.started + ready_timeout) b.polls (ok names)
        → Meets b (ok (is_clean b))

  abbrev pub AllMeet : List BridgeStart → List Outcome → Type 0
  AllMeet [] [] = Unit
  AllMeet [] (o ∷ os) = ⊥
  AllMeet (b ∷ bs) [] = ⊥
  AllMeet (b ∷ bs) (o ∷ os) = Meets b o × AllMeet bs os

  abbrev pub ExpiresEach : List BridgeStart → Type 0
  ExpiresEach = All (λ b. Expires (b.started + ready_timeout) b.polls)

  module _ (child : ℕ → CommandLine) where
    -- The children of the starts that do not raise, up to the first that does
    abbrev pub children_of : ℕ → List Outcome → List CommandLine
    children_of start_index [] = []
    children_of start_index (err e ∷ os) = []
    children_of start_index (ok c ∷ os) = child start_index ∷ children_of (start_index + 1) os

    abbrev run_start : ℕ → BridgeStart → Option (Result StartError (ReturnCode × Bool) × Done)
    run_start = run_one_bridge_start out_port in_port ready_timeout child

    abbrev summary : Result StartError (ReturnCode × Bool) → Outcome
    summary (err e) = err e
    summary (ok (rc, saw_fail)) = ok (is_zero rc && not saw_fail)

    abbrev child_of : ℕ → Outcome → List CommandLine
    child_of start_index (err e) = []
    child_of start_index (ok c) = child start_index ∷ []

    StartMeets : ℕ → BridgeStart → Type 0
    StartMeets start_index b =
        (r : Result StartError (ReturnCode × Bool) × Done) × (run_start start_index b ≡ some r)
        × Meets b (summary r.0)
        × (r.1.children ≡ child_of start_index (summary r.0))

    started-StartMeets :
        (start_index : ℕ) (b : BridgeStart) (r : Ended)
        → b.is_file ≡ true
        → wait_until_ready out_port in_port b.started ready_timeout b.polls ≡ some r
        → Waits out_port in_port (b.started + ready_timeout) b.polls r
        → StartMeets start_index b
    unfolding run_one_bridge_start start_outcome StartMeets
    started-StartMeets start_index b (err e) t q w = (
      start_outcome out_port in_port ready_timeout child start_index b (err e),
      rw (t, q) refl,
      unready t w,
      refl,
    )
    started-StartMeets start_index b (ok names) t q w = (
      start_outcome out_port in_port ready_timeout child start_index b (ok names),
      rw (t, q) refl,
      rw (saw_fail-is_clean start_index b) (ran t w),
      refl,
    )

    run_start-StartMeets :
        (start_index : ℕ) (b : BridgeStart)
        → Expires (b.started + ready_timeout) b.polls
        → StartMeets start_index b
    unfolding run_one_bridge_start StartMeets
    run_start-StartMeets start_index b e = elim (Bool-cases b.is_file) [
      | inr f ↦ ((err no_executable, nothing), rw f refl, no_file f, refl)
      | inl t ↦
          let (r, q, w) = wait_until_ready-Waits out_port in_port b.started ready_timeout e in
          started-StartMeets start_index b r t q w
    ]

    -- The verdict of what is left, behind sessions of which all were clean or not
    abbrev left_verdict : Bool → List Outcome → Result StartError Bool
    left_verdict overall_ok os = settled (first_raise os) (overall_ok && all_clean os)

    LoopMeets : ℕ → ℕ → List BridgeStart → Bool → Type 0
    LoopMeets n start_index bs overall_ok =
        (os : List Outcome) × AllMeet bs os
        × (d : Done) × (bridge_starts out_port in_port ready_timeout child n start_index bs
              overall_ok
            ≡ some (left_verdict overall_ok os, d))
        × (d.children ≡ children_of start_index os)

    and_true : (b : Bool) → (b && true) ≡ b
    and_true b = ground arith

    left_verdict-ok :
        (overall_ok c : Bool) (os : List Outcome)
        → left_verdict (overall_ok && c) os ≡ left_verdict overall_ok (ok c ∷ os)
    left_verdict-ok overall_ok c os = ground arith

    StartMeets-LoopMeets :
        (n start_index : ℕ) (b : BridgeStart) (bs : List BridgeStart) (overall_ok : Bool)
        → StartMeets start_index b
        → ((overall_ok' : Bool) → LoopMeets n (start_index + 1) bs overall_ok')
        → LoopMeets (suc n) start_index (b ∷ bs) overall_ok
    unfolding bridge_starts LoopMeets StartMeets
    StartMeets-LoopMeets n start_index b bs overall_ok ((err x, d), q, m, c) more =
        let (os, ms, d', q', cs) = more overall_ok in (err x ∷ os, (m, ms), d, rw q refl, c)
    StartMeets-LoopMeets n start_index b bs overall_ok ((ok (rc, saw_fail), d), q, m, c) more =
        let (os, ms, d', q', cs) = more (overall_ok && (is_zero rc && not saw_fail)) in
        (
          ok (is_zero rc && not saw_fail) ∷ os,
          (m, ms),
          behind d d',
          rw q (
              rw q' (
                ap (λ v. some (v, behind d d'))
                  (left_verdict-ok overall_ok (is_zero rc && not saw_fail) os))),
          rw (c, cs) refl,
        )

    bridge_starts-LoopMeets :
        (n start_index : ℕ) (bs : List BridgeStart) (overall_ok : Bool)
        → length bs ≡ n
        → ExpiresEach bs
        → LoopMeets n start_index bs overall_ok
    unfolding bridge_starts LoopMeets
    bridge_starts-LoopMeets zero start_index [] overall_ok l e =
        ([], tt, nothing, rw (and_true overall_ok) refl, refl)
    bridge_starts-LoopMeets zero start_index (b ∷ bs) overall_ok l e = absurd (ground (arith, l))
    bridge_starts-LoopMeets (suc n) start_index [] overall_ok l e = absurd (ground (arith, l))
    bridge_starts-LoopMeets (suc n) start_index (b ∷ bs) overall_ok l e =
        StartMeets-LoopMeets n start_index b bs overall_ok (run_start-StartMeets start_index b e.0)
          (λ o. bridge_starts-LoopMeets n (start_index + 1) bs o (omega (arith, l)) e.1)

    abbrev finish : Result StartError Bool × Done → Result StartError ℕ × Done
    finish = finish_starts out_port in_port ready_timeout child

    finish_starts-settled :
        (raised : Option StartError) (c : Bool) (d : Done)
        → (d' : Done) × (finish (settled raised c, d) ≡ (settled raised (if c then 0 else 2), d'))
          × (d'.children ≡ d.children)
    unfolding write_finish_footer
    finish_starts-settled none c d = ((finished (c, d)).1, refl, refl)
    finish_starts-settled (some e) c d = (d, refl, refl)

    -- A run with as many recorded starts as it makes, each of whose waits reaches its deadline in the
    -- recording, ends. If a start finds no executable, or its ports do not come, the first such error
    -- is raised. Else the status is 0 if every child gave 0 and no bridge printed a failure by then,
    -- and 2 otherwise. Each start up to the first that raises runs one child, with its own index.
    pub run_with_bridge-verdict :
        (fresh_starts : ℕ) (bs : List BridgeStart)
        → length bs ≡ fresh_starts
        → ExpiresEach bs
        → (os : List Outcome) × (d : Done) × AllMeet bs os
          × (run_with_bridge out_port in_port ready_timeout child fresh_starts bs
              ≡ some (verdict os, d))
          × (d.children ≡ children_of 1 os)
    unfolding run_with_bridge LoopMeets
    run_with_bridge-verdict fresh_starts bs l e =
        let (os, ms, d, q, cs) = bridge_starts-LoopMeets fresh_starts 1 bs true l e in
        let (d', f, c) = finish_starts-settled (first_raise os) (all_clean os) d in
        (os, d', ms, rw q (ap some f), c ∙ cs)
