-- ===== src/Repro/Recovery.antt =====
-- The recovery starts one bridge at most, and is a success only if its ports are confirmed.
use unitor_win64_driver.Base.{
  ℕ, suc, ◌+◌, ◌≤◌, ◌≡◌, refl, Bool, true, false, Bool-cases, inl, inr, ◌&&◌, some, List, [], ◌∷◌,
  ◌++◌, arith, Text, Result, ok, err, if◌then◌else◌,
}
use unitor_win64_driver.Bridge.{
  Action, launch, break_signal, terminate, kill, StopWorld, stop, StartError,
}
use unitor_win64_driver.Bridge.Listing.{enumerate_midi_ports, fresh_midi_port_names}
use unitor_win64_driver.Bridge.Ready.{Ended, Expires}
use unitor_win64_driver.Bridge.Clean.{
  was_down, by_first, by_terminate, by_kill, start_one_clean_wms_bridge-IsClean, IsClean, ready,
  brought_down,
}
use unitor_win64_driver.Repro.{
  Args, ReproOutcome, Interrupt, confirm, PathC, settled, recovered, one_clean_bridge, is_healthy,
  attempted, run_path_c,
}

abbrev pub launches : List Action → ℕ
launches [] = 0
launches (launch ∷ as_) = suc (launches as_)
launches (break_signal ∷ as_) = launches as_
launches (terminate ∷ as_) = launches as_
launches (kill ∷ as_) = launches as_

launches-append : (xs ys : List Action) → launches (xs ++ ys) ≡ launches xs + launches ys
launches-append [] ys = omega arith
launches-append (launch ∷ xs) ys = omega (arith, launches-append xs ys)
launches-append (break_signal ∷ xs) ys = launches-append xs ys
launches-append (terminate ∷ xs) ys = launches-append xs ys
launches-append (kill ∷ xs) ys = launches-append xs ys

launches-stop : (w : StopWorld) → launches (stop true w) ≡ 0
unfolding stop
launches-stop w = ground arith

-- Both pairs of ports are there while the recovered session lives.
abbrev pub Confirmed : Args → PathC → Type 0
Confirmed args c =
    confirm (args.matrix_out ∷ args.long_out ∷ []) (args.matrix_in ∷ args.long_in ∷ [])
      (fresh_midi_port_names c.live)
    ≡ ok tt

abbrev IsOnce : Args → PathC → Bool × List Action → Type 0
IsOnce args c r = (launches r.1 ≤ 1) × (r.0 ≡ true → (launches r.1 ≡ 1) × Confirmed args c)

settled-IsOnce :
    (args : Args) (c : PathC) (actions : List Action) (r : Result Interrupt Unit)
    → confirm
        (args.matrix_out ∷ args.long_out ∷ [])
        (args.matrix_in ∷ args.long_in ∷ [])
        (fresh_midi_port_names c.live)
      ≡ r
    → launches actions ≡ 1
    → IsOnce args c (settled c actions r)
settled-IsOnce args c actions (err e) q n = (
  omega (arith, launches-append actions (stop true c.stopping), launches-stop c.stopping),
  λ h. cc,
)
settled-IsOnce args c actions (ok u) q n =
    let one : launches (actions ++ stop true c.stopping) ≡ 1 =
      omega (arith, launches-append actions (stop true c.stopping), launches-stop c.stopping) in
    (omega (arith, one), λ h. (one, q))

recovered-IsOnce :
    (args : Args) (c : PathC) (started : Result StartError (Text × Text)) (actions : List Action)
    → launches actions ≡ 1
    → IsOnce args c (recovered args c (started, actions))
recovered-IsOnce args c (err e) actions n = (omega (arith, n), λ h. cc)
recovered-IsOnce args c (ok names) actions n = settled-IsOnce args c actions _ refl n

launches-IsClean :
    {w : StopWorld} {r : Ended} {outcome : Result StartError (Text × Text)} {actions : List Action}
    → IsClean w r outcome actions
    → launches actions ≡ 1
launches-IsClean ready = refl
launches-IsClean (brought_down (was_down a)) = refl
launches-IsClean {w} (brought_down (by_first a g)) = ground arith
launches-IsClean {w} (brought_down (by_terminate a g t)) = ground arith
launches-IsClean {w} (brought_down (by_kill a g t)) = ground arith

one_clean_bridge-IsOnce :
    (args : Args) (c : PathC)
    → Expires (c.started + args.bridge_ready_timeout) c.polls
    → (r : Bool × List Action) × (one_clean_bridge args c ≡ some r) × IsOnce args c r
unfolding one_clean_bridge
one_clean_bridge-IsOnce args c e = elim (Bool-cases c.is_file) [
  | inr f ↦ ((false, []), rw f refl, (omega arith, λ h. cc))
  | inl t ↦
      let (r, outcome, actions, q, waits, clean) =
        start_one_clean_wms_bridge-IsClean args.matrix_out args.matrix_in c.started
          args.bridge_ready_timeout c.aborting e in
      (
        recovered args c (outcome, actions),
        rw (t, q) refl,
        recovered-IsOnce args c outcome actions (launches-IsClean clean),
      )
]

-- A clean bridge is asked for, and the reset, or else the probe, lets it start.
abbrev pub may_start : Args → PathC → Bool
unfolding enumerate_midi_ports
may_start args c =
    args.one_clean_bridge
    && (if args.apply_midisrv_reset then c.reset_ok else is_healthy (enumerate_midi_ports c.probe))

pub data IsRecovery (args : Args) (c : PathC) : ReproOutcome × List Action → Type 0 where
  held_back :
      {o : ReproOutcome}
      → may_start args c ≡ false
      → o.path_c_ok ≡ false
      → IsRecovery args c (o, [])
  failed :
      {o : ReproOutcome} {actions : List Action}
      → may_start args c ≡ true
      → o.path_c_ok ≡ false
      → launches actions ≤ 1
      → IsRecovery args c (o, actions)
  confirmed :
      {o : ReproOutcome} {actions : List Action}
      → may_start args c ≡ true
      → o.path_c_ok ≡ true
      → Confirmed args c
      → launches actions ≡ 1
      → IsRecovery args c (o, actions)

attempted-IsRecovery :
    (args : Args) (c : PathC) (o : ReproOutcome) (r : Bool × List Action)
    → may_start args c ≡ true
    → IsOnce args c r
    → IsRecovery args c (attempted o r.0, r.1)
attempted-IsRecovery args c o (false, actions) m (le, f) = failed m refl le
attempted-IsRecovery args c o (true, actions) m (le, f) = confirmed m refl (f refl).1 (f refl).0

abbrev documented : ReproOutcome → ReproOutcome
documented o = record o { path_c_documented_only = true; path_c_ok = false }

abbrev under_reset : ReproOutcome → ReproOutcome
under_reset o = record o { path_c_attempted_recovery = true }

run_path_c-bridged :
    (args : Args) (c : PathC) (o : ReproOutcome) (r : Bool × List Action)
    → one_clean_bridge args c ≡ some r
    → IsOnce args c r
    → (s : ReproOutcome × List Action) × (run_path_c args c o ≡ some s) × IsRecovery args c s
unfolding run_path_c
run_path_c-bridged args c o r q once = elim (Bool-cases args.one_clean_bridge) [
  | inr n ↦ elim (Bool-cases args.apply_midisrv_reset) [
    | inr a ↦ ((documented o, []), rw (n, a) refl, held_back (rw n refl) refl)
    | inl a ↦ elim (Bool-cases c.reset_ok) [
      | inr z ↦ ((attempted o false, []), rw (a, z) refl, held_back (rw n refl) refl)
      | inl z ↦ ((documented (under_reset o), []), rw (n, a, z) refl, held_back (rw n refl) refl)
    ]
  ]
  | inl y ↦ elim (Bool-cases args.apply_midisrv_reset) [
    | inl a ↦ elim (Bool-cases c.reset_ok) [
      | inr z ↦ ((attempted o false, []), rw (a, z) refl, held_back (rw (y, a, z) refl) refl)
      | inl z ↦ (
        (attempted (under_reset o) r.0, r.1),
        rw (y, a, z, q) refl,
        attempted-IsRecovery args c o r (rw (y, a, z) refl) once,
      )
    ]
    | inr a ↦ elim (Bool-cases (is_healthy (enumerate_midi_ports c.probe))) [
      | inr z ↦ ((attempted o false, []), rw (y, a, z) refl, held_back (rw (y, a, z) refl) refl)
      | inl z ↦ (
        (attempted o r.0, r.1),
        rw (y, a, z, q) refl,
        attempted-IsRecovery args c o r (rw (y, a, z) refl) once,
      )
    ]
  ]
]

-- Where the clock reaches the deadline of the wait, path C returns. Without the request for a clean
-- bridge, behind a reset that fails, or with no reset and a probe that is not healthy, it starts
-- nothing and is not a success. Else it starts one bridge at most, and is a success only if one was
-- started and a fresh enumeration during its life has all four ports.
pub run_path_c-IsRecovery :
    (args : Args) (c : PathC) (o : ReproOutcome)
    → Expires (c.started + args.bridge_ready_timeout) c.polls
    → (s : ReproOutcome × List Action) × (run_path_c args c o ≡ some s) × IsRecovery args c s
run_path_c-IsRecovery args c o e =
    let (r, q, once) = one_clean_bridge-IsOnce args c e in run_path_c-bridged args c o r q once
