-- ===== src/Bridge/Clean.antt =====
-- A clean start either gives a session, or leaves no bridge behind.
use unitor_win64_driver.Base.{
  ℕ, ◌+◌, ◌≡◌, inl, inr, refl, true, false, Bool-cases, some, List, [], ◌∷◌, arith, Text, ok, err,
  if◌then◌else◌, Result,
}
use unitor_win64_driver.Bridge.{
  ReadyPoll, ReadyError, Action, launch, break_signal, terminate, kill, StopWorld, stop, StartError,
  not_ready, clean_outcome, start_one_clean_wms_bridge,
}
use unitor_win64_driver.Bridge.Ready.{Ended, Expires, Waits, wait_until_ready-Waits}

-- The first thing that is done to a live process: the signal, or `terminate` where it raises
abbrev pub first_action : StopWorld → Action
first_action w = if w.signal_raises then terminate else break_signal

-- What is done until the process is down: nothing if it is down already, and more as long as it is
-- not. `kill` needs no wait.
pub data Ends (w : StopWorld) : List Action → Type 0 where
  was_down : w.alive ≡ false → Ends w []
  by_first : w.alive ≡ true → w.gone_in_grace ≡ true → Ends w (first_action w ∷ [])
  by_terminate :
      w.alive ≡ true
      → w.gone_in_grace ≡ false
      → w.gone_after_terminate ≡ true
      → Ends w (first_action w ∷ terminate ∷ [])
  by_kill :
      w.alive ≡ true
      → w.gone_in_grace ≡ false
      → w.gone_after_terminate ≡ false
      → Ends w (first_action w ∷ terminate ∷ kill ∷ [])

-- `stop` does what ends the process, and no more.
pub stop-Ends : (w : StopWorld) → Ends w (stop true w)
unfolding stop
stop-Ends w = elim (Bool-cases w.alive) [
  | inr a ↦ let q : stop true w ≡ [] = ground arith in rw q (was_down a)
  | inl a ↦ elim (Bool-cases w.gone_in_grace) [
    | inl g ↦ let q : stop true w ≡ first_action w ∷ [] = ground arith in rw q (by_first a g)
    | inr g ↦ elim (Bool-cases w.gone_after_terminate) [
      | inl t ↦
          let q : stop true w ≡ first_action w ∷ terminate ∷ [] = ground arith in
          rw q (by_terminate a g t)
      | inr t ↦
          let q : stop true w ≡ first_action w ∷ terminate ∷ kill ∷ [] = ground arith in
          rw q (by_kill a g t)
    ]
  ]
]

-- What a clean start comes to, if the wait for the ports ends with `r`: on success the bridge has
-- been started and nothing else done to it, otherwise it has been started and brought down.
pub data IsClean (w : StopWorld)
    : Ended → Result StartError (Text × Text) → List Action → Type 0 where
  ready : {names : Text × Text} → IsClean w (ok names) (ok names) (launch ∷ [])
  brought_down :
      {e : ReadyError} {actions : List Action}
      → Ends w actions
      → IsClean w (err e) (err (not_ready e)) (launch ∷ actions)

clean_outcome-IsClean :
    (w : StopWorld) (r : Ended) → IsClean w r (clean_outcome w r).0 (clean_outcome w r).1
clean_outcome-IsClean w (ok names) = ready
clean_outcome-IsClean w (err e) = brought_down (stop-Ends w)

-- If some poll comes at or after the deadline, a clean start of an executable that is there ends.
-- The bridge is started once. If the wait for its ports succeeds, their names are the result;
-- otherwise the error is reported, and the bridge is signalled, terminated and killed, as far as it
-- is still alive.
pub start_one_clean_wms_bridge-IsClean :
    (out_needle in_needle : Text) (started timeout : ℕ) (w : StopWorld) {polls : List ReadyPoll}
    → Expires (started + timeout) polls
    → (r : Ended) × (outcome : Result StartError (Text × Text)) × (actions : List Action)
      × (start_one_clean_wms_bridge true out_needle in_needle started timeout polls w
          ≡ some (outcome, actions))
      × Waits out_needle in_needle (started + timeout) polls r
      × IsClean w r outcome actions
unfolding start_one_clean_wms_bridge
start_one_clean_wms_bridge-IsClean out_needle in_needle started timeout w e =
    let (r, q, waits) = wait_until_ready-Waits out_needle in_needle started timeout e in
    (r, (clean_outcome w r).0, (clean_outcome w r).1, rw q refl, waits, clean_outcome-IsClean w r)
