-- ===== src/Inquiry/Session/Status.antt =====
-- The exit status of an inquiry run, with a bridge and without one.
use unitor_win64_driver.Base.{
  ℕ, ◌≤◌, ◌≡◌, refl, arith, true, false, Bool-cases, inl, inr, none, some, [], ◌∷◌, All, Text, ok,
  length, if◌then◌else◌,
}
use unitor_win64_driver.Ports.{select_port}
use unitor_win64_driver.Bridge
use unitor_win64_driver.Bridge.{Action, launch, stop}
use unitor_win64_driver.Inquiry.{rate_passes}
use unitor_win64_driver.Inquiry.Counters.{IsRecorded, answered, run_inquiry_loop-answered}
use unitor_win64_driver.Inquiry.Session.{
  InquiryArgs, InquiryWorld, loop_opts, child_args, inquiry_status, first_error, run_plain,
  checked_plain, run_midi_lab_in_fresh_process, run_lab, main,
}

-- The options that pass the checks of `main`
pub record IsAccepted (a : InquiryArgs) : Type 0 where
  pub counted : 1 ≤ a.count
  pub spaced : 1 ≤ a.interval
  pub waits : 1 ≤ a.reply_timeout
  pub readies : 1 ≤ a.bridge_ready_timeout

-- A bridge that is there and shows its ports in time
pub record IsReady (a : InquiryArgs) (w : InquiryWorld) : Type 0 where
  pub file : w.is_file ≡ true
  pub names : Text × Text
  pub waited :
      Bridge.wait_until_ready a.out_port a.in_port w.started a.bridge_ready_timeout w.polls
      ≡ some (ok names)

-- The process that opens the ports finds one of each, and its waits see their deadlines.
pub record IsAnswerable (a : InquiryArgs) (w : InquiryWorld) : Type 0 where
  pub out_name : Text
  pub in_name : Text
  pub out_found : select_port w.outs a.out_port ≡ ok out_name
  pub in_found : select_port w.inns a.in_port ≡ ok in_name
  pub each : a.count ≡ length w.cycles
  pub recorded : All (IsRecorded (loop_opts a)) w.cycles

-- 0 where the percentage of the cycles with an identity reply is reached, else 2
abbrev pub answered_status : InquiryArgs → InquiryWorld → ℕ
answered_status a w =
    inquiry_status (rate_passes (answered (loop_opts a) w.cycles) a.count a.pass_percent)

first_error-IsAccepted : (a : InquiryArgs) → IsAccepted a → first_error a ≡ none
unfolding first_error
first_error-IsAccepted a h = ground (arith, h.counted, h.spaced, h.waits, h.readies)

child_args-IsAccepted : (a : InquiryArgs) → IsAccepted a → IsAccepted (child_args a)
unfolding child_args
child_args-IsAccepted a h = record {
  counted = h.counted;
  spaced = h.spaced;
  waits = h.waits;
  readies = omega arith;
}

child_args-IsAnswerable :
    (a : InquiryArgs) (w : InquiryWorld) → IsAnswerable a w → IsAnswerable (child_args a) w
unfolding child_args loop_opts
child_args-IsAnswerable a w h = record {
  out_name = h.out_name;
  in_name = h.in_name;
  out_found = h.out_found;
  in_found = h.in_found;
  each = h.each;
  recorded = h.recorded;
}

run_plain-answered :
    (a : InquiryArgs) (w : InquiryWorld)
    → a.list_ports ≡ false
    → IsAnswerable a w
    → run_plain a w ≡ some (ok (answered_status a w))
unfolding run_plain loop_opts
run_plain-answered a w l h =
    let (s, e, replies, late, sent, low, high) =
      run_inquiry_loop-answered (loop_opts a) w.cycles h.each h.recorded in
    rw (l, h.out_found, h.in_found, e) refl

checked_plain-answered :
    (a : InquiryArgs) (w : InquiryWorld)
    → a.list_ports ≡ false
    → IsAccepted a
    → IsAnswerable a w
    → checked_plain a w ≡ some (ok (answered_status a w))
unfolding checked_plain
checked_plain-answered a w l g h =
    rw (first_error-IsAccepted a g, checked_plain, run_plain-answered a w l h) refl

child-answered :
    (a : InquiryArgs) (w : InquiryWorld) → answered_status (child_args a) w ≡ answered_status a w
unfolding child_args loop_opts
child-answered a w = refl

run_midi_lab-answered :
    (a : InquiryArgs) (w : InquiryWorld)
    → IsAccepted a
    → IsAnswerable a w
    → run_midi_lab_in_fresh_process a w ≡ some (answered_status a w)
unfolding run_midi_lab_in_fresh_process child_args
run_midi_lab-answered a w g h =
    rw
      (
        checked_plain-answered (child_args a) w refl (child_args-IsAccepted a g)
            (child_args-IsAnswerable a w h),
        child-answered a w,
      )
      refl

-- Accepted options that do not ask for the list of the ports; one matching port of each kind for the
-- process that opens them; a recording of every inquiry whose waits see their deadlines; and, where
-- a bridge is to be started, its file and a wait that finds the ports. Then the run ends. Its exit
-- status is 0 where the cycles with an identity reply reach the percentage, else 2, the same with
-- the child process of a bridge as without one; and a bridge is started and stopped if and only if
-- the options ask for it.
pub main-answered :
    (a : InquiryArgs) (w : InquiryWorld)
    → a.list_ports ≡ false
    → IsAccepted a
    → IsAnswerable a w
    → (a.with_bridge ≡ true → IsReady a w)
    → main a w
      ≡ some (ok (answered_status a w), if a.with_bridge then launch ∷ stop true w.stopping else [])
unfolding main run_lab
main-answered a w l g h ready = elim (Bool-cases a.with_bridge) [
  | inr f ↦ rw (first_error-IsAccepted a g, main, run_plain-answered a w l h, l, f) refl
  | inl t ↦
      let r = ready t in
      rw (first_error-IsAccepted a g, main, r.waited, run_midi_lab-answered a w g h, r.file, l, t)
        refl
]
