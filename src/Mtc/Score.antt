-- ===== src/Mtc/Score.antt =====
-- What the verdict of the time code lab says about the messages that came back.
use unitor_win64_driver.Base.{
  ℕ, ◌+◌, ◌*◌, ◌≡◌, refl, ap, ap₂, ◌∙◌, arith, Bool, true, false, List, [], ◌∷◌, ◌++◌, Text, Bytes,
  codes, if◌then◌else◌, length,
}
use unitor_win64_driver.Midi.{Message}
use unitor_win64_driver.Midi.Hex.{joined_hex}
use unitor_win64_driver.Lab.{
  send, later_batches, arrivals, RecvState, Run, log, transmit, drain, settle_recv,
}
use unitor_win64_driver.Lab.Tally.{tally, total, total-logged, total-drain, got-settle_recv}
use unitor_win64_driver.Mtc.{
  is_milestone, send_text, classify_msg, Got, empty_got, count_kind, receive, send_frames,
  send_qf_batch, send_full_frame, sanity_note_on, run_mtc_sequence, score_pass, run_lab,
  build_time_frames, full_frame,
}
use unitor_win64_driver.Mtc.Frames.{length-build_time_frames}

abbrev pub counted : Message → Got → Got
counted m = count_kind (classify_msg m)

receive_counts : (s : RecvState Got) (m : Message) → (receive s m).got ≡ counted m s.got
unfolding receive
receive_counts s m = refl

total-send_frames :
    (label : Text) (milestones : Bool) (n index : ℕ) (frames : List Bytes) (r : Run Got)
    → total counted (send_frames label milestones n index frames r) ≡ total counted r
unfolding send_frames
total-send_frames label milestones n index [] r = refl
total-send_frames label milestones n index (frame ∷ frames) r =
    let logged =
      if is_milestone milestones index n
      then log (send_text label index n frame) (transmit frame r)
      else transmit frame r in
    total-send_frames label milestones n (index + 1) frames (drain receive logged)
    ∙ total-drain counted receive receive_counts logged
    ∙ total-logged counted (is_milestone milestones index n) (send_text label index n frame) frame r

total-send_full_frame : (r : Run Got) → total counted (send_full_frame r) ≡ total counted r
unfolding send_full_frame send
total-send_full_frame r =
    total-drain counted receive receive_counts
      (transmit full_frame (log (codes "SEND full_frame " ++ joined_hex full_frame) r))

total-run_mtc_sequence :
    (n : ℕ) (r : Run Got) → total counted (run_mtc_sequence n r).0 ≡ total counted r
unfolding run_mtc_sequence
total-run_mtc_sequence n r =
    let qf_send = build_time_frames n in
    let dense = build_time_frames 1 in
    let flood = send_qf_batch (codes "qf") true qf_send r in
    total-send_frames (codes "dense_tail") false (length dense) 1 dense (send_full_frame flood)
    ∙ total-send_full_frame flood
    ∙ total-send_frames (codes "qf") true (length qf_send) 1 qf_send r

inbox-sanity_note_on : (r : Run Got) → (sanity_note_on r).wire.inbox ≡ later_batches r.wire.inbox
unfolding sanity_note_on send drain
inbox-sanity_note_on r = refl

expected-run_mtc_sequence : (n : ℕ) (r : Run Got) → (run_mtc_sequence n r).1 ≡ n * 8 + 8
unfolding run_mtc_sequence
expected-run_mtc_sequence n r =
    omega (arith, length-build_time_frames n, length-build_time_frames 1)

-- The verdict depends only on the messages that arrive behind the sanity probe, not on how they are
-- spread over the polls: it is the score of their counts against 8 * `time_frames` + 8 quarter frames.
pub run_lab-score_pass :
    (time_frames : ℕ) (r : Run Got)
    → run_lab time_frames r
      ≡ score_pass
          (tally counted empty_got (arrivals (later_batches r.wire.inbox)))
          (time_frames * 8 + 8)
unfolding run_lab
run_lab-score_pass n r =
    let probed = sanity_note_on r in
    let cleared = record probed { state = record probed.state { got = empty_got } } in
    let played = run_mtc_sequence n cleared in
    let counted : (settle_recv receive played.0.wire.inbox played.0.state).got
        ≡ tally counted empty_got (arrivals (later_batches r.wire.inbox)) =
      got-settle_recv counted receive receive_counts played.0.wire.inbox played.0.state
      ∙ total-run_mtc_sequence n cleared
      ∙ ap (λ (b : List (List Message)). tally counted empty_got (arrivals b))
          (inbox-sanity_note_on r) in
    ap₂ score_pass counted (expected-run_mtc_sequence n cleared)
