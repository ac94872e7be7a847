-- ===== src/Clock/Score.antt =====
-- What the verdict of the clock lab says about the messages that came back.
use unitor_win64_driver.Base.{
  ℕ, zero, suc, ◌+◌, ◌≡◌, refl, ap, ◌∙◌, Bool, true, false, if◌then◌else◌, List, [], ◌∷◌, Text,
  codes,
}
use unitor_win64_driver.Midi.{Message}
use unitor_win64_driver.Lab.{
  send, later_batches, arrivals, RecvState, Run, log, transmit, drain, settle_recv,
}
use unitor_win64_driver.Lab.Tally.{tally, total, total-logged, total-drain, got-settle_recv}
use unitor_win64_driver.Clock.{
  classify_msg, Got, empty_got, count_kind, receive, send_status, logs_clock, clock_text,
  send_clocks, send_clock_batch, sanity_note_on, tail_count, run_transport_sequence, score_pass,
  run_lab,
}

abbrev pub counted : Message → Got → Got
counted m = count_kind (classify_msg m)

receive_counts : (s : RecvState Got) (m : Message) → (receive s m).got ≡ counted m s.got
unfolding receive
receive_counts s m = refl

total-send_status :
    (status : ℕ) (label : Text) (r : Run Got)
    → total counted (drain receive (send_status status label r)) ≡ total counted r
unfolding send_status send
total-send_status status label r =
    total-drain counted receive receive_counts (send_status status label r)

total-send_clocks :
    (label : Text) (log_mid : Bool) (count index left : ℕ) (r : Run Got)
    → total counted (send_clocks label log_mid count index left r) ≡ total counted r
unfolding send_clocks
total-send_clocks label log_mid count index zero r = refl
total-send_clocks label log_mid count index (suc left) r =
    let logged =
      if logs_clock log_mid index count
      then log (clock_text label index count) (transmit (0xF8 ∷ []) r)
      else transmit (0xF8 ∷ []) r in
    total-send_clocks label log_mid count (index + 1) left (drain receive logged)
    ∙ total-drain counted receive receive_counts logged
    ∙ total-logged counted (logs_clock log_mid index count) (clock_text label index count)
        (0xF8 ∷ []) r

total-run_transport_sequence :
    (n : ℕ) (r : Run Got) → total counted (run_transport_sequence n r).0 ≡ total counted r
unfolding run_transport_sequence
total-run_transport_sequence n r =
    let started = drain receive (send_status 0xFA (codes "start") r) in
    let clocked = send_clock_batch (codes "clock") true n started in
    let stopped = drain receive (send_status 0xFC (codes "stop") clocked) in
    let continued = drain receive (send_status 0xFB (codes "continue") stopped) in
    let tailed = send_clock_batch (codes "clock_tail") false (tail_count n) continued in
    total-send_status 0xFC (codes "stop") _
    ∙ total-send_clocks (codes "clock_tail") false (tail_count n) 1 (tail_count n) continued
    ∙ total-send_status 0xFB (codes "continue") stopped
    ∙ total-send_status 0xFC (codes "stop") clocked
    ∙ total-send_clocks (codes "clock") true n 1 n started
    ∙ total-send_status 0xFA (codes "start") r

inbox-sanity_note_on : (r : Run Got) → (sanity_note_on r).wire.inbox ≡ later_batches r.wire.inbox
unfolding sanity_note_on send drain
inbox-sanity_note_on r = refl

-- The verdict of the clock lab depends only on the messages that arrive behind the sanity probe,
-- not on how they are spread over the polls: it is the score of their counts against the clocks of
-- the stream and of its tail.
pub run_lab-tally :
    (clock_count : ℕ) (r : Run Got)
    → run_lab clock_count r
      ≡ score_pass
          (tally counted empty_got (arrivals (later_batches r.wire.inbox)))
          (clock_count + tail_count clock_count)
unfolding run_lab
run_lab-tally n r =
    let probed = sanity_note_on r in
    let cleared = record probed { state = record probed.state { got = empty_got } } in
    let played = run_transport_sequence n cleared in
    let got_ : (settle_recv receive played.0.wire.inbox played.0.state).got
        ≡ tally counted empty_got (arrivals (later_batches r.wire.inbox)) =
      got-settle_recv counted receive receive_counts played.0.wire.inbox played.0.state
      ∙ total-run_transport_sequence n cleared
      ∙ ap (λ (b : List (List Message)). tally counted empty_got (arrivals b))
          (inbox-sanity_note_on r) in
    ap (λ (g : Got). score_pass g (n + tail_count n)) got_
