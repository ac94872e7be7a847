-- ===== src/Clock/Transport.antt =====
-- What the clock lab sends, and its verdict on a line that returns it.
use unitor_win64_driver.Base.{
  ℕ, zero, suc, ◌+◌, ◌≡◌, refl, ap, ◌∙◌, arith, Bool, true, false, inl, inr, ◌⊎◌, List, [], ◌∷◌,
  ◌++◌, append_assoc, append-nil, Text, Bytes, codes, leb, some, if◌then◌else◌, int_times_0_98-le,
}
use unitor_win64_driver.Midi.{Message}
use unitor_win64_driver.Lab.{send, later_batches, arrivals, raws, Run, log, transmit, drain}
use unitor_win64_driver.Lab.Tally.{tally}
use unitor_win64_driver.Clock.{
  Kind, clock, start, continue, stop, realtime_status, classify_msg, Got, empty_got, count_kind,
  receive, send_status, logs_clock, clock_text, send_clocks, send_clock_batch, tail_count,
  run_transport_sequence, clock_need, score_pass, run_lab,
}
use unitor_win64_driver.Clock.Score.{counted, run_lab-tally}

abbrev pub status : ℕ → Bytes
status s = s ∷ []

abbrev pub clocks : ℕ → List Bytes
clocks zero = []
clocks (suc n) = status 0xF8 ∷ clocks n

-- Start, the stream, what stands between, Continue, the tail, Stop
abbrev pub played : List Bytes → ℕ → List Bytes
played between n =
    status 0xFA
    ∷ (clocks n ++ (between ++ status 0xFB ∷ (clocks (tail_count n) ++ status 0xFC ∷ [])))

sent-logged :
    (b : Bool) (line : Text) (frame : Bytes) (r : Run Got)
    → (drain receive (if b then log line (transmit frame r) else transmit frame r)).wire.sent
      ≡ r.wire.sent ++ frame ∷ []
unfolding drain send
sent-logged true line frame r = refl
sent-logged false line frame r = refl

sent-send_clocks :
    (label : Text) (log_mid : Bool) (count index left : ℕ) (r : Run Got)
    → (send_clocks label log_mid count index left r).wire.sent ≡ r.wire.sent ++ clocks left
unfolding send_clocks
sent-send_clocks label log_mid count index zero r = rw append-nil
sent-send_clocks label log_mid count index (suc left) r =
    let logged =
      if logs_clock log_mid index count
      then log (clock_text label index count) (transmit (status 0xF8) r)
      else transmit (status 0xF8) r in
    sent-send_clocks label log_mid count (index + 1) left (drain receive logged)
    ∙ ap (λ (l : List Bytes). l ++ clocks left)
        (sent-logged (logs_clock log_mid index count) (clock_text label index count) (status 0xF8)
          r)
    ∙ append_assoc r.wire.sent (status 0xF8 ∷ []) (clocks left)

-- The lab sends Start, `clock_count` clocks, Stop, Continue, the clocks of the tail and Stop, in
-- this order and nothing else, and expects as many clocks back as it sends.
pub run_transport_sequence-played :
    (clock_count : ℕ) (r : Run Got)
    → ((run_transport_sequence clock_count r).0.wire.sent
        ≡ r.wire.sent ++ played (status 0xFC ∷ []) clock_count)
      × ((run_transport_sequence clock_count r).1 ≡ clock_count + tail_count clock_count)
unfolding run_transport_sequence send_status send_clock_batch drain send
run_transport_sequence-played n r = (
  rw
      (
        sent-send_clocks (codes "clock_tail") false (tail_count n) 1 (tail_count n),
        sent-send_clocks (codes "clock") true n 1 n,
      )
      (simp append_assoc refl),
  refl,
)

classify-status :
    (m : Message) (s : ℕ) (kind : Kind)
    → realtime_status s ≡ some kind
    → m.raw ≡ status s
    → classify_msg m ≡ kind
unfolding classify_msg
classify-status m s kind k h = ground (arith, k)

-- One message at the head of what arrives
tally-status :
    (s : ℕ) (kind : Kind) {rest : List Bytes} (g : Got) (ms : List Message)
    → realtime_status s ≡ some kind
    → raws ms ≡ status s ∷ rest
    → (ns : List Message) × (raws ns ≡ rest)
      × (tally counted g ms ≡ tally counted (count_kind kind g) ns)
tally-status s kind g [] k h = absurd (ground arith)
tally-status s kind g (m ∷ ms) k h =
    let c = classify-status m s kind k (ground arith) in
    (ms, ground arith, ap (λ (j : Kind). tally counted (count_kind j g) ms) c)

tally-clocks :
    (n : ℕ) {rest : List Bytes} (g : Got) (ms : List Message)
    → raws ms ≡ clocks n ++ rest
    → (ns : List Message) × (raws ns ≡ rest)
      × (tally counted g ms ≡ tally counted (record g { clock_count = g.clock_count + n }) ns)
tally-clocks zero g ms h =
    let e : g.clock_count + 0 ≡ g.clock_count = omega arith in (ms, h, rw e refl)
tally-clocks (suc n) g ms h =
    let (ns, e, t) = tally-status 0xF8 clock g ms (unfold realtime_status in refl) h in
    let (os, e', t') = tally-clocks n (count_kind clock g) ns e in
    let a : g.clock_count + 1 + n ≡ g.clock_count + suc n = omega arith in (os, e', t ∙ rw a at t')

tally-none : (g : Got) (ms : List Message) → raws ms ≡ [] → tally counted g ms ≡ g
tally-none g [] h = refl
tally-none g (m ∷ ms) h = absurd (ground arith)

-- The counters at the end of a line that returns what was sent
abbrev heard : ℕ → ℕ → Got
heard stops n = record {
  clock_count = n + tail_count n;
  start_count = 1;
  continue_count = 1;
  stop_count = stops;
  other_count = 0;
}

tally-tail :
    (n : ℕ) (g : Got) (ms : List Message)
    → raws ms ≡ status 0xFB ∷ (clocks (tail_count n) ++ status 0xFC ∷ [])
    → tally counted g ms ≡ record g {
      clock_count = g.clock_count + tail_count n;
      continue_count = g.continue_count + 1;
      stop_count = g.stop_count + 1;
    }
unfolding realtime_status
tally-tail n g ms h =
    let (ns, e, t) = tally-status 0xFB continue g ms refl h in
    let (os, e', t') = tally-clocks (tail_count n) (count_kind continue g) ns e in
    let (ps, e'', t'') =
      tally-status 0xFC stop
        (record g {
          clock_count = g.clock_count + tail_count n;
          continue_count = g.continue_count + 1;
        })
        os refl e' in
    t ∙ t' ∙ t'' ∙ tally-none _ ps e''

tally-played :
    (n stops : ℕ) (between : List Bytes) (ms : List Message)
    → ((between ≡ status 0xFC ∷ []) × (stops ≡ 2)) ⊎ ((between ≡ []) × (stops ≡ 1))
    → raws ms ≡ played between n
    → tally counted empty_got ms ≡ heard stops n
unfolding realtime_status
tally-played n stops between ms (inl (b, s)) h =
    let z : 0 + n ≡ n = omega arith in
    let same : (k : ℕ) → record (heard k n) { clock_count = 0 + n + tail_count n } ≡ heard k n =
      λ k. rw z refl in
    let (ns, e, t) = tally-status 0xFA start empty_got ms refl h in
    let (os, e', t') = tally-clocks n (count_kind start empty_got) ns e in
    let after_clocks : Got = record (count_kind start empty_got) { clock_count = 0 + n } in
    let (ps, e'', t'') = tally-status 0xFC stop after_clocks os refl (rw b at e') in
    rw s (t ∙ t' ∙ t'' ∙ tally-tail n (count_kind stop after_clocks) ps e'' ∙ same 2)
tally-played n stops between ms (inr (b, s)) h =
    let z : 0 + n ≡ n = omega arith in
    let same : (k : ℕ) → record (heard k n) { clock_count = 0 + n + tail_count n } ≡ heard k n =
      λ k. rw z refl in
    let (ns, e, t) = tally-status 0xFA start empty_got ms refl h in
    let (os, e', t') = tally-clocks n (count_kind start empty_got) ns e in
    let after_clocks : Got = record (count_kind start empty_got) { clock_count = 0 + n } in
    rw s (t ∙ t' ∙ tally-tail n after_clocks os (rw b at e') ∙ same 1)

score-heard : (stops n : ℕ) → score_pass (heard stops n) (n + tail_count n) ≡ leb 2 stops
unfolding score_pass clock_need
score-heard stops n = ground (arith, int_times_0_98-le (n + tail_count n))

-- What stands between the stream and Continue: the Stop in the middle, unless it is lost
abbrev pub middle : Bool → List Bytes
middle true = status 0xFC ∷ []
middle false = []

-- If the line returns, behind the sanity probe, just what the lab sends, in whatever portions, but
-- may lose the Stop in the middle, then the lab passes exactly when that Stop is not lost.
pub run_lab-played :
    (stop_returns : Bool) (clock_count : ℕ) (r : Run Got)
    → raws (arrivals (later_batches r.wire.inbox)) ≡ played (middle stop_returns) clock_count
    → run_lab clock_count r ≡ stop_returns
run_lab-played true n r h =
    let ms = arrivals (later_batches r.wire.inbox) in
    run_lab-tally n r
    ∙ ap (λ (g : Got). score_pass g (n + tail_count n))
        (tally-played n 2 (status 0xFC ∷ []) ms (inl (refl, refl)) h)
    ∙ score-heard 2 n
run_lab-played false n r h =
    let ms = arrivals (later_batches r.wire.inbox) in
    run_lab-tally n r
    ∙ ap (λ (g : Got). score_pass g (n + tail_count n))
        (tally-played n 1 [] ms (inr (refl, refl)) h)
    ∙ score-heard 1 n
