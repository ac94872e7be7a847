-- ===== src/Mtc/Echo.antt =====
-- The verdict of the time code lab on a line that returns what was sent.
use unitor_win64_driver.Base.{
  ℕ, suc, ◌+◌, ◌*◌, ◌≡◌, refl, ap, ◌∙◌, arith, Bool, true, false, List, [], ◌∷◌, ◌++◌, append_assoc,
  append-nil, Text, Bytes, codes, length, first_or, All, if◌then◌else◌, int_times_0_98-le,
}
use unitor_win64_driver.Midi.{Message, is_kind}
use unitor_win64_driver.Lab.{send, later_batches, arrivals, raws, Run, log, transmit, drain}
use unitor_win64_driver.Lab.Tally.{tally}
use unitor_win64_driver.Mtc.{
  full_frame, build_time_frames, Kind, qf, full, classify_msg, Got, empty_got, count_kind, receive,
  is_milestone, send_text, send_frames, send_qf_batch, send_full_frame, run_mtc_sequence, qf_need,
  score_pass, run_lab,
}
use unitor_win64_driver.Mtc.Frames.{
  IsQuarterFrame, build_time_frames-IsQuarterFrame, length-build_time_frames,
}
use unitor_win64_driver.Mtc.Score.{counted, run_lab-score_pass}

-- The frames of the flood, the full frame and the dense tail
abbrev pub played : ℕ → List Bytes
played n = build_time_frames n ++ full_frame ∷ build_time_frames 1

-- mido gives the type "quarter_frame" only to a message whose status is F1.
abbrev pub IsTyped : Message → Type 0
IsTyped m = is_kind "quarter_frame" m ≡ true → first_or 0 m.raw ≡ 0xF1

sent-logged :
    (b : Bool) (line : Text) (frame : Bytes) (r : Run Got)
    → (drain receive (if b then log line (transmit frame r) else transmit frame r)).wire.sent
      ≡ r.wire.sent ++ frame ∷ []
unfolding drain send
sent-logged true line frame r = refl
sent-logged false line frame r = refl

sent-send_frames :
    (label : Text) (milestones : Bool) (n index : ℕ) (frames : List Bytes) (r : Run Got)
    → (send_frames label milestones n index frames r).wire.sent ≡ r.wire.sent ++ frames
unfolding send_frames
sent-send_frames label milestones n index [] r = rw append-nil
sent-send_frames label milestones n index (frame ∷ frames) r =
    let logged =
      if is_milestone milestones index n
      then log (send_text label index n frame) (transmit frame r)
      else transmit frame r in
    sent-send_frames label milestones n (index + 1) frames (drain receive logged)
    ∙ ap (λ (l : List Bytes). l ++ frames)
        (sent-logged (is_milestone milestones index n) (send_text label index n frame) frame r)
    ∙ append_assoc r.wire.sent (frame ∷ []) frames

sent-run_mtc_sequence :
    (n : ℕ) (r : Run Got) → (run_mtc_sequence n r).0.wire.sent ≡ r.wire.sent ++ played n
unfolding run_mtc_sequence send_qf_batch send_full_frame drain send
sent-run_mtc_sequence n r =
    let qfs = build_time_frames n in
    let dense = build_time_frames 1 in
    rw
      (
        sent-send_frames (codes "dense_tail") false (length dense) 1 dense,
        sent-send_frames (codes "qf") true (length qfs) 1 qfs,
      )
      (simp append_assoc refl)

classify-quarter : (m : Message) → IsQuarterFrame m.raw → classify_msg m ≡ qf
unfolding classify_msg
classify-quarter m h = ground (arith, h.shape)

classify-full : (m : Message) → IsTyped m → m.raw ≡ full_frame → classify_msg m ≡ full
unfolding classify_msg
classify-full m t h = ground (arith, t, h)

tally-quarters :
    (frames : List Bytes) {rest : List Bytes} (g : Got) (ms : List Message)
    → All IsQuarterFrame frames
    → All IsTyped ms
    → raws ms ≡ frames ++ rest
    → (ns : List Message) × All IsTyped ns
      × (raws ns ≡ rest)
      × (tally counted g ms ≡ tally counted (record g { qf_count = g.qf_count + length frames }) ns)
tally-quarters [] g ms q t h =
    let e : g.qf_count + 0 ≡ g.qf_count = omega arith in (ms, t, h, rw e refl)
tally-quarters (f ∷ fs) g [] q t h = absurd (ground arith)
tally-quarters (f ∷ fs) g (m ∷ ms) q t h =
    let same : m.raw ≡ f = ground arith in
    let c = classify-quarter m (rw same q.0) in
    let (ns, t', e, r) = tally-quarters fs (count_kind qf g) ms q.1 t.1 (ground arith) in
    let a : g.qf_count + 1 + length fs ≡ g.qf_count + suc (length fs) = omega arith in
    (ns, t', e, ap (λ (k : Kind). tally counted (count_kind k g) ms) c ∙ rw a at r)

tally-none : (g : Got) (ms : List Message) → raws ms ≡ [] → tally counted g ms ≡ g
tally-none g [] h = refl
tally-none g (m ∷ ms) h = absurd (ground arith)

-- The counters when all has come back
abbrev returned : ℕ → Got
returned n = record { qf_count = n * 8 + 8; full_count = 1; other_count = 0 }

tally-tail :
    (g : Got) (ms : List Message)
    → All IsTyped ms
    → raws ms ≡ full_frame ∷ build_time_frames 1
    → tally counted g ms ≡ record g { qf_count = g.qf_count + 8; full_count = g.full_count + 1 }
tally-tail g [] t h = absurd (ground arith)
tally-tail g (m ∷ ms) t h =
    let c = classify-full m t.0 (ground arith) in
    let tail : raws ms ≡ build_time_frames 1 ++ [] = rw append-nil (ground arith) in
    let (ns, t', e, r) =
      tally-quarters (build_time_frames 1) (count_kind full g) ms
        (build_time_frames-IsQuarterFrame 1) t.1 tail in
    let eight : length (build_time_frames 1) ≡ 8 = length-build_time_frames 1 in
    ap (λ (k : Kind). tally counted (count_kind k g) ms) c
    ∙ (rw eight at r)
    ∙ tally-none (record g { qf_count = g.qf_count + 8; full_count = g.full_count + 1 }) ns e

tally-played :
    (n : ℕ) (ms : List Message)
    → All IsTyped ms
    → raws ms ≡ played n
    → tally counted empty_got ms ≡ returned n
tally-played n ms t h =
    let (ns, t', e, r) =
      tally-quarters (build_time_frames n) empty_got ms (build_time_frames-IsQuarterFrame n) t h in
    let count : 0 + length (build_time_frames n) + 8 ≡ n * 8 + 8 =
      omega (arith, length-build_time_frames n) in
    r
    ∙ tally-tail (record empty_got { qf_count = 0 + length (build_time_frames n) }) ns t' e
    ∙ rw count refl

score-returned : (n : ℕ) → score_pass (returned n) (n * 8 + 8) ≡ true
unfolding score_pass qf_need
score-returned n = ground (arith, int_times_0_98-le (n * 8 + 8))

-- If the line returns, behind the sanity probe, just what the lab sends, in whatever portions, and
-- mido calls no other status a quarter frame, the time code lab passes. What it sends are the quarter
-- frames of `time_frames` times, the full frame and the quarter frames of one more time.
pub run_lab-IsTyped :
    (time_frames : ℕ) (r : Run Got)
    → All IsTyped (arrivals (later_batches r.wire.inbox))
    → raws (arrivals (later_batches r.wire.inbox)) ≡ played time_frames
    → (run_lab time_frames r ≡ true)
      × ((run_mtc_sequence time_frames r).0.wire.sent ≡ r.wire.sent ++ played time_frames)
run_lab-IsTyped n r t h = (
  run_lab-score_pass n r
      ∙ ap (λ (g : Got). score_pass g (n * 8 + 8))
          (tally-played n (arrivals (later_batches r.wire.inbox)) t h)
      ∙ score-returned n,
  sent-run_mtc_sequence n r,
)
