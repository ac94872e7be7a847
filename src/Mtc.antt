-- ===== src/Mtc.antt =====
-- The MIDI time code loopback of scripts/lab/mtc-loopback-lab.py.
pub mod Frames
pub mod Score
pub mod Echo
use unitor_win64_driver.Base.{
  ℕ, zero, suc, ◌+◌, ◌-◌, ◌*◌, ◌%◌, Bool, true, false, ◌&&◌, ◌||◌, List, [], ◌∷◌, ◌++◌, max, Text,
  Bytes, codes, decimal, ltb, leb, ◌==◌, if◌then◌else◌, length, first_or, equal, int_times_0_98,
}
use unitor_win64_driver.Midi.{Message, is_kind}
use unitor_win64_driver.Midi.Hex.{joined_hex}
use unitor_win64_driver.Lab.{RecvState, Run, log, transmit, drain_pending, drain, settle_recv}

abbrev pub full_frame_inner : Bytes
full_frame_inner = 0x7F ∷ 0x7F ∷ 0x01 ∷ 0x01 ∷ 0x20 ∷ 0x15 ∷ 0x30 ∷ 0x10 ∷ []

abbrev pub full_frame : Bytes
full_frame = 0xF0 ∷ (full_frame_inner ++ 0xF7 ∷ [])

-- The bits of `((frame_type & 0x7) << 4) | (nibble & 0x0F)` do not overlap, so they add up.
unfoldable pub quarter_frame_bytes : ℕ → ℕ → Bytes
quarter_frame_bytes frame_type nibble = 0xF1 ∷ (frame_type % 8 * 16 + nibble % 16) ∷ []

abbrev pub nibbles : List ℕ
nibbles = 0x4 ∷ 0x0 ∷ 0x3 ∷ 0x0 ∷ 0x2 ∷ 0x0 ∷ 0x1 ∷ 0x1 ∷ []

-- `for frame_type, nibble in enumerate(nibbles)`
unfoldable pub frames_of_nibbles : ℕ → List ℕ → List Bytes
frames_of_nibbles frame_type [] = []
frames_of_nibbles frame_type (nibble ∷ ns) =
    quarter_frame_bytes frame_type nibble ∷ frames_of_nibbles (frame_type + 1) ns

unfoldable pub build_time_frames : ℕ → List Bytes
unfolding frames_of_nibbles
build_time_frames zero = []
build_time_frames (suc count) = frames_of_nibbles 0 nibbles ++ build_time_frames count

pub data Kind : Type 0 where
  qf full other : Kind

abbrev kind_text : Kind → Text
kind_text qf = codes "qf"
kind_text full = codes "full"
kind_text other = codes "other"

unfoldable pub classify_msg : Message → Kind
classify_msg m =
    if is_kind "quarter_frame" m || (length m.raw == 2 && first_or 0 m.raw == 0xF1)
    then qf
    else if is_kind "sysex" m && equal m.payload full_frame_inner
    then full
    else if equal m.raw full_frame
    then full
    else other

-- The counters of the dict `got`
pub record Got : Type 0 where
  pub qf_count : ℕ
  pub full_count : ℕ
  pub other_count : ℕ

abbrev pub empty_got : Got
empty_got = record { qf_count = 0; full_count = 0; other_count = 0 }

abbrev pub count_kind : Kind → Got → Got
count_kind qf g = record g { qf_count = g.qf_count + 1 }
count_kind full g = record g { full_count = g.full_count + 1 }
count_kind other g = record g { other_count = g.other_count + 1 }

abbrev sample_text : Message → Text
sample_text m = codes "RECV " ++ (kind_text (classify_msg m) ++ (b' ' ∷ joined_hex m.raw))

unfoldable pub receive : RecvState Got → Message → RecvState Got
receive s m = record s {
  got = count_kind (classify_msg m) s.got;
  samples = if ltb (length s.samples) 12 then s.samples ++ sample_text m ∷ [] else s.samples;
}

abbrev is_milestone : Bool → ℕ → ℕ → Bool
is_milestone log_milestones index total =
    log_milestones && (index == 1 || index == total || index % 8 == 0)

abbrev send_text : Text → ℕ → ℕ → Bytes → Text
send_text label index total frame =
    codes "SEND "
    ++ (label ++ (b' ' ∷ (decimal index ++ (b'/' ∷ (decimal total ++ (b' ' ∷ joined_hex frame))))))

-- The loop of `_send_qf_batch` from `index` on
unfoldable pub send_frames : Text → Bool → ℕ → ℕ → List Bytes → Run Got → Run Got
send_frames label log_milestones total index [] r = r
send_frames label log_milestones total index (frame ∷ frames) r =
    let sent = transmit frame r in
    let logged =
      if is_milestone log_milestones index total
      then log (send_text label index total frame) sent
      else sent in
    send_frames label log_milestones total (index + 1) frames (drain receive logged)

unfoldable pub send_qf_batch : Text → Bool → List Bytes → Run Got → Run Got
unfolding send_frames
send_qf_batch label log_milestones frames r =
    send_frames label log_milestones (length frames) 1 frames r

unfoldable pub send_full_frame : Run Got → Run Got
send_full_frame r =
    drain receive (transmit full_frame (log (codes "SEND full_frame " ++ joined_hex full_frame) r))

abbrev note_on : Bytes
note_on = 0x90 ∷ 60 ∷ 64 ∷ []

-- The probe counts apart, and shares the lists `samples` and `lines` with the state.
unfoldable pub sanity_note_on : Run Got → Run Got
sanity_note_on r =
    let probe = record (transmit note_on r) { state = record r.state { got = empty_got } } in
    let heard = drain receive probe in
    let line = codes "sanity_note_on other_recv=" ++ decimal heard.state.got.other_count in
    record heard {
      state = record heard.state { got = r.state.got; lines = heard.state.lines ++ line ∷ [] };
    }

-- The run so far, and the number of quarter frames that it expects back
unfoldable pub run_mtc_sequence : ℕ → Run Got → Run Got × ℕ
unfolding send_qf_batch send_full_frame build_time_frames
run_mtc_sequence time_frames r =
    let qf_send = build_time_frames time_frames in
    let dense = build_time_frames 1 in
    let flood = send_qf_batch (codes "qf") true qf_send r in
    let tail = send_qf_batch (codes "dense_tail") false dense (send_full_frame flood) in
    (
      log (codes "SEND dense_tail qf=+" ++ decimal (length dense)) tail,
      length qf_send + length dense,
    )

unfoldable pub qf_need : ℕ → ℕ
qf_need expected_qf = max 1 (int_times_0_98 expected_qf)

-- The verdict of `_score_pass`, without the two lines that it logs
unfoldable pub score_pass : Got → ℕ → Bool
score_pass got expected_qf = leb (qf_need expected_qf) got.qf_count && leb 1 got.full_count

-- `_run_lab` between the opening of the ports and the score
unfoldable pub run_lab : ℕ → Run Got → Bool
unfolding sanity_note_on run_mtc_sequence score_pass
run_lab time_frames r =
    let probed = sanity_note_on r in
    let cleared = record probed { state = record probed.state { got = empty_got } } in
    let (played, expected_qf) = run_mtc_sequence time_frames cleared in
    score_pass (settle_recv receive played.wire.inbox played.state).got expected_qf
