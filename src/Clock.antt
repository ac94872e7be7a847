-- ===== src/Clock.antt =====
-- The MIDI clock loopback of scripts/lab/midi-clock-loopback-lab.py.
pub mod Score
pub mod Transport
use unitor_win64_driver.Base.{
  ℕ, zero, suc, ◌+◌, ◌/◌, Bool, true, false, ◌&&◌, ◌||◌, Option, none, some, List, [], ◌∷◌, ◌++◌,
  max, min, Text, Bytes, codes, decimal, ltb, leb, ◌==◌, if◌then◌else◌, length, int_times_0_98,
}
use unitor_win64_driver.Midi.{Message, is_kind}
use unitor_win64_driver.Midi.Hex.{joined_hex}
use unitor_win64_driver.Lab.{RecvState, Run, log, transmit, drain, settle_recv}

pub data Kind : Type 0 where
  clock start continue stop other : Kind

abbrev pub kind_text : Kind → Text
kind_text clock = codes "clock"
kind_text start = codes "start"
kind_text continue = codes "continue"
kind_text stop = codes "stop"
kind_text other = codes "other"

-- `REALTIME_STATUS`
unfoldable pub realtime_status : ℕ → Option Kind
realtime_status status =
    if status == 0xF8
    then some clock
    else if status == 0xFA
    then some start
    else if status == 0xFB
    then some continue
    else if status == 0xFC
    then some stop
    else none

-- `len(raw) == 1 and raw[0] in REALTIME_STATUS`
abbrev pub by_status : Bytes → Option Kind
by_status (status ∷ []) = realtime_status status
by_status _ = none

abbrev by_type : Message → Kind
by_type m =
    if is_kind "clock" m
    then clock
    else if is_kind "start" m
    then start
    else if is_kind "continue" m
    then continue
    else if is_kind "stop" m
    then stop
    else other

unfoldable pub classify_msg : Message → Kind
classify_msg m = elim (by_status m.raw) [ none ↦ by_type m | some kind ↦ kind ]

-- The counters of the dict `got`
pub record Got : Type 0 where
  pub clock_count : ℕ
  pub start_count : ℕ
  pub continue_count : ℕ
  pub stop_count : ℕ
  pub other_count : ℕ

abbrev pub empty_got : Got
empty_got = record {
  clock_count = 0;
  start_count = 0;
  continue_count = 0;
  stop_count = 0;
  other_count = 0;
}

abbrev pub count_kind : Kind → Got → Got
count_kind clock g = record g { clock_count = g.clock_count + 1 }
count_kind start g = record g { start_count = g.start_count + 1 }
count_kind continue g = record g { continue_count = g.continue_count + 1 }
count_kind stop g = record g { stop_count = g.stop_count + 1 }
count_kind other g = record g { other_count = g.other_count + 1 }

abbrev sample_text : Message → Text
sample_text m = codes "RECV " ++ (kind_text (classify_msg m) ++ (b' ' ∷ joined_hex m.raw))

-- One round of the loop of `_drain_pending`
unfoldable pub receive : RecvState Got → Message → RecvState Got
receive s m = record s {
  got = count_kind (classify_msg m) s.got;
  samples = if ltb (length s.samples) 48 then s.samples ++ sample_text m ∷ [] else s.samples;
}

unfoldable pub send_status : ℕ → Text → Run Got → Run Got
send_status status label r =
    log (codes "SEND " ++ (label ++ (b' ' ∷ joined_hex (status ∷ [])))) (transmit (status ∷ []) r)

abbrev pub logs_clock : Bool → ℕ → ℕ → Bool
logs_clock log_mid index count =
    index == 1 || index == count || (log_mid && index == max 1 (count / 2))

abbrev pub clock_text : Text → ℕ → ℕ → Text
clock_text label index count =
    codes "SEND " ++ (label ++ (b' ' ∷ (decimal index ++ (b'/' ∷ (decimal count ++ codes " F8")))))

-- `left` rounds of the loop of `_send_clock_batch`, from `index` on
unfoldable pub send_clocks : Text → Bool → ℕ → ℕ → ℕ → Run Got → Run Got
send_clocks label log_mid count index zero r = r
send_clocks label log_mid count index (suc left) r =
    let sent = transmit (0xF8 ∷ []) r in
    let logged =
      if logs_clock log_mid index count then log (clock_text label index count) sent else sent in
    send_clocks label log_mid count (index + 1) left (drain receive logged)

unfoldable pub send_clock_batch : Text → Bool → ℕ → Run Got → Run Got
unfolding send_clocks
send_clock_batch label log_mid count r = send_clocks label log_mid count 1 count r

abbrev note_on : Bytes
note_on = 0x90 ∷ 60 ∷ 64 ∷ []

-- The probe counts apart, and shares the lists `samples` and `lines` with the state.
unfoldable pub sanity_note_on : Run Got → Run Got
sanity_note_on r =
    let probe = record (transmit note_on r) { state = record r.state { got = empty_got } } in
    let heard = drain receive probe in
    let line = codes "sanity_note_on other_recv=" ++ decimal heard.state.got.other_count in
    record heard {
      state = record heard.state { got = r.state.got; lines = heard.state.lines ++ line ∷ [] };
    }

abbrev pub tail_count : ℕ → ℕ
tail_count expected_clock = min 24 (max 8 (expected_clock / 8))

-- The run so far, and the number of clocks that it expects back
unfoldable pub run_transport_sequence : ℕ → Run Got → Run Got × ℕ
unfolding send_status send_clock_batch
run_transport_sequence clock_count r =
    let started = drain receive (send_status 0xFA (codes "start") r) in
    let clocked = send_clock_batch (codes "clock") true clock_count started in
    let stopped = drain receive (send_status 0xFC (codes "stop") clocked) in
    let continued = drain receive (send_status 0xFB (codes "continue") stopped) in
    let tail = tail_count clock_count in
    let tailed = send_clock_batch (codes "clock_tail") false tail continued in
    let logged = log (codes "SEND clock_tail count=+" ++ decimal tail) tailed in
    (drain receive (send_status 0xFC (codes "stop") logged), clock_count + tail)

unfoldable pub clock_need : ℕ → ℕ
clock_need expected_clock = max 1 (int_times_0_98 expected_clock)

-- The verdict of `_score_pass`, without the two lines that it logs
unfoldable pub score_pass : Got → ℕ → Bool
score_pass got expected_clock =
    leb (clock_need expected_clock) got.clock_count
    && leb 1 got.start_count
    && leb 1 got.continue_count
    && leb 2 got.stop_count

-- `_run_lab` between the opening of the ports and the score
unfoldable pub run_lab : ℕ → Run Got → Bool
unfolding sanity_note_on run_transport_sequence score_pass
run_lab clock_count r =
    let probed = sanity_note_on r in
    let cleared = record probed { state = record probed.state { got = empty_got } } in
    let (played, expected_clock) = run_transport_sequence clock_count cleared in
    score_pass (settle_recv receive played.wire.inbox played.state).got expected_clock
