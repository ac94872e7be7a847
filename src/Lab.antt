-- ===== src/Lab.antt =====
-- What the loopback labs under scripts/lab share: the MIDI line that they send to and read from,
-- and the reading of what has arrived. A lab brings the type `G` of its counters and its `receive`.
pub mod Tally
pub mod Session
use unitor_win64_driver.Base.{List, [], ◌∷◌, ◌++◌, Text, Bytes}
use unitor_win64_driver.Midi.{Message}

-- A recording of the line: what was sent so far, and what each later `iter_pending` will yield.
-- When the recording has no batch left, nothing is pending.
pub record Wire : Type 0 where
  pub sent : List Bytes
  pub inbox : List (List Message)

-- `outport.send(...)`
unfoldable pub send : Bytes → Wire → Wire
send raw w = record w { sent = w.sent ++ raw ∷ [] }

abbrev pub first_batch : List (List Message) → List Message
first_batch [] = []
first_batch (batch ∷ batches) = batch

abbrev pub later_batches : List (List Message) → List (List Message)
later_batches [] = []
later_batches (batch ∷ batches) = batches

-- All that the batches hold, in order
abbrev pub arrivals : List (List Message) → List Message
arrivals [] = []
arrivals (batch ∷ batches) = batch ++ arrivals batches

-- `bytes(msg.bytes())` of each message
abbrev pub raws : List Message → List Bytes
raws [] = []
raws (m ∷ ms) = m.raw ∷ raws ms

pub record RecvState (G : Type 0) : Type 0 where
  pub got : G
  pub samples : List Text
  pub lines : List Text

-- The lab's state with the line
pub record Run (G : Type 0) : Type 0 where
  pub wire : Wire
  pub state : RecvState G

module _ {G : Type 0} where
  -- `lines.append(line)`
  abbrev pub log : Text → Run G → Run G
  log line r = record r { state = record r.state { lines = r.state.lines ++ line ∷ [] } }

  abbrev pub transmit : Bytes → Run G → Run G
  transmit raw r = record r { wire = send raw r.wire }

  module _ (receive : RecvState G → Message → RecvState G) where
    unfoldable pub drain_pending : List Message → RecvState G → RecvState G
    drain_pending [] s = s
    drain_pending (m ∷ ms) s = drain_pending ms (receive s m)

    -- `_drain_pending` on the port: the next batch
    unfoldable pub drain : Run G → Run G
    drain r = record {
      wire = record r.wire { inbox = later_batches r.wire.inbox };
      state = drain_pending (first_batch r.wire.inbox) r.state;
    }

    -- `_settle_recv`: the polls up to its deadline take what the recording has left.
    unfoldable pub settle_recv : List (List Message) → RecvState G → RecvState G
    unfolding drain_pending
    settle_recv [] s = s
    settle_recv (batch ∷ batches) s = settle_recv batches (drain_pending batch s)
