-- ===== src/Lab/Tally.antt =====
-- Counting what arrives: however the messages are spread over the polls, the counters are the same.
use unitor_win64_driver.Base.{
  ◌≡◌, refl, sym, ap, ◌∙◌, Bool, true, false, if◌then◌else◌, List, [], ◌∷◌, ◌++◌, Text, Bytes,
}
use unitor_win64_driver.Midi.{Message}
use unitor_win64_driver.Lab.{
  send, first_batch, later_batches, arrivals, RecvState, Run, log, transmit, drain_pending, drain,
  settle_recv,
}

module _ {G : Type 0} (count : Message → G → G) where
  -- The counters after more messages
  abbrev pub tally : G → List Message → G
  tally g [] = g
  tally g (m ∷ ms) = tally (count m g) ms

  pub tally-append : (g : G) (ms ns : List Message) → tally g (ms ++ ns) ≡ tally (tally g ms) ns
  tally-append g [] ns = refl
  tally-append g (m ∷ ms) ns = tally-append (count m g) ms ns

  -- What the counters will be when all that the recording holds has arrived
  abbrev pub total : Run G → G
  total r = tally r.state.got (arrivals r.wire.inbox)

  arrivals_split :
      (g : G) (batches : List (List Message))
      → tally g (arrivals batches)
        ≡ tally (tally g (first_batch batches)) (arrivals (later_batches batches))
  arrivals_split g [] = refl
  arrivals_split g (batch ∷ batches) = tally-append g batch (arrivals batches)

  -- Sending and logging receive nothing.
  pub total-logged :
      (b : Bool) (line : Text) (frame : Bytes) (r : Run G)
      → total (if b then log line (transmit frame r) else transmit frame r) ≡ total r
  unfolding send
  total-logged true line frame r = refl
  total-logged false line frame r = refl

  module _ (receive : RecvState G → Message → RecvState G)
      (receive_counts : (s : RecvState G) (m : Message) → (receive s m).got ≡ count m s.got) where
    pub got-drain_pending :
        (ms : List Message) (s : RecvState G) → (drain_pending receive ms s).got ≡ tally s.got ms
    unfolding drain_pending
    got-drain_pending [] s = refl
    got-drain_pending (m ∷ ms) s =
        got-drain_pending ms (receive s m) ∙ ap (λ (g : G). tally g ms) (receive_counts s m)

    pub total-drain : (r : Run G) → total (drain receive r) ≡ total r
    unfolding drain
    total-drain r =
        ap (λ (g : G). tally g (arrivals (later_batches r.wire.inbox)))
          (got-drain_pending (first_batch r.wire.inbox) r.state)
        ∙ sym (arrivals_split r.state.got r.wire.inbox)

    pub got-settle_recv :
        (batches : List (List Message)) (s : RecvState G)
        → (settle_recv receive batches s).got ≡ tally s.got (arrivals batches)
    unfolding settle_recv
    got-settle_recv [] s = refl
    got-settle_recv (batch ∷ batches) s =
        got-settle_recv batches (drain_pending receive batch s)
        ∙ ap (λ (g : G). tally g (arrivals batches)) (got-drain_pending batch s)
        ∙ sym (tally-append s.got batch (arrivals batches))
