-- ===== src/Bridge/Ready.antt =====
-- When the wait for the ports ends, and with what.
use unitor_win64_driver.Base.{
  ℕ, ◌+◌, ◌≤◌, ◌≡◌, refl, sym, ◌∙◌, true, false, Bool-cases, Option-cases, inl, inr, Option, none,
  some, List, [], ◌∷◌, ◌≢◌, ◌⊎◌, arith, Text, Result, ok, err, ltb,
}
use unitor_win64_driver.Ports.{find_port}
use unitor_win64_driver.Bridge.Listing.{FreshError, fresh_midi_port_names}
use unitor_win64_driver.Bridge.{
  ReadyPoll, ReadyError, exited_early, enum_failed, ready_timeout, both_named, look_up, poll_round,
  ready_loop, wait_until_ready,
}

abbrev pub Ended : Type 0
Ended = Result ReadyError (Text × Text)

-- Some poll comes at or after the deadline.
pub data Expires (deadline : ℕ) : List ReadyPoll → Type 0 where
  now : {p : ReadyPoll} {ps : List ReadyPoll} → deadline ≤ p.now → Expires deadline (p ∷ ps)
  later : {p : ReadyPoll} {ps : List ReadyPoll} → Expires deadline ps → Expires deadline (p ∷ ps)

-- A port that is not found, or one without a name
pub data Missing : Option Text → Type 0 where
  unfound : Missing none
  unnamed : Missing (some [])

-- What ends the wait: in some poll before the deadline, with none before it in which the bridge has
-- gone, the enumeration fails or both ports are there, one of these three is the case; or in all
-- polls up to the deadline the bridge is alive, the enumeration succeeds and some port is missing.
pub data Waits (out_needle in_needle : Text) (deadline : ℕ) : List ReadyPoll → Ended → Type 0 where
  gone :
      {p : ReadyPoll} {ps : List ReadyPoll} {code : ℕ}
      → ltb p.now deadline ≡ true
      → p.gone ≡ some code
      → Waits out_needle in_needle deadline (p ∷ ps) (err (exited_early code))
  failed :
      {p : ReadyPoll} {ps : List ReadyPoll} {e : FreshError}
      → ltb p.now deadline ≡ true
      → p.gone ≡ none
      → fresh_midi_port_names p.enumerated ≡ err e
      → Waits out_needle in_needle deadline (p ∷ ps) (err (enum_failed e))
  found :
      {p : ReadyPoll} {ps : List ReadyPoll} {outs inns : List Text} {out inn : Text}
      → ltb p.now deadline ≡ true
      → p.gone ≡ none
      → fresh_midi_port_names p.enumerated ≡ ok (outs, inns)
      → find_port outs out_needle ≡ some out
      → find_port inns in_needle ≡ some inn
      → out ≢ []
      → inn ≢ []
      → Waits out_needle in_needle deadline (p ∷ ps) (ok (out, inn))
  open_ :
      {p : ReadyPoll} {ps : List ReadyPoll} {outs inns : List Text} {r : Ended}
      → ltb p.now deadline ≡ true
      → p.gone ≡ none
      → fresh_midi_port_names p.enumerated ≡ ok (outs, inns)
      → Missing (find_port outs out_needle) ⊎ Missing (find_port inns in_needle)
      → Waits out_needle in_needle deadline ps r
      → Waits out_needle in_needle deadline (p ∷ ps) r
  late :
      {p : ReadyPoll} {ps : List ReadyPoll}
      → ltb p.now deadline ≡ false
      → Waits out_needle in_needle deadline (p ∷ ps) (err ready_timeout)

module _ (out_needle in_needle : Text) (deadline : ℕ) where
  both_named-found :
      (o i : Option Text) {out inn : Text}
      → both_named o i ≡ some (out, inn)
      → (o ≡ some out) × (i ≡ some inn) × (out ≢ []) × (inn ≢ [])
  both_named-found none i h = cc
  both_named-found (some a) none h = cc
  both_named-found (some []) (some b) h = cc
  both_named-found (some (a ∷ outs)) (some []) h = cc
  both_named-found (some (a ∷ outs)) (some (b ∷ inns)) h = ground arith

  both_named-Missing : (o i : Option Text) → both_named o i ≡ none → Missing o ⊎ Missing i
  both_named-Missing none i h = inl unfound
  both_named-Missing (some a) none h = inr unfound
  both_named-Missing (some []) (some b) h = inl unnamed
  both_named-Missing (some (a ∷ outs)) (some []) h = inr unnamed
  both_named-Missing (some (a ∷ outs)) (some (b ∷ inns)) h = cc

  abbrev round : ReadyPoll → Option Ended
  round = poll_round out_needle in_needle

  round-gone :
      (p : ReadyPoll) (code : ℕ) → p.gone ≡ some code → round p ≡ some (err (exited_early code))
  unfolding poll_round
  round-gone p code e = rw (e, poll_round) refl

  round-looked :
      (p : ReadyPoll) (f : Result FreshError (List Text × List Text))
      → p.gone ≡ none
      → fresh_midi_port_names p.enumerated ≡ f
      → round p ≡ look_up out_needle in_needle f
  unfolding poll_round
  round-looked p f e q = rw (e, poll_round) (rw q refl)

  looked :
      (p : ReadyPoll) (ps : List ReadyPoll) (r : Ended)
      (f : Result FreshError (List Text × List Text))
      → ltb p.now deadline ≡ true
      → p.gone ≡ none
      → fresh_midi_port_names p.enumerated ≡ f
      → look_up out_needle in_needle f ≡ some r
      → Waits out_needle in_needle deadline (p ∷ ps) r
  looked p ps r (err e) t n q h =
      let same : err (enum_failed e) ≡ r = cc in rw (← same) (failed t n q)
  looked p ps r (ok (outs, inns)) t n q h =
      elim (Option-cases (both_named (find_port outs out_needle) (find_port inns in_needle))) [
        | inl z ↦ absurd (ground arith)
        | inr ((out, inn), z) ↦
            let same : ok (out, inn) ≡ r = ground arith in
            let (o, i, a, b) =
              both_named-found (find_port outs out_needle) (find_port inns in_needle) z in
            rw (← same) (found t n q o i a b)
      ]

  decided :
      (p : ReadyPoll) (ps : List ReadyPoll) (r : Ended)
      → ltb p.now deadline ≡ true
      → round p ≡ some r
      → Waits out_needle in_needle deadline (p ∷ ps) r
  decided p ps r t h = elim (Option-cases p.gone) [
    | inr (code, e) ↦
        let same : err (exited_early code) ≡ r = cc (round-gone p code e) in rw (← same) (gone t e)
    | inl n ↦
        let f = fresh_midi_port_names p.enumerated in
        looked p ps r f t n refl (sym (round-looked p f n refl) ∙ h)
  ]

  left_open :
      (p : ReadyPoll) (ps : List ReadyPoll) (r : Ended)
      (f : Result FreshError (List Text × List Text))
      → ltb p.now deadline ≡ true
      → p.gone ≡ none
      → fresh_midi_port_names p.enumerated ≡ f
      → look_up out_needle in_needle f ≡ none
      → Waits out_needle in_needle deadline ps r
      → Waits out_needle in_needle deadline (p ∷ ps) r
  left_open p ps r (err e) t n q h w = cc
  left_open p ps r (ok (outs, inns)) t n q h w =
      elim (Option-cases (both_named (find_port outs out_needle) (find_port inns in_needle))) [
        | inr (names, z) ↦ absurd (ground arith)
        | inl z ↦
            open_ t n q
              (both_named-Missing (find_port outs out_needle) (find_port inns in_needle) z) w
      ]

  undecided :
      (p : ReadyPoll) (ps : List ReadyPoll) (r : Ended)
      → ltb p.now deadline ≡ true
      → round p ≡ none
      → Waits out_needle in_needle deadline ps r
      → Waits out_needle in_needle deadline (p ∷ ps) r
  undecided p ps r t h w = elim (Option-cases p.gone) [
    | inr (code, e) ↦ cc (round-gone p code e)
    | inl n ↦
        let f = fresh_midi_port_names p.enumerated in
        left_open p ps r f t n refl (sym (round-looked p f n refl) ∙ h) w
  ]

  ready_loop-Waits :
      {polls : List ReadyPoll}
      → Expires deadline polls
      → (r : Ended) × (ready_loop out_needle in_needle deadline polls ≡ some r)
        × Waits out_needle in_needle deadline polls r
  unfolding ready_loop
  ready_loop-Waits (now {p} {ps} h) =
      let t : ltb p.now deadline ≡ false = ground arith in (err ready_timeout, rw t refl, late t)
  ready_loop-Waits (later {p} {ps} e) = elim (Bool-cases (ltb p.now deadline)) [
    | inr t ↦ (err ready_timeout, rw t refl, late t)
    | inl t ↦ elim (Option-cases (poll_round out_needle in_needle p)) [
      | inr (r, q) ↦ (r, rw (t, q) refl, decided p ps r t q)
      | inl q ↦ let (r, x, w) = ready_loop-Waits e in (r, rw (t, q) x, undecided p _ r t q w)
    ]
  ]

-- If some poll comes at or after the deadline, the wait ends. It ends with the first poll before
-- the deadline in which the bridge has gone, the enumeration fails, or both ports are there, the
-- first of these that is the case; and with the timeout if in every poll before the deadline the
-- bridge is alive, the enumeration succeeds and a port is missing.
pub wait_until_ready-Waits :
    (out_needle in_needle : Text) (started timeout : ℕ) {polls : List ReadyPoll}
    → Expires (started + timeout) polls
    → (r : Ended) × (wait_until_ready out_needle in_needle started timeout polls ≡ some r)
      × Waits out_needle in_needle (started + timeout) polls r
unfolding wait_until_ready
wait_until_ready-Waits out_needle in_needle started timeout e =
    ready_loop-Waits out_needle in_needle (started + timeout) e
