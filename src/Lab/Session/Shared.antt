-- ===== src/Lab/Session/Shared.antt =====
-- The labs' own wait for the ports is the shared one, on the listings that the child prints.
use unitor_win64_driver.Base.{
  ℕ, ◌+◌, ◌≡◌, refl, Bool-cases, inl, inr, Option, none, some, List, [], ◌∷◌, Text, codes, Result,
  ok, err, ltb, All, ◌>>=◌,
}
use unitor_win64_driver.Ports
use unitor_win64_driver.Concurrent.Finder.{find_port_lem}
use unitor_win64_driver.Bridge
use unitor_win64_driver.Bridge.{ReadyPoll, ReadyError, both_named}
use unitor_win64_driver.Bridge.Listing.{returned, listing}
use unitor_win64_driver.Bridge.Fresh.{IsPortName, Differs, fresh_midi_port_names-listing}
use unitor_win64_driver.Bridge.Modes.{IsUnmarked, stress_port_names-listing}
use unitor_win64_driver.Lab.Session.{
  LabError, exited_early, enum_failed, ready_timeout, LabPoll, fresh_port_names, find_port,
  poll_found, or_later, ready_loop, wait_until_ready,
}

-- A round in which the child lists the ports
pub record Round : Type 0 where
  pub now : ℕ
  pub gone : Option ℕ
  pub outs : List Text
  pub inns : List Text

pub record IsListed (r : Round) : Type 0 where
  pub outs_named : All IsPortName r.outs
  pub inns_named : All IsPortName r.inns
  pub outs_unmarked : All IsUnmarked r.outs
  pub inns_unmarked : All IsUnmarked r.inns

abbrev pub lab_polls : List Round → List LabPoll
lab_polls [] = []
lab_polls (r ∷ rs) =
    record { now = r.now; gone = r.gone; code = 0; stdout = listing r.outs r.inns } ∷ lab_polls rs

abbrev pub ready_polls : List Round → List ReadyPoll
ready_polls [] = []
ready_polls (r ∷ rs) =
    record { now = r.now; gone = r.gone; enumerated = returned 0 (listing r.outs r.inns) }
    ∷ ready_polls rs

-- The same error in the labs' own terms
abbrev pub lab_error : ReadyError → LabError
lab_error (Bridge.exited_early code) = exited_early code
lab_error (Bridge.enum_failed e) = enum_failed
lab_error Bridge.ready_timeout = ready_timeout

abbrev pub as_lab :
    Option (Result ReadyError (Text × Text)) → Option (Result LabError (Text × Text))
as_lab none = none
as_lab (some (err e)) = some (err (lab_error e))
as_lab (some (ok names)) = some (ok names)

unmarked-in : (names : List Text) → All IsUnmarked names → All (Differs (codes "IN")) names
unmarked-in [] h = tt
unmarked-in (n ∷ ns) h = (h.0.1, unmarked-in ns h.1)

named-as_lab :
    (names : Option (Text × Text))
    → (names >>= λ (n : Text × Text). some (ok n))
      ≡ as_lab (names >>= λ (n : Text × Text). some (ok n))
named-as_lab none = refl
named-as_lab (some n) = refl

fresh_port_names-listing :
    (r : Round) → IsListed r → fresh_port_names 0 (listing r.outs r.inns) ≡ some (r.outs, r.inns)
unfolding fresh_port_names
fresh_port_names-listing r h =
    stress_port_names-listing r.outs r.inns h.outs_named h.inns_named h.outs_unmarked
      h.inns_unmarked

find_port-shared :
    (names : List Text) (needle : Text) → find_port names needle ≡ Ports.find_port names needle
unfolding find_port
find_port-shared names needle = find_port_lem names needle

module _ (out_needle in_needle : Text) where
  abbrev lab_round : Round → Option ℕ → Option (Result LabError (Text × Text))
  lab_round r gone =
      poll_found out_needle in_needle
        (record { now = r.now; gone = gone; code = 0; stdout = listing r.outs r.inns }) gone

  abbrev shared_round : Round → Option ℕ → Option (Result ReadyError (Text × Text))
  shared_round r gone =
      Bridge.poll_round out_needle in_needle
        (record { now = r.now; gone = gone; enumerated = returned 0 (listing r.outs r.inns) })

  round-shared :
      (r : Round) (gone : Option ℕ) → IsListed r → lab_round r gone ≡ as_lab (shared_round r gone)
  unfolding Bridge.poll_round
  round-shared r (some code) h = refl
  round-shared r none h =
      rw
        (
          fresh_port_names-listing r h,
          fresh_midi_port_names-listing r.outs r.inns h.outs_named h.inns_named
              (unmarked-in r.outs h.outs_unmarked),
          find_port-shared r.outs out_needle,
          find_port-shared r.inns in_needle,
        )
        (named-as_lab
          (both_named (Ports.find_port r.outs out_needle) (Ports.find_port r.inns in_needle)))

  or_later-shared :
      (found : Option (Result ReadyError (Text × Text)))
      (lab : Option (Result LabError (Text × Text)))
      (rest : Option (Result ReadyError (Text × Text)))
      → lab ≡ as_lab rest
      → or_later (as_lab found) lab
        ≡ as_lab (elim found as (λ x. Option (Result ReadyError (Text × Text))) [
          | none ↦ rest
          | some r ↦ some r
        ])
  or_later-shared none lab rest e = e
  or_later-shared (some (err x)) lab rest e = refl
  or_later-shared (some (ok names)) lab rest e = refl

  ready_loop-shared :
      (deadline : ℕ) (rs : List Round)
      → All IsListed rs
      → ready_loop out_needle in_needle deadline (lab_polls rs)
        ≡ as_lab (Bridge.ready_loop out_needle in_needle deadline (ready_polls rs))
  unfolding ready_loop Bridge.ready_loop
  ready_loop-shared deadline [] h = refl
  ready_loop-shared deadline (r ∷ rs) h = elim (Bool-cases (ltb r.now deadline)) [
    | inr f ↦ rw f refl
    | inl t ↦
        rw (t, round-shared r r.gone h.0)
          (or_later-shared (shared_round r r.gone) _ _ (ready_loop-shared deadline rs h.1))
  ]

  -- Where in every round the child lists ports whose names have a character that is no space, no line
  -- break, and are none of its two marks, the wait of the labs and the shared wait come to the same:
  -- the same two ports, the same exit code or the timeout, after the same rounds.
  pub wait_until_ready-shared :
      (started timeout : ℕ) (rs : List Round)
      → All IsListed rs
      → wait_until_ready out_needle in_needle started timeout (lab_polls rs)
        ≡ as_lab (Bridge.wait_until_ready out_needle in_needle started timeout (ready_polls rs))
  unfolding wait_until_ready Bridge.wait_until_ready
  wait_until_ready-shared started timeout rs h = ready_loop-shared (started + timeout) rs h
