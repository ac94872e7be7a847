-- ===== src/Sessions/Long/Budget.antt =====
-- The wall budget of a run of MIDI-only sessions.
use unitor_win64_driver.Base.{
  ℕ, zero, suc, ◌≡◌, refl, ap, ◌∙◌, Bool, true, false, Bool-cases, inl, inr, ◌&&◌, ◌||◌, Option,
  some, List, [], ◌∷◌, arith, length, All, any, take, if◌then◌else◌,
}
use unitor_win64_driver.Sessions.{is_zero}
use unitor_win64_driver.Sessions.Long.{
  exit_aborted, is_aborted, return_code, check_wall_deadline, finish_status, Verdict, out_of_time,
  after_session, Session, midi_sessions, run_fresh_midi_sessions,
}

abbrev pub all_zero : List Session → Bool
all_zero [] = true
all_zero (s ∷ ss) = is_zero (return_code s.child) && all_zero ss

and_true_assoc : (a b c : Bool) → ((a && (b && true)) && c) ≡ (a && (b && c))
and_true_assoc a b c = ground arith

module _ (deadline : Option ℕ) where
  -- A session ends the run if its test comes too late, or its child aborts.
  abbrev pub ends_run : Session → Bool
  ends_run s = check_wall_deadline deadline s.clock || is_aborted (return_code s.child)

  abbrev pub sessions_status : List Session → ℕ
  sessions_status ss = if any ends_run ss then exit_aborted else if all_zero ss then 0 else 2

  abbrev pub IsTimely : Session → Type 0
  IsTimely s = check_wall_deadline deadline s.clock ≡ false

  abbrev status_behind : Bool → List Session → ℕ
  status_behind overall_ok ss =
      if any ends_run ss then exit_aborted else if overall_ok && all_zero ss then 0 else 2

  status_behind-next :
      (s : Session) (ss : List Session) (overall_ok : Bool)
      → check_wall_deadline deadline s.clock ≡ false
      → is_aborted (return_code s.child) ≡ false
      → status_behind (after_session (return_code s.child) false overall_ok).overall_ok ss
        ≡ status_behind overall_ok (s ∷ ss)
  status_behind-next s ss overall_ok early g =
      rw (early, g)
        (ap (λ (b : Bool). if any ends_run ss then exit_aborted else if b then 0 else 2)
          (and_true_assoc overall_ok (is_zero (return_code s.child)) (all_zero ss)))

  midi_sessions-status :
      (n : ℕ) (ss : List Session) (overall_ok : Bool)
      → length ss ≡ n
      → (v : Verdict) × (k : ℕ) × (midi_sessions deadline n ss overall_ok ≡ some (v, k))
        × (finish_status v ≡ status_behind overall_ok ss)
        × All IsTimely (take k ss)
  unfolding midi_sessions finish_status
  midi_sessions-status zero [] overall_ok l = (_, 0, refl, ground arith, tt)
  midi_sessions-status zero (s ∷ ss) overall_ok l = absurd (ground (arith, l))
  midi_sessions-status (suc n) [] overall_ok l = absurd (ground (arith, l))
  midi_sessions-status (suc n) (s ∷ ss) overall_ok l =
      let v = after_session (return_code s.child) false overall_ok in
      let (v', k, q, f, t) = midi_sessions-status n ss v.overall_ok (omega (arith, l)) in
      elim (Bool-cases (check_wall_deadline deadline s.clock)) [
        | inl late ↦ (out_of_time, 0, rw late refl, rw late refl, tt)
        | inr early ↦ elim (Bool-cases (is_aborted (return_code s.child))) [
          | inl a ↦ (v, 1, rw (early, a) refl, rw (early, a) refl, (early, tt))
          | inr g ↦ (
            v',
            suc k,
            rw (early, g, q) refl,
            f ∙ status_behind-next s ss overall_ok early g,
            (early, t),
          )
        ]
      ]

  -- A run with as many recorded sessions as it makes ends. Its status is 3 if some session of the
  -- recording is tested at or after the deadline or has a child that aborts; else 0 if every child
  -- gave 0, and 2 otherwise. No child is begun behind a test at or after the deadline.
  pub run_fresh_midi_sessions-status :
      (fresh_sessions : ℕ) (ss : List Session)
      → length ss ≡ fresh_sessions
      → (k : ℕ) × (run_fresh_midi_sessions deadline fresh_sessions ss
          ≡ some (sessions_status ss, k))
        × All IsTimely (take k ss)
  unfolding run_fresh_midi_sessions
  run_fresh_midi_sessions-status fresh_sessions ss l =
      let (v, k, q, f, t) = midi_sessions-status fresh_sessions ss true l in
      (k, rw q (ap (λ (n : ℕ). some (n, k)) f), t)
