-- ===== src/Sysex/Diff/Laws.antt =====
-- The first difference, and the wait for one exact frame.
use unitor_win64_driver.Base.{
  ℕ, suc, ◌+◌, ◌-◌, ◌≡◌, ◌≢◌, refl, sym, ap, ◌∙◌, ◌⊎◌, inl, inr, Bool, true, false, Bool-cases,
  Option-cases, Option, none, some, List, [], ◌∷◌, arith, Text, Bytes, codes, ltb, ◌==◌, length,
  get_elem?, take, equal, equal→eq,
}
use unitor_win64_driver.Midi.{Message, Poll}
use unitor_win64_driver.Sysex.Assembler.{SysexAssembler, new, push_mido_sysex_data}
use unitor_win64_driver.Sysex.Assembler.Messages.{frames_of}
use unitor_win64_driver.Sysex.Frame.{framed}
use unitor_win64_driver.Sysex.Wait.{WaitResult, wait_matched_sysex}
use unitor_win64_driver.Sysex.Wait.Laws.{
  frames_before, first_match, first_match-append, Expires, now, later, wait_matched_sysex-Returns,
}
use unitor_win64_driver.Sysex.Diff.{
  Counts, bump, mismatch_note, diff_from, first_diff_offset, ExactState, scan_messages, exact_loop,
  wait_exact_sysex, final_note, exact_start,
}

-- Where two byte strings part: equal before the place, different at it or one ended there
pub record PartsAt (got expected : Bytes) (i : ℕ) : Type 0 where
  pub same_before : take i got ≡ take i expected
  pub differs : get_elem? got i ≢ get_elem? expected i

abbrev Places : ℕ → Bytes → Bytes → Option ℕ → Type 0
Places index got expected none = got ≡ expected
Places index got expected (some place) = (i : ℕ) × (place ≡ index + i) × PartsAt got expected i

PartsAt-cons : (x : ℕ) (xs ys : Bytes) (i : ℕ) → PartsAt xs ys i → PartsAt (x ∷ xs) (x ∷ ys) (suc i)
PartsAt-cons x xs ys i p = record { same_before = ap (◌∷◌ x) p.same_before; differs = p.differs }

Places-cons :
    (index x : ℕ) (xs ys : Bytes) (o : Option ℕ)
    → Places (index + 1) xs ys o
    → Places index (x ∷ xs) (x ∷ ys) o
Places-cons index x xs ys none e = ap (◌∷◌ x) e
Places-cons index x xs ys (some place) (i, e, p) = (suc i, omega arith, PartsAt-cons x xs ys i p)

diff_from-Places :
    (index : ℕ) (got expected : Bytes) → Places index got expected (diff_from index got expected)
unfolding diff_from
diff_from-Places index [] [] = refl
diff_from-Places index [] (y ∷ ys) =
    (0, omega arith, record { same_before = refl; differs = λ e. cc })
diff_from-Places index (x ∷ xs) [] =
    (0, omega arith, record { same_before = refl; differs = λ e. cc })
diff_from-Places index (x ∷ xs) (y ∷ ys) = elim (Bool-cases (x == y)) [
  | inl e ↦
      let p : y ≡ x = ground arith in
      rw e (
        rw p (
          Places-cons index x xs ys (diff_from (index + 1) xs ys)
            (diff_from-Places (index + 1) xs ys)))
  | inr e ↦ rw e (0, omega arith, record { same_before = refl; differs = λ q. ground arith })
]

-- `first_diff_offset` is -1 only for equal byte strings; any other result is the place up to which
-- they agree and at which they differ, or at which one of them has ended.
pub first_diff_offset_lem :
    (got expected : Bytes)
    → (first_diff_offset got expected ≡ none → got ≡ expected)
      × ((i : ℕ) → first_diff_offset got expected ≡ some i → PartsAt got expected i)
unfolding first_diff_offset
first_diff_offset_lem got expected = (
  λ h. rw h at (diff_from-Places 0 got expected),
  λ i h.
      let (j, e, p) = rw h at (diff_from-Places 0 got expected) in
      let q : i ≡ j = omega arith in rw q p,
)

abbrev is_expected : Bytes → Bytes → Bool
is_expected expected frame = equal frame expected

abbrev idle : Text → Counts → ExactState
idle note counts = record { assembler = new; last_note = note; saw_types = counts }

-- What the messages of one poll leave: a match, or an assembler that is new again
abbrev Scanned : Bytes → List Message → Option Bytes × ExactState → Type 0
Scanned expected ms r =
    (r.0 ≡ first_match (is_expected expected) (frames_of ms)) × (r.1.assembler ≡ new)

scan_messages-Scanned :
    (expected : Bytes) (note : Text) (counts : Counts) (ms : List Message)
    → Scanned expected ms (scan_messages expected (idle note counts) ms)
unfolding scan_messages push_mido_sysex_data
scan_messages-Scanned expected note counts [] = (refl, refl)
scan_messages-Scanned expected note counts (m ∷ ms) =
    let frame = framed m.payload in
    let seen = scan_messages-Scanned expected note (bump m.kind counts) ms in
    let missed =
      scan_messages-Scanned expected (mismatch_note frame expected (length m.payload))
        (bump m.kind counts) ms in
    ground (arith, seen, missed)

Scanned-new :
    (expected : Bytes) (ms : List Message) (a : SysexAssembler) (note : Text) (counts : Counts)
    → a ≡ new
    → Scanned expected ms
        (scan_messages expected (record { assembler = a; last_note = note; saw_types = counts }) ms)
Scanned-new expected ms a note counts h = rw h (scan_messages-Scanned expected note counts ms)

abbrev Returns : Option Bytes → Option WaitResult → Type 0
Returns reply o = (r : WaitResult) × (o ≡ some r) × (r.reply ≡ reply)

module _ (expected : Bytes) (started deadline : ℕ) where
  exact_loop-expired :
      (s : ExactState) (p : Poll) (ps : List Poll)
      → ltb p.now deadline ≡ false
      → Returns
          (first_match (is_expected expected) (frames_before deadline (p ∷ ps)))
          (exact_loop expected started deadline s (p ∷ ps))
  unfolding exact_loop
  exact_loop-expired s p ps e =
      rw e (record { reply = none; dt_ms = p.stamp - started; note = final_note s }, refl, refl)

  exact_loop-polled :
      (s : ExactState) (p : Poll) (ps : List Poll)
      → ltb p.now deadline ≡ true
      → Scanned expected p.pending (scan_messages expected s p.pending)
      → (first_match (is_expected expected) (frames_of p.pending) ≡ none)
        ⊎ ((f : Bytes) × (first_match (is_expected expected) (frames_of p.pending) ≡ some f))
      → Returns
          (first_match (is_expected expected) (frames_before deadline ps))
          (exact_loop expected started deadline (scan_messages expected s p.pending).1 ps)
      → Returns
          (first_match (is_expected expected) (frames_before deadline (p ∷ ps)))
          (exact_loop expected started deadline s (p ∷ ps))
  unfolding exact_loop
  exact_loop-polled s p ps t d (inl n) (r, e, e') =
      let split =
        first_match-append (is_expected expected) (frames_of p.pending)
          (frames_before deadline ps) in
      (r, ground (arith, split), ground (arith, split))
  exact_loop-polled s p ps t d (inr (f, q)) later_ =
      let split =
        first_match-append (is_expected expected) (frames_of p.pending)
          (frames_before deadline ps) in
      (
        record { reply = some f; dt_ms = p.stamp - started; note = codes "match" },
        ground (arith, split),
        ground (arith, split),
      )

  exact_loop-Returns :
      (s : ExactState) {polls : List Poll}
      → Expires deadline polls
      → s.assembler ≡ new
      → Returns
          (first_match (is_expected expected) (frames_before deadline polls))
          (exact_loop expected started deadline s polls)
  exact_loop-Returns s (now {p} {ps} h) a = exact_loop-expired s p ps (ground arith)
  exact_loop-Returns s (later {p} {ps} e) a = elim (Bool-cases (ltb p.now deadline)) [
    | inr f ↦ exact_loop-expired s p ps f
    | inl t ↦
        let d = Scanned-new expected p.pending s.assembler s.last_note s.saw_types a in
        exact_loop-polled s p ps t d
          (Option-cases (first_match (is_expected expected) (frames_of p.pending)))
          (exact_loop-Returns (scan_messages expected s p.pending).1 e d.1)
  ]

first_match-is_expected :
    (expected : Bytes) (fs : List Bytes) {f : Bytes}
    → first_match (is_expected expected) fs ≡ some f
    → f ≡ expected
first_match-is_expected expected [] h = ground arith
first_match-is_expected expected (g ∷ fs) h = elim (Bool-cases (equal g expected)) [
  | inl e ↦ cc (equal→eq g expected e, rw e at h)
  | inr e ↦ first_match-is_expected expected fs (rw e at h)
]

pub wait_exact_sysex-first_match :
    (expected : Bytes) (started timeout : ℕ) {polls : List Poll}
    → Expires (started + timeout) polls
    → (r : WaitResult) × (wait_exact_sysex expected started timeout polls ≡ some r)
      × (r.reply ≡ first_match (λ f. equal f expected) (frames_before (started + timeout) polls))
unfolding wait_exact_sysex
wait_exact_sysex-first_match expected started timeout e =
    exact_loop-Returns expected started (started + timeout) exact_start e refl

-- If some poll comes at or after the deadline, the exact wait returns what the wait for a matching
-- frame returns when the test is equality with the expected frame; and a reply is that very frame,
-- so a shorter, longer or altered loopback is never reported as received.
pub wait_exact_sysex-wait_matched_sysex :
    (expected : Bytes) (started timeout : ℕ) {polls : List Poll}
    → Expires (started + timeout) polls
    → (r : WaitResult) × (wait_exact_sysex expected started timeout polls ≡ some r)
      × ((s : WaitResult)
          → wait_matched_sysex (λ f. equal f expected) started timeout polls ≡ some s
          → r.reply ≡ s.reply)
      × ((f : Bytes) → r.reply ≡ some f → f ≡ expected)
unfolding wait_exact_sysex
wait_exact_sysex-wait_matched_sysex expected started timeout {polls} e =
    let (r, h, h') = exact_loop-Returns expected started (started + timeout) exact_start e refl in
    let (s', k, k') = wait_matched_sysex-Returns (is_expected expected) started timeout e in
    (
      r,
      h,
      λ s q. cc,
      λ f q.
          first_match-is_expected expected (frames_before (started + timeout) polls) (sym h' ∙ q),
    )
