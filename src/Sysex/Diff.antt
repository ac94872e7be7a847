-- ===== src/Sysex/Diff.antt =====
-- `first_diff_offset`, `mismatch_note` and `wait_exact_sysex` of
-- scripts/lab/sysex_long_loopback_lib.py.
pub mod Laws
use unitor_win64_driver.Base.{
  ℕ, ◌+◌, ◌-◌, Bool, ◌&&◌, not, Option, none, some, List, [], ◌∷◌, ◌++◌, Text, Bytes, codes,
  decimal, ltb, leb, ◌==◌, if◌then◌else◌, length, equal, text_le, sorted,
}
use unitor_win64_driver.Midi.{Message, is_kind, Poll}
use unitor_win64_driver.Midi.Hex.{frame_head_tail}
use unitor_win64_driver.Sysex.Assembler.{SysexAssembler, new, push_mido_sysex_data}
use unitor_win64_driver.Sysex.Wait.{WaitResult}

-- The loop from `index` on, over what is left of both; `none` is the result -1.
unfoldable pub diff_from : ℕ → Bytes → Bytes → Option ℕ
diff_from index [] [] = none
diff_from index [] (y ∷ ys) = some index
diff_from index (x ∷ xs) [] = some index
diff_from index (x ∷ xs) (y ∷ ys) =
    let rest = diff_from (index + 1) xs ys in if not (x == y) then some index else rest

unfoldable pub first_diff_offset : Bytes → Bytes → Option ℕ
unfolding diff_from
first_diff_offset got expected = diff_from 0 got expected

-- `str(a - b)`
abbrev signed_text : ℕ → ℕ → Text
signed_text a b = if leb b a then decimal (a - b) else b'-' ∷ decimal (b - a)

abbrev offset_text : Option ℕ → Text
offset_text none = codes "-1"
offset_text (some i) = decimal i

unfoldable pub mismatch_note : Bytes → Bytes → ℕ → Text
unfolding first_diff_offset
mismatch_note frame expected data_len =
    codes "mismatch "
    ++ (frame_head_tail frame
        ++ (codes " (expected_len="
            ++ (decimal (length expected)
                ++ (codes "; mido_data_len="
                    ++ (decimal data_len
                        ++ (codes "; first_diff_offset="
                            ++ (offset_text (first_diff_offset frame expected)
                                ++ (codes "; missing_bytes="
                                    ++ (signed_text (length expected) (length frame)
                                        ++ codes ")")))))))))

-- `saw_types`: how many messages of each type came
abbrev pub Counts : Type 0
Counts = List (Text × ℕ)

-- `counts[kind] = counts.get(kind, 0) + 1`
unfoldable pub bump : Text → Counts → Counts
bump kind [] = (kind, 1) ∷ []
bump kind ((k, n) ∷ counts) =
    if equal k kind then (k, n + 1) ∷ counts else (k, n) ∷ bump kind counts

-- The two inner `for` loops: the matching frame, and the variables that they leave
pub record ExactState : Type 0 where
  pub assembler : SysexAssembler
  pub last_note : Text
  pub saw_types : Counts

abbrev scan_frames : Bytes → ℕ → Text → List Bytes → Option Bytes × Text
scan_frames expected data_len last_note [] = (none, last_note)
scan_frames expected data_len last_note (frame ∷ frames) =
    let rest = scan_frames expected data_len (mismatch_note frame expected data_len) frames in
    if equal frame expected then (some frame, last_note) else rest

unfoldable pub scan_messages : Bytes → ExactState → List Message → Option Bytes × ExactState
scan_messages expected s [] = (none, s)
scan_messages expected s (m ∷ ms) =
    let seen = record s { saw_types = bump m.kind s.saw_types } in
    let pushed = push_mido_sysex_data m.payload s.assembler in
    let found = scan_frames expected (length m.payload) s.last_note pushed.0 in
    let taken = record seen { assembler = pushed.1; last_note = found.1 } in
    let skip = scan_messages expected seen ms in
    let go = scan_messages expected taken ms in
    let after : Option Bytes × ExactState = elim found.0 [
      | none ↦ go
      | some frame ↦ (some frame, taken)
    ] in
    if is_kind "sysex" m then after else skip

abbrev types_text : Counts → Text
types_text [] = []
types_text ((k, n) ∷ []) = k ++ (b':' ∷ decimal n)
types_text ((k, n) ∷ c ∷ counts) = k ++ (b':' ∷ (decimal n ++ (b',' ∷ types_text (c ∷ counts))))

-- `sorted(saw_types.items())`: the keys of a dict differ, so they decide.
abbrev by_kind : Text × ℕ → Text × ℕ → Bool
by_kind (a, m) (b, n) = text_le a b

abbrev final_note : ExactState → Text
final_note s = elim s.saw_types [
  | [] ↦ s.last_note
  | c ∷ counts ↦
      if equal s.last_note (codes "none")
      then codes "none types=" ++ types_text (sorted by_kind (c ∷ counts))
      else s.last_note
]

-- `none`: the recording ends before the loop does.
unfoldable pub exact_loop : Bytes → ℕ → ℕ → ExactState → List Poll → Option WaitResult
exact_loop expected started deadline s [] = none
exact_loop expected started deadline s (p ∷ ps) =
    let found = scan_messages expected s p.pending in
    let rest = exact_loop expected started deadline found.1 ps in
    let after : Option WaitResult = elim found.0 [
      | none ↦ rest
      | some frame ↦
          some (record { reply = some frame; dt_ms = p.stamp - started; note = codes "match" })
    ] in
    if ltb p.now deadline
    then after
    else some (record { reply = none; dt_ms = p.stamp - started; note = final_note s })

abbrev exact_start : ExactState
exact_start = record { assembler = new; last_note = codes "none"; saw_types = [] }

unfoldable pub wait_exact_sysex : Bytes → ℕ → ℕ → List Poll → Option WaitResult
wait_exact_sysex expected started timeout polls =
    exact_loop expected started (started + timeout) exact_start polls
