-- ===== src/Release/Lines.antt =====
-- The lines of the checksums, written and read.
use unitor_win64_driver.Base.{
  ◌≡◌, ◌≢◌, refl, ap, ◌∙◌, arith, false, some, List, [], ◌∷◌, ◌++◌, append_assoc, append-nil, Text,
  Bytes, equal_refl, is_space, is_blank, All, All-append, ◌==◌,
}
use unitor_win64_driver.Quality.Lines.{is_line_break, lines_from, splitlines}
use unitor_win64_driver.Release.{
  Files, find_file, checksum_text, word_of, behind_word, split_once, line_errors, check_lines,
}

-- No white space
abbrev pub IsWord : Text → Type 0
IsWord = All (λ c. is_space c ≡ false)

-- A digest is a word, and not empty.
pub record IsDigest (digest : Text) : Type 0 where
  pub not_empty : digest ≢ []
  pub is_word : IsWord digest

pub lines_from-line :
    (line l rest : Text)
    → All (λ c. is_line_break c ≡ false) l
    → lines_from false line (l ++ 10 ∷ rest) ≡ (line ++ l) ∷ lines_from false [] rest
unfolding lines_from
lines_from-line line [] rest h = rw append-nil refl
lines_from-line line (c ∷ cs) rest h =
    let r = lines_from-line (line ++ c ∷ []) cs rest h.1 in
    let cr : (c == 13) ≡ false = unfold is_line_break in ground (arith, h.0) in
    rw (h.0, lines_from) (rw (cr, lines_from) (r ∙ rw (append_assoc line (c ∷ []) cs) refl))

IsWord-unbroken : (t : Text) → IsWord t → All (λ c. is_line_break c ≡ false) t
unfolding is_space is_line_break
IsWord-unbroken [] h = tt
IsWord-unbroken (c ∷ cs) h = (ground (arith, h.0), IsWord-unbroken cs h.1)

-- A line of the checksums
abbrev line_of : Text → Text → Text
line_of digest name = digest ++ (b' ' ∷ b' ' ∷ name)

word_of-word : (w rest : Text) → IsWord w → word_of (w ++ b' ' ∷ rest) ≡ w
unfolding is_space
word_of-word [] rest h = refl
word_of-word (c ∷ cs) rest h = rw (h.0, word_of) (ap (◌∷◌ c) (word_of-word cs rest h.1))

behind_word-word : (w rest : Text) → IsWord w → behind_word (w ++ b' ' ∷ rest) ≡ b' ' ∷ rest
unfolding is_space
behind_word-word [] rest h = refl
behind_word-word (c ∷ cs) rest h = rw (h.0, behind_word) (behind_word-word cs rest h.1)

split_once-line_of :
    (digest name : Text)
    → IsDigest digest
    → IsDigest name
    → (split_once (line_of digest name) ≡ some (digest, name))
      × (is_blank (line_of digest name) ≡ false)
unfolding split_once is_space
split_once-line_of [] name d n = absurd (d.not_empty refl)
split_once-line_of (d ∷ ds) [] h n = absurd (n.not_empty refl)
split_once-line_of (d ∷ ds) (c ∷ cs) h n =
    let w = word_of-word (d ∷ ds) (b' ' ∷ c ∷ cs) h.is_word in
    let b = behind_word-word (d ∷ ds) (b' ' ∷ c ∷ cs) h.is_word in
    (ground (arith, h.is_word.0, n.is_word.0, w, b), rw h.is_word.0 refl)

line_of_unbroken :
    (digest name : Text)
    → IsWord digest
    → IsWord name
    → All (λ c. is_line_break c ≡ false) (line_of digest name)
unfolding is_line_break
line_of_unbroken digest name d n =
    All-append (λ c. is_line_break c ≡ false) digest (b' ' ∷ b' ' ∷ name) (IsWord-unbroken digest d)
      (refl, (refl, IsWord-unbroken name n))

check_lines_line :
    (sha256 : Bytes → Text) (files : Files) (line : Text) (lines : List Text) {digest name : Text}
    → split_once line ≡ some (digest, name)
    → is_blank line ≡ false
    → line_errors sha256 files digest name ≡ []
    → check_lines sha256 files (line ∷ lines)
      ≡ ((check_lines sha256 files lines).0, name ∷ (check_lines sha256 files lines).1)
unfolding check_lines
check_lines_line sha256 files line lines two full good =
    rw (full, check_lines) (rw (two, check_lines) (rw good refl))

module _ (sha256 : Bytes → Text) (digests : (content : Bytes) → IsDigest (sha256 content))
    (files after : Files) where
  -- The file is there before and after the checksums are written.
  pub record IsKept (p : Text) : Type 0 where
    pub content : Bytes
    pub there_before : find_file p files ≡ some content
    pub there_after : find_file p after ≡ some content
    pub has_name : IsDigest p

  checksum_text_line :
      (p : Text) (ps : List Text) (k : IsKept p)
      → splitlines (checksum_text sha256 files (p ∷ ps))
        ≡ line_of (sha256 k.content) p ∷ splitlines (checksum_text sha256 files ps)
  unfolding splitlines
  checksum_text_line p ps k =
      let digest = sha256 k.content in
      let rest = checksum_text sha256 files ps in
      let d = digests k.content in
      let l =
        lines_from-line [] (line_of digest p) rest
          (line_of_unbroken digest p d.is_word k.has_name.is_word) in
      rw (k.there_before, checksum_text) (rw append_assoc at l)

  pub check_lines-checksum_text :
      (ps : List Text)
      → All IsKept ps
      → check_lines sha256 after (splitlines (checksum_text sha256 files ps)) ≡ ([], ps)
  check_lines-checksum_text [] h = unfold check_lines splitlines in refl
  check_lines-checksum_text (p ∷ ps) h =
      let k = h.0 in
      let (two, full) = split_once-line_of (sha256 k.content) p (digests k.content) k.has_name in
      let rest = check_lines-checksum_text ps h.1 in
      let same = equal_refl (sha256 k.content) in
      let good : line_errors sha256 after (sha256 k.content) p ≡ [] =
        rw (k.there_after, line_errors) (rw same refl) in
      rw (checksum_text_line p ps k) (
        check_lines_line sha256 after (line_of (sha256 k.content) p) _ two full good ∙ rw rest refl)
