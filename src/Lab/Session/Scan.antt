-- ===== src/Lab/Session/Scan.antt =====
-- The scan of the bridge's whole output by the loopback labs, against the scan line by line of the
-- other labs.
use unitor_win64_driver.Base.{
  ℕ, ◌≡◌, refl, sym, ◌∙◌, ap, ap₂, arith, append-nil, append_assoc, Bool, true, false, ◌&&◌, ◌||◌,
  not, Bool-cases, inl, inr, List, [], ◌∷◌, ◌++◌, All, Text, ◌==◌, ==_iff, starts_with, contains,
  any,
}
use unitor_win64_driver.Quality.Lines.{is_line_break, lines_from, splitlines}
use unitor_win64_driver.Lab.Session.{bridge_fail_needles, apply_bridge_fail_needles}

-- A text without a character that ends a line
abbrev IsUnbroken : Text → Type 0
IsUnbroken t = any is_line_break t ≡ false

is_line_break_return : (c : ℕ) → (c == 13) ≡ true → is_line_break c ≡ true
unfolding is_line_break
is_line_break_return c e = ground arith

-- A match does not reach over a line break.
starts_with-cut :
    (needle line : Text) (c : ℕ) (rest : Text)
    → IsUnbroken needle
    → is_line_break c ≡ true
    → starts_with needle (line ++ c ∷ rest) ≡ starts_with needle line
starts_with-cut [] line c rest u b = ground arith
starts_with-cut (n ∷ ns) [] c rest u b = elim (Bool-cases (n == c)) [
  | inl e ↦ absurd (ground (arith, ap is_line_break ((==_iff n c).0 e)))
  | inr e ↦ rw e refl
]
starts_with-cut (n ∷ ns) (x ∷ xs) c rest u b =
    ap (λ t. (n == x) && t) (starts_with-cut ns xs c rest (ground arith) b)

module _ (n : ℕ) (ns : Text) (u : IsUnbroken (n ∷ ns)) where
  abbrev needle : Text
  needle = n ∷ ns

  contains-cut :
      (line : Text) (c : ℕ) (rest : Text)
      → is_line_break c ≡ true
      → contains needle (line ++ c ∷ rest) ≡ (contains needle line || contains needle rest)
  contains-cut [] c rest b =
      ap (λ t. t || contains needle rest) (starts_with-cut needle [] c rest u b)
  contains-cut (x ∷ xs) c rest b =
      ground (arith, starts_with-cut needle (x ∷ xs) c rest u b, contains-cut xs c rest b)

  -- The lines of what is left, behind a line begun
  contains-lines_from :
      (after_cr : Bool) (line text : Text)
      → (after_cr ≡ true → line ≡ [])
      → any (contains needle) (lines_from after_cr line text) ≡ contains needle (line ++ text)
  unfolding lines_from
  contains-lines_from after_cr [] [] h = refl
  contains-lines_from after_cr (x ∷ xs) [] h = rw (append-nil xs) (ground arith)
  contains-lines_from after_cr line (c ∷ cs) h = elim (Bool-cases (is_line_break c)) [
    | inr f ↦ rw f (
        contains-lines_from (c == 13) (line ++ c ∷ []) cs
          (λ e. absurd (cc (is_line_break_return c e)))
        ∙ ap (contains needle) (append_assoc line (c ∷ []) cs))
    | inl t ↦ elim (Bool-cases (after_cr && c == 10)) [
      | inl q ↦
          let none_begun : line ≡ [] = h (ground arith) in
          rw (t, q, none_begun)
            (contains-lines_from (c == 13) [] cs (λ e. refl) ∙ sym (contains-cut [] c cs t))
      | inr q ↦
          rw (t, q)
            (ap (λ x. contains needle line || x) (contains-lines_from (c == 13) [] cs (λ e. refl))
              ∙ sym (contains-cut line c cs t))
    ]
  ]

contains-splitlines :
    (n : ℕ) (ns text : Text)
    → IsUnbroken (n ∷ ns)
    → any (contains (n ∷ ns)) (splitlines text) ≡ contains (n ∷ ns) text
unfolding splitlines
contains-splitlines n ns text u = contains-lines_from n ns u false [] text (λ e. refl)

abbrev IsNeedle : Text → Type 0
IsNeedle [] = ⊥
IsNeedle (n ∷ ns) = IsUnbroken (n ∷ ns)

-- A line with one of the texts of a failure
abbrev pub has_failure : Text → Bool
has_failure line = any (λ needle. contains needle line) bridge_fail_needles

any-or : (p q : Text → Bool) (ts : List Text) → any (λ t. p t || q t) ts ≡ (any p ts || any q ts)
any-or p q [] = refl
any-or p q (t ∷ ts) = ground (arith, any-or p q ts)

any_never : (ts : List Text) → any (λ t. false) ts ≡ false
any_never [] = refl
any_never (t ∷ ts) = any_never ts

any-splitlines :
    (needles : List Text) (text : Text)
    → All IsNeedle needles
    → any (λ line. any (λ needle. contains needle line) needles) (splitlines text)
      ≡ any (λ needle. contains needle text) needles
any-splitlines [] text h = any_never (splitlines text)
any-splitlines ([] ∷ ts) text h = absurd (h.0)
any-splitlines ((n ∷ ns) ∷ ts) text h =
    any-or (contains (n ∷ ns)) (λ line. any (λ needle. contains needle line) ts) (splitlines text)
    ∙ ap₂ ◌||◌ (contains-splitlines n ns text h.0) (any-splitlines ts text h.1)

needles-AreUnbroken : All IsNeedle bridge_fail_needles
unfolding is_line_break
needles-AreUnbroken = (refl, (refl, (refl, (refl, (refl, (refl, (refl, tt)))))))

-- The scan of the whole output comes to what a scan of its lines for the same texts does: the lab
-- passes exactly if it passed before and no line of the output has one of the texts of a failure.
pub apply_bridge_fail_needles-splitlines :
    (captured : Text) (passed : Bool)
    → apply_bridge_fail_needles captured passed
      ≡ (passed && not (any has_failure (splitlines captured)))
unfolding apply_bridge_fail_needles
apply_bridge_fail_needles-splitlines captured passed =
    ground (arith, any-splitlines bridge_fail_needles captured needles-AreUnbroken)
