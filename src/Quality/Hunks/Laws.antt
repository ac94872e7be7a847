-- ===== src/Quality/Hunks/Laws.antt =====
-- Which lines a diff marks as touched, and which functions meet them.
use unitor_win64_driver.Base.{
  ℕ, zero, suc, ◌+◌, ◌-◌, ◌*◌, ◌≤◌, ◌<◌, ◌≡◌, ◌↔◌, inl, inr, arith, Bool, true, ◌&&◌, ◌||◌, not,
  Bool-cases, some, List, [], ◌∷◌, ◌++◌, Text, leb, ltb, ◌==◌, equal, equal→eq, equal_refl,
  is_digit, all, read_digits,
}
use unitor_win64_driver.Quality.Hunks.{
  Ranges, lines_of, has_line, add_line, add_lines, digits_from, numbers_from, touches,
  function_intersects,
}

lines_of-add_line :
    (path q : Text) (n m : ℕ) (ranges : Ranges)
    → has_line m (lines_of q (add_line path n ranges))
      ≡ ((equal path q && m == n) || has_line m (lines_of q ranges))
unfolding lines_of add_line
lines_of-add_line path q n m [] = ground arith
lines_of-add_line path q n m ((p, ns) ∷ ranges) = ground (
  arith,
  lines_of-add_line path q n m ranges,
  equal→eq p path,
  equal→eq p q,
  equal→eq path q,
  equal_refl q,
  equal_refl path,
)

-- Adding a run of lines to one path marks exactly these lines of that path, and leaves every other
-- mark as it was.
pub lines_of-add_lines :
    (path q : Text) (start count m : ℕ) (ranges : Ranges)
    → has_line m (lines_of q (add_lines path start count ranges))
      ≡ ((equal path q && (leb start m && ltb m (start + count))) || has_line m (lines_of q ranges))
unfolding add_lines
lines_of-add_lines path q start zero m ranges = ground arith
lines_of-add_lines path q start (suc count) m ranges = ground (
  arith,
  lines_of-add_lines path q (start + 1) count m (add_line path start ranges),
  lines_of-add_line path q start m ranges,
)

pub digits_from-append :
    (seen : Bool) (acc : ℕ) (ds rest : Text)
    → all is_digit ds ≡ true
    → digits_from seen acc (ds ++ rest)
      ≡ digits_from (seen || not (equal ds [])) (read_digits acc ds) rest
unfolding digits_from read_digits
digits_from-append seen acc [] rest h = ground arith
digits_from-append seen acc (d ∷ ds) rest h =
    ground (arith, digits_from-append true (acc * 10 + (d - 48)) ds rest)

touches_sound :
    (start count : ℕ) (changed : List ℕ)
    → touches (numbers_from start count) changed ≡ true
    → (n : ℕ) × (start ≤ n) × (n < start + count) × (has_line n changed ≡ true)
unfolding numbers_from touches
touches_sound start zero changed h = absurd (ground arith)
touches_sound start (suc count) changed h = elim (Bool-cases (has_line start changed)) [
  | inl e ↦ (start, omega arith, omega arith, e)
  | inr e ↦
      let (n, low, high, here) = touches_sound (start + 1) count changed (ground arith) in
      (n, omega arith, omega arith, here)
]

touches_complete :
    (start count n : ℕ) (changed : List ℕ)
    → start ≤ n
    → n < start + count
    → has_line n changed ≡ true
    → touches (numbers_from start count) changed ≡ true
unfolding numbers_from touches
touches_complete start zero n changed low high h = absurd (omega arith)
touches_complete start (suc count) n changed low high h =
    ground (arith, touches_complete (start + 1) count n changed)

-- A function is looked at exactly when one of its lines, the first and the last included, is
-- among the touched lines of its file.
pub function_intersects_iff :
    (start end_ : ℕ) (changed : List ℕ)
    → (function_intersects start end_ (some changed) ≡ true)
      ↔ ((n : ℕ) × (start ≤ n) × (n ≤ end_) × (has_line n changed ≡ true))
unfolding function_intersects
function_intersects_iff start end_ [] =
    (λ h. absurd (ground arith), λ h. absurd (ground (arith, h.3)))
function_intersects_iff start end_ (c ∷ cs) = (
  λ h.
      let (n, low, high, here) = touches_sound start (end_ + 1 - start) (c ∷ cs) h in
      (n, low, omega arith, here),
  λ h. touches_complete start (end_ + 1 - start) h.0 (c ∷ cs) h.1 (omega arith) h.3,
)
