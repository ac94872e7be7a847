-- ===== src/Ports/Rank.antt =====
-- What each rank means.
use unitor_win64_driver.Base.{
  ℕ, zero, suc, ◌<◌, ◌≡◌, ◌≢◌, refl, sym, ap, ◌∙◌, ◌↔◌, ◌⊎◌, inl, inr, true, false, Bool-cases,
  Option-cases, none, some, [], ◌∷◌, ◌++◌, arith, Text, lower, to_lower, is_digit, length, drop,
  all, equal, equal→eq, equal_refl, starts_with, starts_with_split, starts_with-append,
  length-append, append-nil,
}
use unitor_win64_driver.Ports.{
  is_number, rsplit_space, normalize_port_label, rest_rank, port_match_rank,
}

-- A label and, behind one space, a number
pub record IsIndexed (label name : Text) : Type 0 where
  pub index : Text
  pub index_is_number : is_number index ≡ true
  pub splits : name ≡ label ++ b' ' ∷ index

rsplit_space_splits :
    (name : Text) {a b : Text} → rsplit_space name ≡ some (a, b) → name ≡ a ++ b' ' ∷ b
unfolding rsplit_space
rsplit_space_splits [] h = ground arith
rsplit_space_splits (c ∷ cs) h = elim (Option-cases (rsplit_space cs)) [
  | inl n ↦ ground (arith, n)
  | inr ((x, y), s) ↦ ground (arith, s, rsplit_space_splits cs s)
]

no_space : (index : Text) → all is_digit index ≡ true → rsplit_space index ≡ none
unfolding rsplit_space
no_space [] h = refl
no_space (c ∷ cs) h = ground (arith, no_space cs)

rsplit_space_indexed :
    (label index : Text)
    → all is_digit index ≡ true
    → rsplit_space (label ++ b' ' ∷ index) ≡ some (label, index)
unfolding rsplit_space
rsplit_space_indexed [] index h = ground (arith, no_space index h)
rsplit_space_indexed (c ∷ label) index h = ground (arith, rsplit_space_indexed label index h)

-- The label of a name is the name itself, or what stands before its index.
normalize-cases :
    (name : Text) → (normalize_port_label name ≡ name) ⊎ IsIndexed (normalize_port_label name) name
unfolding normalize_port_label
normalize-cases name = elim (Option-cases (rsplit_space name)) [
  | inl n ↦ rw (n, normalize_port_label) (inl refl)
  | inr ((label, index), s) ↦ elim (Bool-cases (is_number index)) [
    | inl d ↦
        rw (s, d, normalize_port_label)
          (inr (record { index = index; index_is_number = d; splits = rsplit_space_splits name s }))
    | inr d ↦ rw (s, d, normalize_port_label) (inl refl)
  ]
]

is_number→all : (index : Text) → is_number index ≡ true → all is_digit index ≡ true
is_number→all [] h = refl
is_number→all (c ∷ cs) h = h

normalize_indexed : {label name : Text} → IsIndexed label name → normalize_port_label name ≡ label
unfolding normalize_port_label
normalize_indexed {label} {name} h =
    let d = rsplit_space_indexed label h.index (is_number→all h.index h.index_is_number) in
    ground (arith, h.splits, d, h.index_is_number)

length-indexed : {label name : Text} → IsIndexed label name → length label < length name
length-indexed {label} {name} h =
    omega (arith, ap (λ (t : Text). length t) h.splits, length-append label (b' ' ∷ h.index))

length-lower : (s : Text) → length (lower s) ≡ length s
length-lower [] = refl
length-lower (c ∷ cs) = ap suc (length-lower cs)

drop-lower : (n : ℕ) (s : Text) → drop n (lower s) ≡ lower (drop n s)
drop-lower zero s = refl
drop-lower (suc n) [] = refl
drop-lower (suc n) (c ∷ cs) = drop-lower n cs

pub drop-length : (s t : Text) → drop (length s) (s ++ t) ≡ t
drop-length [] t = refl
drop-length (c ∷ cs) t = drop-length cs t

lower-append : (s t : Text) → lower (s ++ t) ≡ lower s ++ lower t
lower-append [] t = refl
lower-append (c ∷ cs) t = ap (◌∷◌ (to_lower c)) (lower-append cs t)

rest_rank_cases : (rest : Text) → (rest_rank rest ≡ some 0 → rest ≡ []) × (rest_rank rest ≢ some 1)
rest_rank_cases [] = (λ h. refl, λ h. ground arith)
rest_rank_cases (c ∷ cs) = (λ h. ground arith, λ h. ground arith)

-- The prefix test and the empty rest of the last case say that the names differ in case only.
lower-eq_of_rest :
    (name needle : Text)
    → starts_with (lower needle) (lower name) ≡ true
    → drop (length needle) name ≡ []
    → lower name ≡ lower needle
lower-eq_of_rest name needle p e =
    let split = starts_with_split (lower needle) (lower name) p in
    let gone : drop (length (lower needle)) (lower name) ≡ [] = rw (length-lower, drop-lower, e) in
    split ∙ rw (gone, append-nil)

rank_0→lower :
    (name needle : Text) → port_match_rank name needle ≡ some 0 → lower name ≡ lower needle
unfolding port_match_rank
rank_0→lower name needle h = elim (Bool-cases (equal name needle)) [
  | inl e ↦ ap lower (equal→eq name needle e)
  | inr e ↦ elim (Bool-cases (equal (normalize_port_label name) needle)) [
    | inl n ↦ ground arith
    | inr n ↦ elim (Bool-cases (starts_with (lower needle) (lower name))) [
      | inl p ↦
          lower-eq_of_rest name needle p
            ((rest_rank_cases (drop (length needle) name)).0 (ground arith))
      | inr p ↦ ground arith
    ]
  ]
]

equal-true_of_eq : {a b : Text} → a ≡ b → equal a b ≡ true
equal-true_of_eq {a} {b} e = rw e (equal_refl b)

equal-false_of_ne : (a b : Text) → a ≢ b → equal a b ≡ false
equal-false_of_ne a b h = elim (Bool-cases (equal a b)) [
  | inl e ↦ absurd (h (equal→eq a b e))
  | inr e ↦ e
]

drop_all : (s : Text) (n : ℕ) → length s ≡ n → drop n s ≡ []
drop_all [] zero h = refl
drop_all [] (suc n) h = refl
drop_all (c ∷ cs) zero h = ground arith
drop_all (c ∷ cs) (suc n) h = drop_all cs n (omega arith)

-- A name of the needle's length has no index to strip off.
normalize_ne :
    (name needle : Text)
    → length name ≡ length needle
    → equal name needle ≡ false
    → equal (normalize_port_label name) needle ≡ false
normalize_ne name needle h ne = equal-false_of_ne (normalize_port_label name) needle (λ e.
    elim (normalize-cases name) [
      | inl same ↦ cc (ne, equal-true_of_eq (sym same ∙ e))
      | inr indexed ↦ absurd (omega (arith, length-indexed indexed, ap (λ (t : Text). length t) e))
    ])

lower→rank_0 :
    (name needle : Text) → lower name ≡ lower needle → port_match_rank name needle ≡ some 0
unfolding port_match_rank
lower→rank_0 name needle h = elim (Bool-cases (equal name needle)) [
  | inl e ↦ ground arith
  | inr e ↦
      let n : length name ≡ length needle =
        omega (arith, ap (λ (t : Text). length t) h, length-lower name, length-lower needle) in
      let p : starts_with (lower needle) (lower name) ≡ true =
        rw h (rw append-nil at (starts_with-append (lower needle) [])) in
      ground (arith, normalize_ne name needle n e, p, drop_all name (length needle) n)
]

rank_1→indexed : (name needle : Text) → port_match_rank name needle ≡ some 1 → IsIndexed needle name
unfolding port_match_rank
rank_1→indexed name needle h = elim (Bool-cases (equal name needle)) [
  | inl e ↦ absurd (ground arith)
  | inr e ↦ elim (Bool-cases (equal (normalize_port_label name) needle)) [
    | inl n ↦ elim (normalize-cases name) [
      | inl same ↦
          absurd
            (cc (e, equal-true_of_eq (sym same ∙ equal→eq (normalize_port_label name) needle n)))
      | inr indexed ↦ rw (equal→eq (normalize_port_label name) needle n) at indexed
    ]
    | inr n ↦ absurd (ground (arith, (rest_rank_cases (drop (length needle) name)).1))
  ]
]

indexed→rank_1 : {name needle : Text} → IsIndexed needle name → port_match_rank name needle ≡ some 1
unfolding port_match_rank
indexed→rank_1 {name} {needle} h =
    let ne =
      equal-false_of_ne name needle
        (λ e. absurd (omega (arith, length-indexed h, ap (λ (t : Text). length t) e))) in
    ground (arith, ne, normalize_indexed h, equal_refl needle)

-- Rank 0 is given exactly to the names that equal the needle up to the case of letters, and rank 1
-- exactly to the needle with a space and a decimal index behind it.
pub port_match_rank_iff :
    (name needle : Text)
    → ((port_match_rank name needle ≡ some 0) ↔ (lower name ≡ lower needle))
      × ((port_match_rank name needle ≡ some 1) ↔ IsIndexed needle name)
port_match_rank_iff name needle = (
  (rank_0→lower name needle, lower→rank_0 name needle),
  (rank_1→indexed name needle, indexed→rank_1),
)

needle_of_index :
    (needle index : Text) (c : ℕ) (rest : Text)
    → needle ++ c ∷ rest ≡ needle ++ b' ' ∷ index
    → c ≡ b' '
needle_of_index [] index c rest h = ground arith
needle_of_index (d ∷ needle) index c rest h = needle_of_index needle index c rest (ground arith)

-- A longer name whose next character is not a space is no match: "MT4 Out 10" is none for the
-- needle "MT4 Out 1", nor is any other number that the needle's number begins.
pub port_match_rank_longer :
    (needle : Text) (c : ℕ) (rest : Text)
    → c ≢ b' '
    → port_match_rank (needle ++ c ∷ rest) needle ≡ none
unfolding port_match_rank
port_match_rank_longer needle c rest h =
    let name = needle ++ c ∷ rest in
    let ne = equal-false_of_ne name needle (λ e.
      absurd (omega (arith, length-append needle (c ∷ rest), ap (λ (t : Text). length t) e))) in
    let not_indexed = equal-false_of_ne (normalize_port_label name) needle (λ e.
      elim (normalize-cases name) [
        | inl same ↦ cc (ne, equal-true_of_eq (sym same ∙ e))
        | inr indexed ↦ h (needle_of_index needle indexed.index c rest (rw e at indexed.splits))
      ]) in
    ground (arith, ne, not_indexed, drop-length needle (c ∷ rest))
