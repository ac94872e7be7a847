-- ===== src/Ports/Select.antt =====
-- Which name `select_port` and `find_port` return.
use mathlib.Core.Logic.{∥∥₁_elim}
use mathlib.Core.List.{Perm, Permᴰ}
use unitor_win64_driver.Base.{
  ℕ, ◌≤◌, ◌≡◌, refl, sym, ap, ◌∙◌, inl, inr, Bool, true, false, Bool-cases, Option-cases, Option,
  none, some, List, [], ◌∷◌, arith, Text, ok, err, leb, ◌==◌, length, keep, All, text_le_total,
  text_le_antisymm, text_le_trans, sorted, insert_sorted, IsTotalOrder, IsSorted, cons,
  insert_sorted_comm, sorted-IsSorted, sorted-All,
}
use unitor_win64_driver.Ports.{
  port_match_rank, Ranked, rank_names, key_le, names_at, only, pick, select_port, find_port,
}

key_le-IsTotalOrder : IsTotalOrder key_le
key_le-IsTotalOrder = record {
  total = λ (r, a) (s, b). ground (arith, text_le_total a b);
  antisymm = λ (r, a) (s, b) h k. ground (arith, text_le_antisymm a b);
  trans = λ (r, a) (s, b) (t, c) h k. ground (arith, text_le_trans a b c);
}

abbrev ranks : Text → List Text → List Ranked
ranks needle names = sorted key_le (rank_names needle names)

-- One more name adds its entry in order, if it has a rank.
abbrev put : Option ℕ → Text → List Ranked → List Ranked
put none name entries = entries
put (some rank) name entries = insert_sorted key_le (rank, name) entries

ranks-put :
    (needle name : Text) (xs : List Text)
    → ranks needle (name ∷ xs) ≡ put (port_match_rank name needle) name (ranks needle xs)
unfolding rank_names
ranks-put needle name xs = elim (Option-cases (port_match_rank name needle)) [
  | inl n ↦ rw (n, rank_names)
  | inr (r, s) ↦ rw (s, rank_names)
]

put_comm :
    (o p : Option ℕ) (a b : Text) (entries : List Ranked)
    → put o a (put p b entries) ≡ put p b (put o a entries)
put_comm none p a b entries = refl
put_comm (some r) none a b entries = refl
put_comm (some r) (some s) a b entries =
    insert_sorted_comm key_le key_le-IsTotalOrder (r, a) (s, b) entries

ranks-swap :
    (needle a b : Text) (xs : List Text) → ranks needle (a ∷ b ∷ xs) ≡ ranks needle (b ∷ a ∷ xs)
ranks-swap needle a b xs =
    let at_a = port_match_rank a needle in
    let at_b = port_match_rank b needle in
    ranks-put needle a (b ∷ xs)
    ∙ ap (put at_a a) (ranks-put needle b xs)
    ∙ put_comm at_a at_b a b (ranks needle xs)
    ∙ sym (ap (put at_b b) (ranks-put needle a xs))
    ∙ sym (ranks-put needle b (a ∷ xs))

ranks-Permᴰ : (needle : Text) {xs ys : List Text} → Permᴰ xs ys → ranks needle xs ≡ ranks needle ys
ranks-Permᴰ needle Permᴰ.nil = refl
ranks-Permᴰ needle (Permᴰ.cons {a} {b} {l₁ = xs} {l₂ = ys} e d) = rw e (
    ranks-put needle b xs
    ∙ ap (put (port_match_rank b needle) b) (ranks-Permᴰ needle d)
    ∙ sym (ranks-put needle b ys))
ranks-Permᴰ needle (Permᴰ.swap {a} {b} {l} e f) = rw (← e, ← f) (ranks-swap needle a b l)
ranks-Permᴰ needle (Permᴰ.trans d e) = ranks-Permᴰ needle d ∙ ranks-Permᴰ needle e

-- Without the error's list of names, only the sorted entries count.
abbrev picked : List Ranked → Option Text
picked entries = elim (pick [] entries) [ ok name ↦ some name | err e ↦ none ]

find_port-picked :
    (names : List Text) (needle : Text) → find_port names needle ≡ picked (ranks needle names)
unfolding find_port
find_port-picked names needle = go (ranks needle names)
  where
    go :
        (entries : List Ranked)
        → ◌≡◌ {A = Option Text}
            (elim (pick names entries) [ ok name ↦ some name | err e ↦ none ])
            (picked entries)
    go [] = refl
    go (e ∷ es) = refl

-- The port found does not depend on the order in which the system lists the names.
pub find_port-Perm :
    (needle : Text) (xs ys : List Text) → Perm xs ys → find_port xs needle ≡ find_port ys needle
find_port-Perm needle xs ys h = ∥∥₁_elim h (option_text_set _ _) λ d.
    find_port-picked xs needle ∙ ap picked (ranks-Permᴰ needle d) ∙ sym (find_port-picked ys needle)
  where
    option_text_set : IsSet (Option Text)
    option_text_set = hlevel

-- The entries of the names carry the names' ranks: a name is kept by its rank or by its entry alike.
abbrev pub at_most : ℕ → Text → Text → Bool
at_most rank needle name = elim (port_match_rank name needle) [ none ↦ false | some r ↦ leb r rank ]

names_at-keep :
    (needle : Text) (best : ℕ) (names : List Text)
    → All (λ (e : Ranked). best ≤ e.0) (rank_names needle names)
    → names_at best (rank_names needle names) ≡ keep (at_most best needle) names
unfolding names_at rank_names
names_at-keep needle best [] h = refl
names_at-keep needle best (name ∷ names) h = elim (Option-cases (port_match_rank name needle)) [
  | inl n ↦ ground (arith, n, names_at-keep needle best names (rw (n, rank_names) at h))
  | inr (r, s) ↦
      let low : (best ≤ r) × All (λ (e : Ranked). best ≤ e.0) (rank_names needle names) =
        rw (s, rank_names) at h in
      ground (arith, s, low.0, names_at-keep needle best names low.1)
]

count_at-insert_sorted :
    (best : ℕ) (e : Ranked) (entries : List Ranked)
    → length (names_at best (insert_sorted key_le e entries)) ≡ length (names_at best (e ∷ entries))
unfolding names_at
count_at-insert_sorted best e [] = refl
count_at-insert_sorted best (r, a) ((s, b) ∷ entries) =
    ground (arith, count_at-insert_sorted best (r, a) entries)

count_at-sorted :
    (best : ℕ) (entries : List Ranked)
    → length (names_at best (sorted key_le entries)) ≡ length (names_at best entries)
unfolding names_at
count_at-sorted best [] = refl
count_at-sorted best ((r, a) ∷ entries) = ground (
  arith,
  count_at-insert_sorted best (r, a) (sorted key_le entries),
  count_at-sorted best entries,
)

-- Entries of the best rank are all for this name.
abbrev OnlyFor : ℕ → Text → Ranked → Type 0
OnlyFor best name (r, a) = r ≡ best → a ≡ name

names_at-none :
    (best : ℕ) (name : Text) (entries : List Ranked)
    → names_at best entries ≡ []
    → All (OnlyFor best name) entries
unfolding names_at
names_at-none best name [] h = tt
names_at-none best name ((r, a) ∷ entries) h =
    ((λ e. absurd (ground arith)), names_at-none best name entries (ground arith))

names_at-OnlyFor :
    (best : ℕ) (name : Text) (entries : List Ranked)
    → names_at best entries ≡ name ∷ []
    → All (OnlyFor best name) entries
unfolding names_at
names_at-OnlyFor best name [] h = tt
names_at-OnlyFor best name ((r, a) ∷ entries) h = elim (Bool-cases (r == best)) [
  | inl e ↦ ((λ q. ground arith), names_at-none best name entries (ground arith))
  | inr e ↦ ((λ q. absurd (ground arith)), names_at-OnlyFor best name entries (ground arith))
]

nil_of_length : (names : List Text) → length names ≡ 0 → names ≡ []
nil_of_length [] h = refl
nil_of_length (a ∷ names) h = absurd (omega arith)

OnlyFor-names_at :
    (best : ℕ) (name : Text) (entries : List Ranked)
    → All (OnlyFor best name) entries
    → length (names_at best entries) ≡ 1
    → names_at best entries ≡ name ∷ []
unfolding names_at
OnlyFor-names_at best name [] h n = ground arith
OnlyFor-names_at best name ((r, a) ∷ entries) h n = elim (Bool-cases (r == best)) [
  | inl e ↦ ground (arith, h.0 (ground arith), nil_of_length (names_at best entries))
  | inr e ↦ ground (arith, OnlyFor-names_at best name entries h.1)
]

-- The only entry of the best rank, in sorted order or not
names_at-sorted :
    (best : ℕ) (name : Text) (entries : List Ranked)
    → names_at best (sorted key_le entries) ≡ name ∷ []
    → names_at best entries ≡ name ∷ []
names_at-sorted best name entries h =
    OnlyFor-names_at best name entries
      (sorted-All key_le (OnlyFor best name) entries
        (names_at-OnlyFor best name (sorted key_le entries) h))
      (omega (arith, ap (λ (l : List Text). length l) h, count_at-sorted best entries))

abbrev AtLeast : ℕ → Ranked → Type 0
AtLeast best e = best ≤ e.0

head-AtLeast :
    (r : ℕ) (a : Text) (entries : List Ranked)
    → All (λ (e : Ranked). key_le (r, a) e ≡ true) entries
    → All (AtLeast r) entries
head-AtLeast r a [] h = tt
head-AtLeast r a ((s, b) ∷ entries) h = (ground arith, head-AtLeast r a entries h.1)

-- What `pick` returns is the only name of the first rank, which no entry undercuts.
picked-best :
    (names : List Text) (entries : List Ranked) {name : Text}
    → IsSorted key_le key_le-IsTotalOrder entries
    → pick names entries ≡ ok name
    → (best : ℕ) × All (AtLeast best) entries × (names_at best entries ≡ name ∷ [])
picked-best names [] s h = absurd (ground arith)
picked-best names ((r, a) ∷ entries) (cons low s) h =
    (r, (omega arith, head-AtLeast r a entries low), only_one (names_at r ((r, a) ∷ entries)) h)
  where
    only_one : (l : List Text) {name : Text} → only l ≡ ok name → l ≡ name ∷ []
    only_one [] h = ground arith
    only_one (x ∷ []) h = ground arith
    only_one (x ∷ y ∷ l) h = ground arith

-- The name that `select_port` returns is the only one of the listed names whose rank is the best:
-- no listed name has a lower rank, and no other entry of the list has the same.
pub select_port-best :
    (names : List Text) (needle : Text) {name : Text}
    → select_port names needle ≡ ok name
    → (best : ℕ) × (keep (at_most best needle) names ≡ name ∷ [])
unfolding select_port
select_port-best names needle {name} h =
    let entries = rank_names needle names in
    let sorted_ = sorted-IsSorted key_le key_le-IsTotalOrder entries in
    let (best, low, here) = picked-best names (sorted key_le entries) sorted_ h in
    let low' = sorted-All key_le (AtLeast best) entries low in
    (best, sym (names_at-keep needle best names low') ∙ names_at-sorted best name entries here)
