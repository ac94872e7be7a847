-- ===== src/Loopback/Runs.antt =====
-- Runs of misses in a list of results.
use unitor_win64_driver.Base.{
  ℕ, zero, suc, ◌+◌, ◌<◌, ◌≡◌, refl, arith, Bool, true, false, ◌&&◌, ◌||◌, not, ltb, List, [], ◌∷◌,
  ◌++◌,
}

-- The list begins with so many misses.
abbrev pub begins : ℕ → List Bool → Bool
begins zero bs = true
begins (suc k) [] = false
begins (suc k) (b ∷ bs) = not b && begins k bs

-- Somewhere in the list there are so many misses in a row.
abbrev pub has_run : ℕ → List Bool → Bool
has_run k [] = begins k []
has_run k (b ∷ bs) = begins k (b ∷ bs) || has_run k bs

abbrev pub misses : ℕ → List Bool
misses zero = []
misses (suc n) = false ∷ misses n

pub misses-suc : (n : ℕ) (bs : List Bool) → misses n ++ false ∷ bs ≡ misses (suc n) ++ bs
misses-suc zero bs = refl
misses-suc (suc n) bs = ground (arith, misses-suc n bs)

begins-misses : (n : ℕ) (bs : List Bool) → begins n (misses n ++ bs) ≡ true
begins-misses zero bs = refl
begins-misses (suc n) bs = begins-misses n bs

pub has_run-misses : (n : ℕ) (bs : List Bool) → has_run n (misses n ++ bs) ≡ true
has_run-misses zero [] = refl
has_run-misses zero (b ∷ bs) = refl
has_run-misses (suc n) bs = ground (arith, begins-misses n bs)

-- Fewer misses than the run needs, then a hit or the end
begins_few : (c k : ℕ) (bs : List Bool) → c < k → begins k (misses c ++ true ∷ bs) ≡ false
begins_few c zero bs h = absurd (omega arith)
begins_few zero (suc k) bs h = refl
begins_few (suc c) (suc k) bs h = begins_few c k bs (omega arith)

begins_end : (c k : ℕ) → c < k → begins k (misses c) ≡ false
begins_end c zero h = absurd (omega arith)
begins_end zero (suc k) h = refl
begins_end (suc c) (suc k) h = begins_end c k (omega arith)

pub has_run_few :
    (c k : ℕ) (bs : List Bool) → c < k → has_run k (misses c ++ true ∷ bs) ≡ has_run k bs
has_run_few zero k bs h = ground (arith, begins_few zero k bs h)
has_run_few (suc c) k bs h = ground (arith, begins_few (suc c) k bs h, has_run_few c k bs)

pub has_run_end : (c k : ℕ) → c < k → has_run k (misses c) ≡ false
has_run_end zero k h = begins_end zero k h
has_run_end (suc c) k h = ground (arith, begins_end (suc c) k h, has_run_end c k)

-- The test of the abort, with a hit, a miss and the last miss next
abbrev pub aborts_on : ℕ → List Bool → Bool
aborts_on k results = ltb 0 k && has_run k results

pub aborts_on-hit :
    (c k : ℕ) (bs : List Bool)
    → (ltb 0 k ≡ true → c < k)
    → aborts_on k bs ≡ aborts_on k (misses c ++ true ∷ bs)
aborts_on-hit c zero bs b = ground arith
aborts_on-hit c (suc k) bs b = ground (arith, has_run_few c (suc k) bs (b (ground arith)))

pub aborts_on-miss :
    (c k : ℕ) (bs : List Bool)
    → aborts_on k (misses (c + 1) ++ bs) ≡ aborts_on k (misses c ++ false ∷ bs)
aborts_on-miss c k bs = let e : c + 1 ≡ suc c = omega arith in rw (e, misses-suc c bs) refl

pub aborts_on-last :
    (c k : ℕ) (bs : List Bool) → k ≡ suc c → true ≡ aborts_on k (misses c ++ false ∷ bs)
aborts_on-last c k bs e = rw (e, misses-suc c bs) (ground (arith, has_run-misses (suc c) bs))
