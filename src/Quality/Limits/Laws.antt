-- ===== src/Quality/Limits/Laws.antt =====
-- The severities grow with the measure, and where they change.
use unitor_win64_driver.Base.{ℕ, ◌≤◌, ◌≡◌, refl, arith, int_times_1_4, int_times, bit_length}
use unitor_win64_driver.Quality.Lines.{Lang, cpp, scripts}
use unitor_win64_driver.Quality.Limits.{
  Severity, critical, serious, light, severity_for_nloc, severity_for_ccn, severity_for_file,
}

-- light is 0, serious 1, critical 2
abbrev pub grade : Severity → ℕ
grade light = 0
grade serious = 1
grade critical = 2

-- A longer function, a more complex one and a larger file never get a lower grade.
pub severity_monotone :
    (a b limit : ℕ) (lang : Lang)
    → a ≤ b
    → (grade (severity_for_nloc a limit) ≤ grade (severity_for_nloc b limit))
      × (grade (severity_for_ccn a limit) ≤ grade (severity_for_ccn b limit))
      × (grade (severity_for_file a lang) ≤ grade (severity_for_file b lang))
unfolding severity_for_nloc severity_for_ccn severity_for_file
severity_monotone a b limit cpp h = (ground arith, ground arith, ground arith)
severity_monotone a b limit scripts h = (ground arith, ground arith, ground arith)

-- The first length that is serious at each of the four limits
thresholds :
    (int_times_1_4 40 ≡ 56)
    × (int_times_1_4 50 ≡ 70)
    × (int_times_1_4 70 ≡ 98)
    × (int_times_1_4 90 ≡ 125)
unfolding int_times_1_4 int_times bit_length
thresholds = (refl, refl, refl, refl)
