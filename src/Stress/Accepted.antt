-- ===== src/Stress/Accepted.antt =====
-- What a driver accepts, its children accept: no child is refused for its options.
use unitor_win64_driver.Base.{ℕ, ◌≡◌, Option, none, List, [], ◌∷◌, arith, Text, All}
use unitor_win64_driver.Options.{CommandLine}
use unitor_win64_driver.Options.Labs.{
  mid_options, validate_mid, validate_mid_mode, bank_options, validate_bank, validate_bank_mode,
  long_options, validate_long, validate_long_mode,
}
use unitor_win64_driver.Stress.{Label, mid, bank, long}
use unitor_win64_driver.Stress.Combined
use unitor_win64_driver.Stress.Macos
use unitor_win64_driver.Stress.Matrix
use unitor_win64_driver.Stress.LongLoop
use unitor_win64_driver.Stress.Longevity

-- The checks of the lab of a phase pass.
abbrev pub Accepts : Label → CommandLine → Type 0
Accepts mid argv =
    (validate_mid (mid_options argv) ≡ none) × (validate_mid_mode (mid_options argv) ≡ none)
Accepts bank argv =
    (validate_bank (bank_options argv) ≡ none) × (validate_bank_mode (bank_options argv) ≡ none)
Accepts long argv =
    (validate_long (long_options argv) ≡ none) × (validate_long_mode (long_options argv) ≡ none)

-- What a driver runs in a cycle, in one of the five scripts with the options that it got
pub data Driver : Type 0 where
  combined : Combined.Args → Text → Driver
  macos : Macos.Args → Driver
  matrix : Matrix.Args → Text → Driver
  long_loop : LongLoop.Args → Text → Driver
  longevity : Longevity.Args → Driver

abbrev pub refusal : Driver → Option Text
refusal (combined args bridge) = Combined.main_refusal args
refusal (macos args) = Macos.main_refusal args
refusal (matrix args bridge) = Matrix.main_refusal args
refusal (long_loop args bridge) = LongLoop.main_refusal args
refusal (longevity args) = Longevity.main_refusal args

abbrev pub phases : Driver → List Label
phases (combined args bridge) = mid ∷ bank ∷ long ∷ []
phases (macos args) = mid ∷ bank ∷ long ∷ []
phases (matrix args bridge) = mid ∷ bank ∷ []
phases (long_loop args bridge) = long ∷ []
phases (longevity args) = mid ∷ bank ∷ long ∷ []

abbrev pub command : (ℕ → Label → Text) → Driver → ℕ → Label → CommandLine
command dir (combined args bridge) = Combined.child_command dir args bridge
command dir (macos args) = Macos.child_command dir args
command dir (matrix args bridge) = Matrix.child_command dir args bridge
command dir (long_loop args bridge) = LongLoop.child_command dir args bridge
command dir (longevity args) = Longevity.child_command dir args

Combined-mid_accepted :
    (dir : ℕ → Label → Text) (args : Combined.Args) (bridge : Text) (cycle : ℕ)
    → Combined.main_refusal args ≡ none
    → Accepts mid (Combined.child_command dir args bridge cycle mid)
unfolding Combined.main_refusal Combined.child_command mid_options validate_mid validate_mid_mode
Combined-mid_accepted dir args bridge cycle h = ground arith

Combined-bank_accepted :
    (dir : ℕ → Label → Text) (args : Combined.Args) (bridge : Text) (cycle : ℕ)
    → Combined.main_refusal args ≡ none
    → Accepts bank (Combined.child_command dir args bridge cycle bank)
unfolding Combined.main_refusal Combined.child_command bank_options validate_bank validate_bank_mode
Combined-bank_accepted dir args bridge cycle h = ground arith

Combined-long_accepted :
    (dir : ℕ → Label → Text) (args : Combined.Args) (bridge : Text) (cycle : ℕ)
    → Combined.main_refusal args ≡ none
    → Accepts long (Combined.child_command dir args bridge cycle long)
unfolding Combined.main_refusal Combined.child_command long_options validate_long validate_long_mode
Combined-long_accepted dir args bridge cycle h = ground arith

Macos-mid_accepted :
    (dir : ℕ → Label → Text) (args : Macos.Args) (cycle : ℕ)
    → Macos.main_refusal args ≡ none
    → Accepts mid (Macos.child_command dir args cycle mid)
unfolding Macos.main_refusal Macos.child_command mid_options validate_mid validate_mid_mode
Macos-mid_accepted dir args cycle h = ground arith

Macos-bank_accepted :
    (dir : ℕ → Label → Text) (args : Macos.Args) (cycle : ℕ)
    → Macos.main_refusal args ≡ none
    → Accepts bank (Macos.child_command dir args cycle bank)
unfolding Macos.main_refusal Macos.child_command bank_options validate_bank validate_bank_mode
Macos-bank_accepted dir args cycle h = ground arith

Macos-long_accepted :
    (dir : ℕ → Label → Text) (args : Macos.Args) (cycle : ℕ)
    → Macos.main_refusal args ≡ none
    → Accepts long (Macos.child_command dir args cycle long)
unfolding Macos.main_refusal Macos.child_command long_options validate_long validate_long_mode
Macos-long_accepted dir args cycle h = ground arith

Matrix-mid_accepted :
    (dir : ℕ → Label → Text) (args : Matrix.Args) (bridge : Text) (cycle : ℕ)
    → Matrix.main_refusal args ≡ none
    → Accepts mid (Matrix.child_command dir args bridge cycle mid)
unfolding Matrix.main_refusal Matrix.child_command mid_options validate_mid validate_mid_mode
Matrix-mid_accepted dir args bridge cycle h = ground arith

Matrix-bank_accepted :
    (dir : ℕ → Label → Text) (args : Matrix.Args) (bridge : Text) (cycle : ℕ)
    → Matrix.main_refusal args ≡ none
    → Accepts bank (Matrix.child_command dir args bridge cycle bank)
unfolding Matrix.main_refusal Matrix.child_command bank_options validate_bank validate_bank_mode
Matrix-bank_accepted dir args bridge cycle h = ground arith

LongLoop-long_accepted :
    (dir : ℕ → Label → Text) (args : LongLoop.Args) (bridge : Text) (cycle : ℕ)
    → LongLoop.main_refusal args ≡ none
    → Accepts long (LongLoop.child_command dir args bridge cycle long)
unfolding LongLoop.main_refusal LongLoop.child_command long_options validate_long validate_long_mode
LongLoop-long_accepted dir args bridge cycle h = ground arith

Longevity-mid_accepted :
    (dir : ℕ → Label → Text) (args : Longevity.Args) (cycle : ℕ)
    → Longevity.main_refusal args ≡ none
    → Accepts mid (Longevity.child_command dir args cycle mid)
unfolding Longevity.main_refusal Longevity.child_command mid_options validate_mid validate_mid_mode
Longevity-mid_accepted dir args cycle h = ground arith

Longevity-bank_accepted :
    (dir : ℕ → Label → Text) (args : Longevity.Args) (cycle : ℕ)
    → Longevity.main_refusal args ≡ none
    → Accepts bank (Longevity.child_command dir args cycle bank)
unfolding Longevity.main_refusal Longevity.child_command bank_options validate_bank
    validate_bank_mode
Longevity-bank_accepted dir args cycle h = ground arith

Longevity-long_accepted :
    (dir : ℕ → Label → Text) (args : Longevity.Args) (cycle : ℕ)
    → Longevity.main_refusal args ≡ none
    → Accepts long (Longevity.child_command dir args cycle long)
unfolding Longevity.main_refusal Longevity.child_command long_options validate_long
    validate_long_mode
Longevity-long_accepted dir args cycle h = ground arith

-- If a driver accepts its own options, then in every cycle the lab of each phase accepts the
-- options that it is given; the text of the sizes is not looked at.
pub command-Accepts :
    (dir : ℕ → Label → Text) (d : Driver) (cycle : ℕ)
    → refusal d ≡ none
    → All (λ label. Accepts label (command dir d cycle label)) (phases d)
command-Accepts dir (combined args bridge) cycle h = (
  Combined-mid_accepted dir args bridge cycle h,
  (
    Combined-bank_accepted dir args bridge cycle h,
    (Combined-long_accepted dir args bridge cycle h, tt),
  ),
)
command-Accepts dir (macos args) cycle h = (
  Macos-mid_accepted dir args cycle h,
  (Macos-bank_accepted dir args cycle h, (Macos-long_accepted dir args cycle h, tt)),
)
command-Accepts dir (matrix args bridge) cycle h = (
  Matrix-mid_accepted dir args bridge cycle h,
  (Matrix-bank_accepted dir args bridge cycle h, tt),
)
command-Accepts dir (long_loop args bridge) cycle h =
    (LongLoop-long_accepted dir args bridge cycle h, tt)
command-Accepts dir (longevity args) cycle h = (
  Longevity-mid_accepted dir args cycle h,
  (Longevity-bank_accepted dir args cycle h, (Longevity-long_accepted dir args cycle h, tt)),
)
