-- ===== src/Cli.antt =====
-- The commands of main.go that compute: `formatBytes`, `splitCommand` and `parseRunOptions`.
pub mod Bytes
pub mod Commands
pub mod Print
use dialtone_watcher.Prelude.{
  ℕ, zero, suc, ◌+◌, ◌*◌, ◌/◌, ◌%◌, ◌^◌, Bool, true, false, Option, none, some, List, [], ◌∷◌, ◌++◌,
  Text, codes, ltb, get_elem?, nat_eq, list_eq, ◌==◌, if◌then◌else◌, ◌≡◌, refl,
}
use dialtone_watcher.Words.{u64}
use dialtone_watcher.Decimal.{format_uint}

pub record RunOptions : Type 0 where
  pub test_mode : Bool

unfoldable pub split_command : List Text → Text × List Text
split_command [] = ([], [])
split_command (command ∷ args) = (command, args)

-- the loop over `args`; `none` is the error of an unknown option
unfoldable pub parse_options : RunOptions → List Text → Option RunOptions
parse_options options [] = some options
parse_options options (arg ∷ args) =
    let rest = parse_options (record { test_mode = true }) args in
    if arg == codes "--test" then rest else none

unfoldable pub parse_run_options : List Text → Option RunOptions
unfolding parse_options
parse_run_options args = parse_options (record { test_mode = false }) args

abbrev pub unit : ℕ
unit = 1024

-- `for n := value / unit; n >= unit; n /= unit`; `none` means that the fuel ran out.
unfoldable pub scale : ℕ → ℕ → ℕ → ℕ → Option (ℕ × ℕ)
scale zero n divisor exp = none
scale (suc fuel) n divisor exp =
    let rest = scale fuel (n / unit) ((divisor * unit) % u64) (exp + 1) in
    if ltb n unit then some (divisor, exp) else rest

-- What `formatBytes` prints: a whole number of bytes, or a quotient with one decimal and the letter
-- of a unit. The rounding of `%.1f` is not modelled.
pub data Shown : Type 0 where
  plain : ℕ → Shown
  scaled : ℕ → ℕ → ℕ → Shown

-- `"KMGTPE"[exp]`; `none` is the panic of an index out of range
abbrev pub letter : ℕ → Option ℕ
letter exp = get_elem? (codes "KMGTPE") exp

abbrev pub with_letter : ℕ → ℕ → Option ℕ → Option Shown
with_letter value divisor none = none
with_letter value divisor (some c) = some (scaled value divisor c)

abbrev pub show_scaled : ℕ → Option (ℕ × ℕ) → Option Shown
show_scaled value none = none
show_scaled value (some (divisor, exp)) = with_letter value divisor (letter exp)

unfoldable pub format_bytes : ℕ → Option Shown
unfolding scale
format_bytes value =
    if ltb value unit then some (plain value) else show_scaled value (scale 6 (value / unit) unit 0)
