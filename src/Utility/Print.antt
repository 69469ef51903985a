-- ===== src/Utility/Print.antt =====
-- utility.h: `printerr`, `cprintf` and `verbed`. A message is passed with its values filled in.
pub mod Laws
use cake.Prelude.{
  ℕ, zero, suc, ◌+◌, ◌/◌, ◌%◌, Bool, true, false, ◌||◌, not, List, [], ◌∷◌, ◌++◌, ltb,
  if◌then◌else◌, take, ◌==◌,
}
use cake.Text.{Text, codes}
use cake.System.{Os, Machine, M, ◌>>=◌, ◌>>◌, pure, gets, change}

-- `%d`, on fuel: a number has at most as many digits as its value, and one.
decimal_from : ℕ → ℕ → Text
decimal_from zero n = []
decimal_from (suc fuel) n =
    let rest = decimal_from fuel (n / 10) ++ (b'0' + n % 10) ∷ [] in
    if ltb n 10 then (b'0' + n) ∷ [] else rest

unfoldable pub decimal : ℕ → Text
unfolding decimal_from
decimal n = decimal_from (suc n) n

abbrev pub red : ℕ
red = 91

abbrev pub green : ℕ
green = 92

abbrev pub yellow : ℕ
yellow = 93

abbrev pub blue : ℕ
blue = 94

abbrev pub white : ℕ
white = 97

-- The line that is written, cut to the 1023 bytes that fit the buffer.
unfoldable pub line : Bool → ℕ → Text → Text
unfolding decimal
line colors color msg =
    if colors
    then 27 ∷ b'[' ∷ decimal color ++ b'm' ∷ take 1023 msg ++ 27 ∷ codes "[0m" ++ 10 ∷ []
    else take 1023 msg ++ 10 ∷ []

-- The text `%d %s %s.` of `verbed`.
count_line : ℕ → Text → Text
unfolding decimal
count_line c verb = decimal c ++ codes (if c == 1 then " file " else " files ") ++ verb ++ codes "."

module _ {W : Type 0} (os : Os W) where
  unfoldable pub cprintf : ℕ → Text → M W (Unit {0})
  unfolding line
  cprintf color msg = do
    silent ← gets (λ s. s.silent_flag)
    colors ← gets (λ s. s.print_colors)
    if silent then pure tt else change (os.print_out (line colors color msg))

  unfoldable pub printerr : Text → M W (Unit {0})
  unfolding line
  printerr msg = do
    silent ← gets (λ s. s.silent_flag)
    colors ← gets (λ s. s.print_colors)
    if silent then pure tt else change (os.print_err (line colors red msg))

  unfoldable pub verbed : ℕ → Text → ℕ → M W (Unit {0})
  unfolding cprintf count_line
  verbed c verb color = do
    silent ← gets (λ s. s.silent_flag)
    (if c == 0 || silent then pure tt else cprintf color (count_line c verb))
