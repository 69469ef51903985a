-- ===== src/Tests/Options.antt =====
-- Command lines.
use cake.Prelude.{◌≡◌, refl, [], ◌∷◌, arith}
use cake.Text.{codes}
use cake.System.{done, stopped, exited}
use cake.Main.Options.{Event, letter, argument, parse_options}
use cake.Main.Options.Laws.{parse_options-argument}
use cake.Main.Options.Given.{Flags, latest, is_argument}
use cake.Main.Options.Sets.{parse_options-Flags}
use cake.Tests.World.{small, machine}

-- `cake -v debug release`
abbrev verbose : Event
verbose = record { key = letter b'v'; arg = []; arg_num = 0 }

abbrev first : Event
first = record { key = argument; arg = codes "debug"; arg_num = 0 }

abbrev second : Event
second = record { key = argument; arg = codes "release"; arg_num = 1 }

parse_options-argument_example :
    (parse_options small (λ w. w) (verbose ∷ first ∷ second ∷ []) machine).0 ≡ stopped (exited 64)
parse_options-argument_example =
    parse_options-argument small (λ w. w) (verbose ∷ first ∷ []) second [] machine refl
      (omega arith)

parse_options-Flags_example :
    ((parse_options small (λ w. w) (verbose ∷ first ∷ []) machine).0 ≡ done tt)
    × Flags
        (verbose ∷ first ∷ [])
        machine
        (parse_options small (λ w. w) (verbose ∷ first ∷ []) machine).1
    × ((parse_options small (λ w. w) (verbose ∷ first ∷ []) machine).1.target
        ≡ latest is_argument (verbose ∷ first ∷ []) machine.target)
parse_options-Flags_example =
    parse_options-Flags small (λ w. w) (verbose ∷ first ∷ []) machine (λ e. cc, (λ e. refl, tt))
