-- ===== src/Main/Options.antt =====
-- cake.cpp: `parse_opt` and `parse_options`.
pub mod Laws
pub mod Given
pub mod Sets
use cake.Prelude.{ℕ, Bool, true, false, ◌||◌, Option, none, some, List, ltb, ◌==◌, if◌then◌else◌}
use cake.Text.{Text, codes}
use cake.System.{Os, Machine, M, Act, resume, ◌>>◌, pure, stop, skip, modify, change, exited, each}
use cake.Utility.Print.{printerr}

pub data Key : Type 0 where
  letter : ℕ → Key
  argument end_of_arguments another : Key

-- One call of `parse_opt` by `argp_parse`: the key, the text that goes with it, and how many
-- arguments came before.
pub record Event : Type 0 where
  pub key : Key
  pub arg : Text
  pub arg_num : ℕ

-- The machine, and `args.target`.
pub record Parsing (W : Type 0) : Type 0 where
  pub machine : Machine W
  pub target : Option Text

abbrev pub on_globals : {W A : Type 0} → M W A → Act (Parsing W) A
on_globals m s = ((m s.machine).0, record s { machine = (m s.machine).1 })

module _ {W : Type 0} (os : Os W) where
  unfoldable pub set_globals : (Machine W → Machine W) → M W Bool
  set_globals f = modify f >> pure true

  -- `false` is ARGP_ERR_UNKNOWN.
  unfoldable pub parse_letter : ℕ → Text → M W Bool
  parse_letter c arg =
      if c == b'q' || c == b's'
      then set_globals (λ s. record s { silent_flag = true })
      else if c == b'v'
      then set_globals (λ s. record s { verbose_flag = true })
      else if c == b'r'
      then set_globals (λ s. record s { rebuild_flag = true })
      else if c == b'c'
      then printerr os (codes "no clean for you") >> pure true
      else if c == b'n'
      then printerr os (codes "no new for you") >> pure true
      else if c == b'f'
      then set_globals (λ s. record s { makefile = arg })
      else if c == b'u'
      then set_globals (λ s. record s { print_colors = false })
      else pure false

module _ {W : Type 0} (os : Os W) (argp_usage : W → W) where
  -- `argp_usage` prints and ends the process with the code EX_USAGE.
  unfoldable pub parse_argument : Text → ℕ → Act (Parsing W) Bool
  parse_argument arg arg_num =
      if ltb 0 arg_num
      then (on_globals (change argp_usage) >> stop (exited 64))
      else (modify (λ s. record s { target = some arg }) >> pure true)

  unfoldable pub parse_key : Key → Text → ℕ → Act (Parsing W) Bool
  parse_key (letter c) arg arg_num = on_globals (parse_letter os c arg)
  parse_key argument arg arg_num = parse_argument arg arg_num
  parse_key end_of_arguments arg arg_num = pure true
  parse_key another arg arg_num = pure false

  unfoldable pub parse_opt : Event → Act (Parsing W) Bool
  parse_opt e = parse_key e.key e.arg e.arg_num

  unfoldable pub set_g_target : Option Text → M W (Unit {0})
  set_g_target none = skip
  set_g_target (some target) = modify (λ s. record s { target = some target })

  -- `argp_parse` calls `parse_opt` on each of the events in order. It passes over a key that is
  -- unknown to it.
  unfoldable pub parse_events : List Event → Act (Parsing W) (Unit {0})
  parse_events events = each (λ e. parse_opt e >> skip) events

  unfoldable pub parse_options : List Event → M W (Unit {0})
  parse_options events s =
      let r = parse_events events (record { machine = s; target = none }) in
      resume r.0 (λ _. set_g_target r.1.target) r.1.machine
