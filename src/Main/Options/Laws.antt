-- ===== src/Main/Options/Laws.antt =====
-- More than one argument is refused.
use cake.Prelude.{
  ℕ, ◌<◌, ◌≡◌, refl, ◌⊎◌, inl, inr, Bool, true, false, ◌||◌, if◌then◌else◌, List, [], ◌∷◌, ◌++◌,
  ltb, lt→ltb, ◌==◌, none,
}
use cake.Text.{Text, codes}
use cake.System.{Os, Machine, Act, done, stopped, exited, each, pure, ◌>>◌}
use cake.Utility.Print.{printerr}
use cake.Utility.Print.Laws.{printerr_lem}
use cake.Main.Options.{
  Key, letter, argument, end_of_arguments, another, Event, Parsing, set_globals, parse_letter,
  parse_argument, parse_key, parse_opt, parse_events, parse_options,
}

-- An action that comes back, or ends the process with the code EX_USAGE.
record Returns {S A : Type 0} (m : Act S A) : Type 0 where
  at : (s : S) → ((a : A) × ((m s).0 ≡ done a)) ⊎ ((m s).0 ≡ stopped (exited 64))

Returns-if :
    {S A : Type 0} {m n : Act S A} (c : Bool) → Returns m → Returns n → Returns (if c then m else n)
Returns-if true hm hn = hm
Returns-if false hm hn = hn

module _ {W : Type 0} (os : Os W) where
  message-Returns : (msg : Text) → Returns (printerr os msg >> pure true)
  message-Returns msg = record { at = λ s. inl (true, rw (printerr_lem os msg s).1 refl) }

  globals-Returns : (f : Machine W → Machine W) → Returns (set_globals os f)
  unfolding set_globals
  globals-Returns f = record { at = λ s. inl (true, refl) }

  parse_letter-Returns : (c : ℕ) (arg : Text) → Returns (parse_letter os c arg)
  unfolding parse_letter
  parse_letter-Returns c arg =
      Returns-if (c == b'q' || c == b's') (globals-Returns (λ s. record s { silent_flag = true })) (
        Returns-if (c == b'v') (globals-Returns (λ s. record s { verbose_flag = true })) (
          Returns-if (c == b'r') (globals-Returns (λ s. record s { rebuild_flag = true })) (
            Returns-if (c == b'c') (message-Returns (codes "no clean for you")) (
              Returns-if (c == b'n') (message-Returns (codes "no new for you")) (
                Returns-if (c == b'f') (globals-Returns (λ s. record s { makefile = arg })) (
                  Returns-if (c == b'u') (globals-Returns (λ s. record s { print_colors = false }))
                    (record { at = λ s. inl (false, refl) })))))))

module _ {W : Type 0} (os : Os W) (usage : W → W) where
  parse_key-Returns : (k : Key) (arg : Text) (n : ℕ) → Returns (parse_key os usage k arg n)
  unfolding parse_key parse_argument
  parse_key-Returns (letter c) arg n = record {
    at = λ s. (parse_letter-Returns os c arg).at s.machine;
  }
  parse_key-Returns argument arg n =
      Returns-if (ltb 0 n) (record { at = λ s. inr refl }) (record { at = λ s. inl (true, refl) })
  parse_key-Returns end_of_arguments arg n = record { at = λ s. inl (true, refl) }
  parse_key-Returns another arg n = record { at = λ s. inl (false, refl) }

  parse_opt-Returns : (e : Event) → Returns (parse_opt os usage e)
  unfolding parse_opt
  parse_opt-Returns e = parse_key-Returns e.key e.arg e.arg_num

  parse_opt-argument :
      (e : Event) (s : Parsing W)
      → e.key ≡ argument
      → 0 < e.arg_num
      → (parse_opt os usage e s).0 ≡ stopped (exited 64)
  unfolding parse_opt parse_key parse_argument
  parse_opt-argument e s k h = rw (k, lt→ltb 0 e.arg_num h) refl

  parse_events-argument :
      (before : List Event) (e : Event) (after : List Event) (s : Parsing W)
      → e.key ≡ argument
      → 0 < e.arg_num
      → (parse_events os usage (before ++ e ∷ after) s).0 ≡ stopped (exited 64)
  unfolding parse_events each
  parse_events-argument [] e after s k h = rw (parse_opt-argument e s k h) refl
  parse_events-argument (b ∷ before) e after s k h = elim ((parse_opt-Returns b).at s) [
    | inl (a, q) ↦ rw q (parse_events-argument before e after (parse_opt os usage b s).1 k h)
    | inr q ↦ rw q refl
  ]

  -- If an argument is not the first one, then the process ends with the code EX_USAGE, whatever
  -- the options before it are.
  pub parse_options-argument :
      (before : List Event) (e : Event) (after : List Event) (s : Machine W)
      → e.key ≡ argument
      → 0 < e.arg_num
      → (parse_options os usage (before ++ e ∷ after) s).0 ≡ stopped (exited 64)
  unfolding parse_options
  parse_options-argument before e after s k h =
      rw (parse_events-argument before e after (record { machine = s; target = none }) k h) refl
