-- ===== src/Main/Options/Given.antt =====
-- The globals that the options on the command line set.
use cake.Prelude.{
  ℕ, ◌≡◌, refl, ap, ◌∙◌, Bool, true, false, not, ◌&&◌, ◌||◌, Option, some, List, [], ◌∷◌, arith,
  if◌then◌else◌, ◌==◌,
}
use cake.Text.{Text}
use cake.System.{Machine}
use cake.Main.Options.{Key, letter, argument, end_of_arguments, another, Event}

abbrev pub is_letter : ℕ → Key → Bool
is_letter c (letter d) = d == c
is_letter c argument = false
is_letter c end_of_arguments = false
is_letter c another = false

abbrev pub is_argument : Key → Bool
is_argument (letter c) = false
is_argument argument = true
is_argument end_of_arguments = false
is_argument another = false

-- Whether the option is given.
abbrev pub given : ℕ → List Event → Bool
given c [] = false
given c (e ∷ es) = is_letter c e.key || given c es

-- The text of the last such event, or else the one from before.
abbrev pub latest : (Key → Bool) → List Event → Option Text → Option Text
latest p [] before = before
latest p (e ∷ es) before = latest p es (if p e.key then some e.arg else before)

-- What no option sets, but for the target.
abbrev pub others : {W : Type 0} → Machine W → Text × Option Text × Bool × ℕ × ℕ × ℕ
others s = (s.objdir, s.home, s.making_cpp, s.makefile_time, s.newest_time, s.seed)

-- The machine after the options, but for what was printed and the target.
pub record Flags {W : Type 0} (events : List Event) (s t : Machine W) : Type 0 where
  pub silent : t.silent_flag ≡ (s.silent_flag || (given b'q' events || given b's' events))
  pub verbose : t.verbose_flag ≡ (s.verbose_flag || given b'v' events)
  pub rebuild : t.rebuild_flag ≡ (s.rebuild_flag || given b'r' events)
  pub colors : t.print_colors ≡ (s.print_colors && not (given b'u' events))
  pub makefile : some t.makefile ≡ latest (is_letter b'f') events (some s.makefile)
  pub rest : others t ≡ others s

-- The five that an option can set, and the others.
pub flags_of :
    {W : Type 0} (events : List Event) (s t : Machine W)
    → (t.silent_flag ≡ (s.silent_flag || (given b'q' events || given b's' events)))
      × (t.verbose_flag ≡ (s.verbose_flag || given b'v' events))
      × (t.rebuild_flag ≡ (s.rebuild_flag || given b'r' events))
      × (t.print_colors ≡ (s.print_colors && not (given b'u' events)))
      × (some t.makefile ≡ latest (is_letter b'f') events (some s.makefile))
    → others t ≡ others s
    → Flags events s t
flags_of events s t (silent, verbose, rebuild, colors, makefile) rest = record {
  silent = silent;
  verbose = verbose;
  rebuild = rebuild;
  colors = colors;
  makefile = makefile;
  rest = rest;
}

pub Flags-trans :
    {W : Type 0} (e : Event) (es : List Event) (s t u : Machine W)
    → Flags (e ∷ []) s t
    → Flags es t u
    → Flags (e ∷ es) s u
Flags-trans e es s t u f g = record {
  silent = ground (arith, f.silent, g.silent);
  verbose = ground (arith, f.verbose, g.verbose);
  rebuild = ground (arith, f.rebuild, g.rebuild);
  colors = ground (arith, f.colors, g.colors);
  makefile = g.makefile ∙ ap (latest (is_letter b'f') es) f.makefile;
  rest = g.rest ∙ f.rest;
}

pub Flags-none : {W : Type 0} (s : Machine W) → Flags [] s s
Flags-none s = flags_of _ _ _ (ground arith) refl
