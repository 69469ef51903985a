-- ===== src/Main/Options/Sets.antt =====
-- What the options on the command line set.
use cake.Prelude.{
  ℕ, ◌≡◌, refl, sym, ap, ◌∙◌, ◌⊎◌, inl, inr, Bool-cases, Bool, true, false, ◌||◌, Option, none,
  some, List, [], ◌∷◌, arith, if◌then◌else◌, ◌==◌, All,
}
use cake.Text.{Text}
use cake.System.{Os, Machine, Outcome, done, each, pure, ◌>>◌}
use cake.Utility.Print.{printerr}
use cake.Utility.Print.Laws.{printerr_lem}
use cake.Main.Options.{
  Key, letter, argument, end_of_arguments, another, Event, Parsing, set_globals, parse_letter,
  parse_argument, parse_key, parse_opt, parse_events, parse_options, set_g_target,
}
use cake.Main.Options.Given.{is_argument, latest, Flags, flags_of, Flags-trans, Flags-none}

-- An action that comes back with what the event sets.
record Sets {W : Type 0} (e : Event) (m : Machine W → Outcome Bool × Machine W) : Type 0 where
  at :
      (s : Machine W)
      → (a : Bool) × ((m s).0 ≡ done a) × (Flags (e ∷ []) s (m s).1 × ((m s).1.target ≡ s.target))

Sets-if :
    {W : Type 0} {e : Event} {m n : Machine W → Outcome Bool × Machine W} (c : Bool)
    → (c ≡ true → Sets e m)
    → (c ≡ false → Sets e n)
    → Sets e (if c then m else n)
Sets-if true hm hn = hm refl
Sets-if false hm hn = hn refl

module _ {W : Type 0} (os : Os W) (e : Event) where
  globals-Sets :
      (f : Machine W → Machine W)
      → ((s : Machine W) → Flags (e ∷ []) s (f s) × ((f s).target ≡ s.target))
      → Sets e (set_globals os f)
  unfolding set_globals
  globals-Sets f h = record { at = λ s. (true, refl, h s) }

  message-Sets :
      (msg : Text)
      → ((s : Machine W) (w : W) → Flags (e ∷ []) s (record s { world = w }))
      → Sets e (printerr os msg >> pure true)
  message-Sets msg h = record {
    at = λ s. let (w, q) = printerr_lem os msg s in rw q (true, refl, (h s w, refl));
  }

module _ {W : Type 0} (os : Os W) where
  parse_letter-Sets :
      (c : ℕ) (arg : Text) (n : ℕ)
      → Sets (record { key = letter c; arg = arg; arg_num = n }) (parse_letter os c arg)
  unfolding parse_letter
  parse_letter-Sets c arg n =
      let e : Event = record { key = letter c; arg = arg; arg_num = n } in
      Sets-if (c == b'q' || c == b's')
        (λ h. globals-Sets os e _ (λ s. (flags_of _ _ _ (ground arith) refl, refl)))
        λ quiet.
          Sets-if (c == b'v')
            (λ h. globals-Sets os e _ (λ s. (flags_of _ _ _ (ground arith) refl, refl)))
            λ verbose.
              Sets-if (c == b'r')
                (λ h. globals-Sets os e _ (λ s. (flags_of _ _ _ (ground arith) refl, refl)))
                λ rebuild.
                  Sets-if (c == b'c')
                    (λ h. message-Sets os e _ (λ s w. flags_of _ _ _ (ground arith) refl))
                    λ clean.
                      Sets-if (c == b'n')
                        (λ h. message-Sets os e _ (λ s w. flags_of _ _ _ (ground arith) refl))
                        λ new.
                          Sets-if (c == b'f')
                            (λ h.
                              globals-Sets os e _ (λ s. (flags_of _ _ _ (ground arith) refl, refl)))
                            λ file.
                              Sets-if (c == b'u')
                                (λ h.
                                  globals-Sets os e _
                                    (λ s. (flags_of _ _ _ (ground arith) refl, refl)))
                                λ colors. record {
                                  at = λ s.
                                      (false, refl, (flags_of _ _ _ (ground arith) refl, refl));
                                }

-- An argument is the first one.
abbrev pub IsFirst : Event → Type 0
IsFirst e = e.key ≡ argument → e.arg_num ≡ 0

-- What the events leave of the machine and of `args.target`.
record Parses {W : Type 0} (es : List Event) (p q : Parsing W) : Type 0 where
  flags : Flags es p.machine q.machine
  old_target : q.machine.target ≡ p.machine.target
  target : q.target ≡ latest is_argument es p.target

latest-start :
    (p : Key → Bool) (es : List Event) (o : Option Text)
    → ((latest p es none ≡ none) × (latest p es o ≡ o))
      ⊎ ((t : Text) × (latest p es none ≡ some t) × (latest p es o ≡ some t))
latest-start p [] o = inl (refl, refl)
latest-start p (e ∷ es) o = elim (Bool-cases (p e.key)) [
  | inl h ↦ elim (latest-start p es (some e.arg)) [
    | inl (a, b) ↦ inr (rw h (e.arg, b, b))
    | inr (t, a, b) ↦ inr (rw h (t, b, b))
  ]
  | inr h ↦ rw h (latest-start p es o)
]

module _ {W : Type 0} (os : Os W) (usage : W → W) where
  set_g_target-Flags :
      (es : List Event) (o : Option Text) (s t : Machine W)
      → o ≡ latest is_argument es none
      → t.target ≡ s.target
      → Flags es s t
      → ((set_g_target os usage o t).0 ≡ done tt)
        × Flags es s (set_g_target os usage o t).1
        × ((set_g_target os usage o t).1.target ≡ latest is_argument es s.target)
  unfolding set_g_target
  set_g_target-Flags es none s t h old f = elim (latest-start is_argument es s.target) [
    | inl (a, b) ↦ (refl, f, old ∙ sym b)
    | inr (x, a, b) ↦ cc
  ]
  set_g_target-Flags es (some x) s t h old f = elim (latest-start is_argument es s.target) [
    | inl (a, b) ↦ cc
    | inr (y, a, b) ↦ (
      refl,
      record {
        silent = f.silent;
        verbose = f.verbose;
        rebuild = f.rebuild;
        colors = f.colors;
        makefile = f.makefile;
        rest = f.rest;
      },
      h ∙ a ∙ sym b,
    )
  ]

  parse_key-Parses :
      (k : Key) (arg : Text) (n : ℕ) (p : Parsing W)
      → (k ≡ argument → n ≡ 0)
      → (a : Bool) × ((parse_key os usage k arg n p).0 ≡ done a)
        × Parses
            (record { key = k; arg = arg; arg_num = n } ∷ [])
            p
            (parse_key os usage k arg n p).1
  unfolding parse_key parse_argument
  parse_key-Parses (letter c) arg n p first =
      let (a, q, (f, t)) = (parse_letter-Sets os c arg n).at p.machine in
      (a, q, record { flags = f; old_target = t; target = refl })
  parse_key-Parses argument arg n p first = rw (first refl) (
    true,
    refl,
    record { flags = flags_of _ _ _ (ground arith) refl; old_target = refl; target = refl },
  )
  parse_key-Parses end_of_arguments arg n p first = (
    true,
    refl,
    record { flags = flags_of _ _ _ (ground arith) refl; old_target = refl; target = refl },
  )
  parse_key-Parses another arg n p first = (
    false,
    refl,
    record { flags = flags_of _ _ _ (ground arith) refl; old_target = refl; target = refl },
  )

  parse_events-Parses :
      (es : List Event) (p : Parsing W)
      → All IsFirst es
      → ((parse_events os usage es p).0 ≡ done tt) × Parses es p (parse_events os usage es p).1
  unfolding parse_events each parse_opt
  parse_events-Parses [] p first =
      (refl, record { flags = Flags-none p.machine; old_target = refl; target = refl })
  parse_events-Parses (e ∷ es) p (one, first) =
      let (a, q, h) = parse_key-Parses e.key e.arg e.arg_num p one in
      let r = parse_key os usage e.key e.arg e.arg_num p in
      let (b, g) = parse_events-Parses es r.1 first in
      rw q (
        b,
        record {
          flags = Flags-trans e es p.machine r.1.machine _ h.flags g.flags;
          old_target = g.old_target ∙ h.old_target;
          target = g.target ∙ ap (latest is_argument es) h.target;
        },
      )

  -- If every argument is the first one, then the options come back, each flag is set if it was or
  -- if one of its letters is given, the colors are off if they were or `u` is given, the makefile is that of the
  -- last `f`, the target is the last argument, and both are as before if there is none; the other
  -- globals are as before.
  pub parse_options-Flags :
      (es : List Event) (s : Machine W)
      → All IsFirst es
      → ((parse_options os usage es s).0 ≡ done tt)
        × Flags es s (parse_options os usage es s).1
        × ((parse_options os usage es s).1.target ≡ latest is_argument es s.target)
  unfolding parse_options
  parse_options-Flags es s first =
      let p : Parsing W = record { machine = s; target = none } in
      let (q, h) = parse_events-Parses es p first in
      rw q (
        set_g_target-Flags es _ s (parse_events os usage es p).1.machine h.target h.old_target
          h.flags)
