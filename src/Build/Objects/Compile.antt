-- ===== src/Build/Objects/Compile.antt =====
-- `compile` adds the objects of the files to the account.
use cake.Prelude.{
  ℕ, ◌+◌, ◌<◌, ◌≡◌, refl, sym, subst, ◌⊎◌, not, List, [], ◌∷◌, map, arith, All, length,
}
use cake.Text.{Text}
use cake.System.{Os, Stop, overrun, look, each}
use cake.System.Ends.{
  Ends, Ends-pure, Ends-gets, Ends-if, Ends-bind, Ends-weaken, Ends-known, Ends-modify,
}
use cake.File.{mkpath}
use cake.Build.{on_build, of_build}
use cake.Build.Names.{mkobjname, objname_of}
use cake.Build.Rebuild.{needs_rebuild}
use cake.Build.Jobs.Slots.{ForksApart}
use cake.Build.Compile.{
  do_compile, compile, compile_each, compile_file, skip_file, compile_args, announce,
}
use cake.Build.Objects.{one, running, occurrences, occurrences-append}
use cake.Build.Objects.Sites.{Has-change, Whole, Whole-after, Whole-knowing, Whole-on_build}
use cake.Build.Objects.Files.{mkpath-Stays}
use cake.Build.Objects.Steps.{
  ShortName, mkobjname-ends, needs_rebuild-Stays, compile_args-Stays, announce-Stays,
}
use cake.Build.Objects.Add.{add_compile_job-Whole}

-- The files that a pattern stands for: what it matches, or itself.
abbrev pub sources : List Text → Text → List Text
sources [] f = f ∷ []
sources (g ∷ gs) f = g ∷ gs

module _ {W : Type 0} (os : Os W) (apart : ForksApart os) (E : Stop → Type 0) (d x : Text) where
  skip_file-Whole :
      (name : Text) (o : ℕ)
      → Ends E (Whole os E d x o) (skip_file os name) (λ _. Whole os E d x (one x name + o))
  unfolding skip_file
  skip_file-Whole name o = Ends-modify _ λ s p. record {
    folder = p.folder;
    slot = p.slot;
    room = p.room;
    links = λ f. omega (arith, p.links f, occurrences-append x s.build.linklist (name ∷ []));
  }

  compile_file-Whole :
      (f cflags name : Text) (o : ℕ)
      → Ends E
          (Whole os E d x o)
          (compile_file os f cflags name)
          (λ _. Whole os E d x (one x name + o))
  unfolding compile_file
  compile_file-Whole f cflags name o =
      Ends-bind {R = λ c s. Whole os E d x o s × ((2 + length c < 260) ⊎ E overrun)}
        (of_build (λ b. b.pchname)) (Ends-gets (λ s. s.build.pchname) (λ s p. (p, p.room)))
        λ pchname. Ends-known λ room.
          Whole-after os E d x o (compile_args os pchname f cflags name)
            (compile_args-Stays os E d pchname f cflags name room)
            λ args.
              Whole-after os E d x o (announce os f args) (announce-Stays os E d f args)
                λ _. add_compile_job-Whole os apart E d x name args o

  do_compile-Whole :
      (f cflags : Text) (o : ℕ)
      → ShortName E d f
      → Ends E
          (Whole os E d x o)
          (do_compile os f cflags)
          (λ _. Whole os E d x (one x (objname_of d f) + o))
  unfolding do_compile
  do_compile-Whole f cflags o short =
      Ends-bind (on_build (λ b. record b { nprocessed = b.nprocessed + 1 }))
        (Whole-on_build os E d x o _ (λ b. (refl, refl, refl, refl)))
        λ _. Whole-knowing os E d x o (mkobjname f) (mkobjname-ends os E d f short) λ name e.
          Ends-weaken (λ s p. p) (λ _ s p. subst (λ n. Whole os E d x (one x n + o) s) e p)
            (Whole-after os E d x o (mkpath os name) (mkpath-Stays os E d name) λ _.
              Whole-after os E d x o (needs_rebuild os f name)
                (needs_rebuild-Stays os E d f name short)
                λ stale.
                  Ends-if (not stale) (λ _. skip_file-Whole name o)
                    (λ _. compile_file-Whole f cflags name o))

  compile_every-Whole :
      (fs : List Text) (cflags : Text) (o : ℕ)
      → All (ShortName E d) fs
      → Ends E
          (Whole os E d x o)
          (each (λ f. do_compile os f cflags) fs)
          (λ _. Whole os E d x (occurrences x (map (objname_of d) fs) + o))
  unfolding each
  compile_every-Whole [] cflags o short = Ends-pure tt λ s p.
      Has-change os E d x (running x s.build.jobs) o (running x s.build.jobs) _ s
        (λ k e. omega (arith, e)) p
  compile_every-Whole (f ∷ fs) cflags o short =
      Ends-bind (do_compile os f cflags) (do_compile-Whole f cflags o short.0) λ _.
        Ends-weaken (λ s p. p)
          (λ _ s p.
            Has-change os E d x (running x s.build.jobs) _ (running x s.build.jobs) _ s
              (λ k e. omega (arith, e)) p)
          (compile_every-Whole fs cflags (one x (objname_of d f) + o) short.1)

  compile_each-Whole :
      (found : List Text) (f cflags : Text) (o : ℕ)
      → All (ShortName E d) (sources found f)
      → Ends E
          (Whole os E d x o)
          (compile_each os found f cflags)
          (λ _. Whole os E d x (occurrences x (map (objname_of d) (sources found f)) + o))
  unfolding compile_each each
  compile_each-Whole [] f cflags o short =
      Ends-weaken (λ s p. p)
        (λ _ s p.
          Has-change os E d x (running x s.build.jobs) _ (running x s.build.jobs) _ s
            (λ k e. omega (arith, e)) p)
        (do_compile-Whole f cflags o short.0)
  compile_each-Whole (g ∷ gs) f cflags o short = compile_every-Whole (g ∷ gs) cflags o short

  pub compile-Whole :
      (found : List Text) (f cflags : Text) (o : ℕ)
      → ((w : W) → os.glob f w ≡ found)
      → All (ShortName E d) (sources found f)
      → Ends E
          (Whole os E d x o)
          (compile os f cflags)
          (λ _. Whole os E d x (occurrences x (map (objname_of d) (sources found f)) + o))
  unfolding compile
  compile-Whole found f cflags o matches short =
      Whole-knowing os E d x {R = λ a. a ≡ found} o (look (os.glob f))
        (record { at = λ s p. (p, matches s.world) })
        λ a e.
          subst
            (λ fs.
              Ends E (Whole os E d x o) (compile_each os fs f cflags)
                (λ _. Whole os E d x (occurrences x (map (objname_of d) (sources found f)) + o)))
            (sym e) (compile_each-Whole found f cflags o short)
