-- ===== src/Build/Compile/Arguments.antt =====
-- The command line of a compilation.
use cake.Prelude.{
  ◌+◌, ◌<◌, ◌≡◌, refl, ◌∙◌, ap, inl, inr, false, Bool-cases, Option-cases, Option, none, some, List,
  [], ◌∷◌, ◌++◌, if◌then◌else◌, All, length, lt→ltb, arith,
}
use cake.Text.{Text, codes, tokens}
use cake.ArgList.{ArgList, contains, add_arg, add_args, insert_spacedelim, line_buffer, blanks}
use cake.ArgList.Laws.{
  IsDistinct, IsDistinct-append, add_args_new, add_args-IsDistinct, contains-add_args,
  add_args-append,
}
use cake.Config.{compiler, compile_options}
use cake.System.{Os, Stat, Machine, done}
use cake.System.Ends.{Never}
use cake.File.{path, is_dir}
use cake.File.Path.{path_of}
use cake.Build.Objects.Machine.{Stays-back}
use cake.Build.Objects.Files.{path-Stays}
use cake.Build.Objects.Steps.{announce-Stays}
use cake.Build.Compile.{debug_flag, add_pch, compile_args, announce, compile_file}
use cake.Build.Jobs.{add_compile_job}
use cake.Build.{Site}

-- The folder of a path, which may be a folder itself.
abbrev pub folder_at : Text → Option Stat → Text
folder_at t none = path_of t
folder_at t (some st) = if st.is_directory then t else path_of t

-- What a compilation writes, and what it reads.
abbrev pub source_and_object : Text → Text → List Text
source_and_object fname objname = fname ∷ codes "-o" ∷ objname ∷ []

appended :
    (xs ys zs : List Text) (d : Text)
    → add_args (add_arg (add_args (add_args [] xs) ys) d) zs ≡ add_args [] (xs ++ ys ++ d ∷ zs)
unfolding add_args
appended xs ys zs d =
    ap (λ z. add_args z (d ∷ zs)) (add_args-append [] xs ys)
    ∙ add_args-append [] (xs ++ ys) (d ∷ zs)

new_inserted :
    (ys xs : List Text)
    → All (λ y. contains xs y ≡ false) ys
    → All (λ y. contains (add_args [] xs) y ≡ false) ys
unfolding contains
new_inserted [] xs n = tt
new_inserted (y ∷ ys) xs n = (contains-add_args xs [] y ∙ n.0, new_inserted ys xs n.1)

-- Arguments that differ from one another and from all others come last.
come_last :
    (xs ys : List Text)
    → IsDistinct ys
    → All (λ y. contains xs y ≡ false) ys
    → add_args (add_args [] xs) ys ≡ add_args [] xs ++ ys
unfolding contains
come_last xs ys d n =
    add_args_new ys (add_args [] xs) (
      IsDistinct-append ys (add_args [] xs) (add_args-IsDistinct xs [] tt) d (new_inserted ys xs n))

module _ {W : Type 0} (os : Os W) where
  abbrev pub folder_of : Text → W → Text
  folder_of t w = folder_at t (os.stat t w)

  pub path_lem : (t : Text) (s : Machine W) → path os t s ≡ (done (folder_of t s.world), s)
  unfolding path is_dir
  path_lem t s = elim (Option-cases (os.stat t s.world)) [
    | inl gone ↦ rw gone refl
    | inr (st, there) ↦ elim (Bool-cases st.is_directory) [
      | inl e ↦ rw (there, e) refl
      | inr e ↦ rw (there, e) refl
    ]
  ]

  -- The include path of the precompiled header, if there is one.
  abbrev pub pch_include : Text → W → List Text
  pch_include [] w = []
  pch_include (c ∷ cs) w = (codes "-I" ++ folder_of (c ∷ cs) w) ∷ []

  pub add_pch_lem :
      (pchname : Text) (args : ArgList) (s : Machine W)
      → 2 + length pchname < 260
      → add_pch os pchname args s ≡ (done (add_args args (pch_include pchname s.world)), s)
  unfolding add_pch add_args
  add_pch_lem [] args s room = refl
  add_pch_lem (c ∷ cs) args s room =
      let short =
        (rw (path_lem (c ∷ cs) s) at ((path-Stays os Never s.objdir (c ∷ cs)).at s refl)).1 in
      rw
        (
          path_lem (c ∷ cs) s,
          lt→ltb (length (codes "-I" ++ folder_of (c ∷ cs) s.world)) 260 (omega arith),
        )
        refl

  -- The compiler, its options, the folder of the precompiled header, the debug flag, and the words of
  -- the flags.
  abbrev pub options_of : Text → Text → Machine W → List Text
  options_of pchname cflags s =
      (compiler ∷ compile_options)
      ++ pch_include pchname s.world
      ++ debug_flag s.target ∷ tokens blanks (line_buffer os.beyond cflags)

  compile_args_lem :
      (pchname fname cflags objname : Text) (s : Machine W)
      → 2 + length pchname < 260
      → compile_args os pchname fname cflags objname s ≡ (
        done (
            add_args (add_args [] (options_of pchname cflags s)) (source_and_object fname objname)),
        s,
      )
  unfolding compile_args insert_spacedelim
  compile_args_lem pchname fname cflags objname s room =
      rw (add_pch_lem pchname (add_args [] (compiler ∷ compile_options)) s room) (
        ap (λ z. (done (add_args z (source_and_object fname objname)), s))
          (appended (compiler ∷ compile_options) (pch_include pchname s.world)
            (tokens blanks (line_buffer os.beyond cflags)) (debug_flag s.target)))

  announce_done :
      (fname : Text) (args : ArgList) (s : Machine W) → (announce os fname args s).0 ≡ done tt
  announce_done fname args s =
      Stays-back os (announce os fname args) s (announce-Stays os Never s.objdir fname args)

  -- If the include path of the precompiled header fits its buffer, and the source, -o and the object
  -- differ from one another and from all options, then compiling a file announces it and adds a job
  -- for the object that runs the compiler with the options, the folder of the header, the debug
  -- flag and the words of the flags, in this order, each once, and with the source, -o and the
  -- object behind them.
  pub compile_file-command :
      (fname cflags objname : Text) (s : Site W)
      → 2 + length s.build.pchname < 260
      → IsDistinct (source_and_object fname objname)
      → All
          (λ t. contains (options_of s.build.pchname cflags s.machine) t ≡ false)
          (source_and_object fname objname)
      → let args =
          add_args [] (options_of s.build.pchname cflags s.machine)
          ++ source_and_object fname objname in
        compile_file os fname cflags objname s
        ≡ add_compile_job os objname args
            (record s { machine = (announce os fname args s.machine).1 })
  unfolding compile_file
  compile_file-command fname cflags objname s room apart new =
      let options = options_of s.build.pchname cflags s.machine in
      rw
        (
          compile_args_lem s.build.pchname fname cflags objname s.machine room,
          come_last options (source_and_object fname objname) apart new,
          announce_done fname (add_args [] options ++ source_and_object fname objname) s.machine,
        )
        refl
