-- ===== src/Project/Compile/Objects.antt =====
-- Which objects a project is linked of, and that building it comes to an end.
use cake.Prelude.{
  ℕ, ◌+◌, ◌≡◌, Bool, true, false, Option, none, some, List, [], ◌∷◌, ◌++◌, map, arith,
  if◌then◌else◌, All,
}
use cake.Text.{Text, codes}
use cake.Config.{bindir, libdir}
use cake.System.{Os, Stop, ◌>>◌, skip}
use cake.System.Ends.{Ends, Ends-pure, Ends-bind, Ends-weaken, Fits}
use cake.Utility.Print.{printerr}
use cake.Project.{Project, Kind, program, static_library, shared_library}
use cake.Project.Kinds.{is_header}
use cake.Project.Compile.{
  compile_header, compile_rest, first_header, make_program, make_library, make_target, build_files,
  program_libs,
}
use cake.Build.Names.{objname_of}
use cake.Build.Compile.{compile}
use cake.Build.Jobs.Slots.{ForksApart}
use cake.Build.Objects.{occurrences, occurrences-append, running}
use cake.Build.Objects.Sites.{Whole, Has-change, Whole-after}
use cake.Build.Objects.Machine.{printerr-Stays}
use cake.Build.Objects.Steps.{ShortName}
use cake.Build.Objects.Compile.{sources, compile-Whole}
use cake.Build.Objects.Pch.{make_pch-Whole}
use cake.Build.Objects.Arguments.{CanLink}
use cake.Build.Objects.Link.{JoinedIf, link-JoinedIf, staticlib-JoinedIf}

-- The objects of the files of a project, where `matches` is what glob finds: those of the sources
-- that each file which is no header stands for.
abbrev pub objects : Text → (Text → List Text) → List Text → List Text
objects d matches [] = []
objects d matches (f ∷ fs) =
    let rest = objects d matches fs in
    if is_header f then rest else map (objname_of d) (sources (matches f) f) ++ rest

-- The names that are made of a file fit their buffers.
abbrev pub ShortFile : (Stop → Type 0) → Text → (Text → List Text) → Text → Type 0
ShortFile E d matches f = ShortName E d f × All (ShortName E d) (sources (matches f) f)

-- What the target needs to be linked.
abbrev pub ShortTarget : (Stop → Type 0) → List Project → Project → Kind → Type 0
ShortTarget E projects p program =
    Fits E 260 (bindir ++ (p.name ++ p.output_suffix)) × All (CanLink E projects) p.depends
ShortTarget E projects p static_library =
    Fits E 260 (libdir ++ codes "lib" ++ (p.name ++ p.output_suffix) ++ codes ".a")
ShortTarget E projects p shared_library = Unit

module _ {W : Type 0} (os : Os W) (apart : ForksApart os) (E : Stop → Type 0) (d : Text)
    (matches : Text → List Text) (glob_matches : (f : Text) (w : W) → os.glob f w ≡ matches f)
    (x : Text) where
  HeaderFits : Option Text → Type 0
  HeaderFits none = Unit {0}
  HeaderFits (some h) = ShortName E d h

  first_header-HeaderFits :
      (files : List Text) → All (ShortFile E d matches) files → HeaderFits (first_header files)
  unfolding HeaderFits first_header
  first_header-HeaderFits [] short = tt
  first_header-HeaderFits (f ∷ fs) short =
      go (is_header f) short.0.0 (first_header-HeaderFits fs short.1)
    where
      go :
          (b : Bool)
          → ShortName E d f
          → HeaderFits (first_header fs)
          → HeaderFits (if b then some f else first_header fs)
      go true h rest = h
      go false h rest = rest

  header-Whole :
      (header : Option Text) (flags : Text) (making_cpp : Bool) (o : ℕ)
      → HeaderFits header
      → Ends E
          (Whole os E d x o)
          (compile_header os header flags making_cpp)
          (λ _. Whole os E d x o)
  unfolding compile_header HeaderFits
  header-Whole none flags making_cpp o short = Ends-pure tt (λ s p. p)
  header-Whole (some h) flags making_cpp o short =
      make_pch-Whole os E d x o h flags making_cpp short

  rest-Whole :
      (files : List Text) (flags : Text) (o : ℕ)
      → All (ShortFile E d matches) files
      → Ends E
          (Whole os E d x o)
          (compile_rest os files flags)
          (λ _. Whole os E d x (occurrences x (objects d matches files) + o))
  unfolding compile_rest
  rest-Whole [] flags o short = Ends-pure tt λ s p.
      Has-change os E d x (running x s.build.jobs) o (running x s.build.jobs) _ s
        (λ k e. omega (arith, e)) p
  rest-Whole (f ∷ fs) flags o short = go (is_header f) (λ o'. rest-Whole fs flags o' short.1)
    where
      go :
          (b : Bool)
          → ((o' : ℕ)
              → Ends E
                  (Whole os E d x o')
                  (compile_rest os fs flags)
                  (λ _. Whole os E d x (occurrences x (objects d matches fs) + o')))
          → Ends E
              (Whole os E d x o)
              ((if b then skip else compile os f flags) >> compile_rest os fs flags)
              (λ _. Whole os E d x (
                occurrences x (
                  if b
                  then objects d matches fs
                  else map (objname_of d) (sources (matches f) f) ++ objects d matches fs)
                + o))
      go true rest =
          Ends-bind {R = λ _. Whole os E d x o} skip (Ends-pure tt (λ s p. p)) λ _. rest o
      go false rest =
          Ends-bind (compile os f flags)
            (compile-Whole os apart E d x (matches f) f flags o (glob_matches f) short.0.1)
            λ _.
              Ends-weaken (λ s p. p)
                (λ _ s p.
                  Has-change os E d x (running x s.build.jobs) _ (running x s.build.jobs) _ s
                    (λ k e. omega (
                      arith,
                      e,
                      occurrences-append x (map (objname_of d) (sources (matches f) f))
                          (objects d matches fs),
                    ))
                    p)
                (rest (occurrences x (map (objname_of d) (sources (matches f) f)) + o))

  program-JoinedIf :
      (projects : List Project) (p : Project) (flags : Text) (making_cpp : Bool) (target : Text)
      (o : ℕ)
      → Fits E 260 (bindir ++ target) × All (CanLink E projects) p.depends
      → Ends E
          (Whole os E d x o)
          (make_program os projects p flags making_cpp target)
          (JoinedIf os E d x o)
  unfolding make_program
  program-JoinedIf projects p flags making_cpp [] o h = Ends-pure false (λ s p e. cc)
  program-JoinedIf projects p flags making_cpp (c ∷ tgt) o h =
      link-JoinedIf os E d x o projects p (c ∷ tgt) flags (some (program_libs making_cpp p.libs))
        h.0 h.1

  library-JoinedIf :
      (target : Text) (o : ℕ)
      → Fits E 260 (libdir ++ codes "lib" ++ target ++ codes ".a")
      → Ends E (Whole os E d x o) (make_library os target) (JoinedIf os E d x o)
  unfolding make_library
  library-JoinedIf [] o h = Ends-pure false (λ s p e. cc)
  library-JoinedIf (c ∷ tgt) o h = staticlib-JoinedIf os E d x o (c ∷ tgt) h

  target-JoinedIf :
      (kind : Kind) (projects : List Project) (p : Project) (flags : Text) (making_cpp : Bool)
      (o : ℕ)
      → ShortTarget E projects p kind
      → Ends E
          (Whole os E d x o)
          (make_target os kind projects p flags making_cpp)
          (JoinedIf os E d x o)
  unfolding make_target
  target-JoinedIf program projects p flags making_cpp o h =
      program-JoinedIf projects p flags making_cpp (p.name ++ p.output_suffix) o h
  target-JoinedIf static_library projects p flags making_cpp o h =
      library-JoinedIf (p.name ++ p.output_suffix) o h
  target-JoinedIf shared_library projects p flags making_cpp o h =
      Whole-after os E d x o (printerr os (codes "not supported." ++ 10 ∷ []))
        (printerr-Stays os E d (codes "not supported." ++ 10 ∷ []))
        λ _. Ends-pure false (λ s p e. cc)

  pub build_files-JoinedIf :
      (projects : List Project) (p : Project) (flags : Text) (making_cpp : Bool)
      → All (ShortFile E d matches) p.files
      → ShortTarget E projects p p.kind
      → Ends E
          (Whole os E d x 0)
          (build_files os projects p flags making_cpp)
          (JoinedIf os E d x (occurrences x (objects d matches p.files) + 0))
  unfolding build_files
  build_files-JoinedIf projects p flags making_cpp short target =
      Ends-bind (compile_header os (first_header p.files) flags making_cpp)
        (header-Whole (first_header p.files) flags making_cpp 0
          (first_header-HeaderFits p.files short))
        λ _. Ends-bind (compile_rest os p.files flags) (rest-Whole p.files flags 0 short) λ _.
          target-JoinedIf p.kind projects p flags making_cpp
            (occurrences x (objects d matches p.files) + 0) target
