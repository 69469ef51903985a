-- ===== src/Project/Compile/Rest.antt =====
-- A project that has nothing to be done is compiled without running a process.
use cake.Prelude.{
  ℕ, ◌<◌, ◌≡◌, ◌≢◌, refl, subst, inl, Bool, true, false, Option, none, some, List, [], ◌∷◌, ◌++◌,
  map, length, All, Bool-cases, inr, append_assoc, append-nil, sym,
}
use cake.Text.{Text, codes}
use cake.Config.{bindir, libdir}
use cake.System.{Os, Outcome, done, stopped, skip}
use cake.System.Ends.{Ends, Ended, Never, Ends-pure, Ends-bind, Ends-weaken}
use cake.Project.{Project, Kind, program, static_library, shared_library}
use cake.Project.Kinds.{is_header}
use cake.Project.Compile.{
  build_files, compile_header, compile_rest, first_header, make_target, make_program, make_library,
  program_libs,
}
use cake.Project.Compile.Objects.{objects}
use cake.Build.{Site}
use cake.Build.Names.{objname_of}
use cake.Build.Compile.{compile}
use cake.Build.Objects.Steps.{ShortName}
use cake.Build.Objects.Compile.{sources}
use cake.Build.Rest.{IsCalm, Current}
use cake.Build.Rest.Sites.{Idle, compile-Idle}
use cake.Build.Rest.Link.{IsYoungest, HeaderCurrent, link-Idle, staticlib-Idle, make_pch-Idle}

module _ {W : Type 0} (os : Os W) (I : W → Type 0) (d : Text) (made newest : ℕ)
    (calm : IsCalm os I newest) (matches : Text → List Text)
    (glob_matches : (f : Text) (w : W) → I w → os.glob f w ≡ matches f) where
  -- The target has a name that fits its buffer, is there, and is the youngest of all files.
  abbrev pub TargetCurrent : Kind → Text → Type 0
  TargetCurrent program tgt =
      (tgt ≢ [])
      × (length (bindir ++ tgt) < 260)
      × IsYoungest os I d made newest calm (bindir ++ tgt)
  TargetCurrent static_library tgt =
      (tgt ≢ [])
      × (length (libdir ++ codes "lib" ++ tgt ++ codes ".a") < 260)
      × IsYoungest os I d made newest calm (libdir ++ codes "lib" ++ tgt ++ codes ".a")
  TargetCurrent shared_library tgt = ⊥

  -- The sources that a file stands for are up to date.
  abbrev pub SourcesCurrent : Text → Type 0
  SourcesCurrent f =
      All (ShortName Never d) (sources (matches f) f)
      × All (λ g. Current os I d made newest calm g (objname_of d g)) (sources (matches f) f)

  -- The project has nothing to be done.
  pub record IsCurrent (p : Project) : Type 0 where
    pub files : All (λ f. is_header f ≡ false → SourcesCurrent f) p.files
    pub header :
        (h : Text)
        → first_header p.files ≡ some h
        → ShortName Never d h × HeaderCurrent os I d made newest calm h
    pub target : TargetCurrent p.kind (p.name ++ p.output_suffix)

  header-Idle :
      (links : List Text) (h : Option Text) (flags : Text) (making_cpp : Bool)
      → ((x : Text) → h ≡ some x → ShortName Never d x × HeaderCurrent os I d made newest calm x)
      → Ends Never
          (Idle os I d made newest calm links)
          (compile_header os h flags making_cpp)
          (λ _. Idle os I d made newest calm links)
  unfolding compile_header
  header-Idle links none flags making_cpp current = Ends-pure tt (λ s p. p)
  header-Idle links (some h) flags making_cpp current =
      let (short, now) = current h refl in
      make_pch-Idle os I d made newest calm links h flags making_cpp short now

  rest-Idle :
      (links fs : List Text) (flags : Text)
      → All (λ f. is_header f ≡ false → SourcesCurrent f) fs
      → Ends Never
          (Idle os I d made newest calm links)
          (compile_rest os fs flags)
          (λ _. Idle os I d made newest calm (links ++ objects d matches fs))
  unfolding compile_rest
  rest-Idle links [] flags current =
      Ends-pure tt (λ s p. subst (λ l. Idle os I d made newest calm l s) (sym (append-nil links)) p)
  rest-Idle links (f ∷ fs) flags current = elim (Bool-cases (is_header f)) [
    | inl e ↦ rw e (
        Ends-bind {R = λ _. Idle os I d made newest calm links} skip (Ends-pure tt (λ s p. p))
          λ _. rest-Idle links fs flags current.1)
    | inr e ↦ rw e (
        Ends-bind (compile os f flags)
          (compile-Idle os I d made newest calm links (matches f) f flags (glob_matches f)
            (current.0 e).0 (current.0 e).1)
          λ _.
            Ends-weaken (λ s p. p)
              (λ a s p.
                subst (λ l. Idle os I d made newest calm l s)
                  (append_assoc links (map (objname_of d) (sources (matches f) f))
                    (objects d matches fs))
                  p)
              (rest-Idle (links ++ map (objname_of d) (sources (matches f) f)) fs flags current.1))
  ]

  program-Idle :
      (links : List Text) (projects : List Project) (p : Project) (flags : Text) (making_cpp : Bool)
      (tgt : Text)
      → TargetCurrent program tgt
      → Ends Never
          (Idle os I d made newest calm links)
          (make_program os projects p flags making_cpp tgt)
          (λ a s. Idle os I d made newest calm links s × (a ≡ true))
  unfolding make_program
  program-Idle links projects p flags making_cpp [] (named, _, _) = absurd (named refl)
  program-Idle links projects p flags making_cpp (c ∷ tgt) (_, short, young) =
      link-Idle os I d made newest calm links projects p (c ∷ tgt) flags
        (some (program_libs making_cpp p.libs)) (inl short) young

  library-Idle :
      (links : List Text) (tgt : Text)
      → TargetCurrent static_library tgt
      → Ends Never
          (Idle os I d made newest calm links)
          (make_library os tgt)
          (λ a s. Idle os I d made newest calm links s × (a ≡ true))
  unfolding make_library
  library-Idle links [] (named, _, _) = absurd (named refl)
  library-Idle links (c ∷ tgt) (_, short, young) =
      staticlib-Idle os I d made newest calm links (c ∷ tgt) (inl short) young

  target-Idle :
      (links : List Text) (kind : Kind) (projects : List Project) (p : Project) (flags : Text)
      (making_cpp : Bool)
      → TargetCurrent kind (p.name ++ p.output_suffix)
      → Ends Never
          (Idle os I d made newest calm links)
          (make_target os kind projects p flags making_cpp)
          (λ a s. Idle os I d made newest calm links s × (a ≡ true))
  unfolding make_target
  target-Idle links program projects p flags making_cpp current =
      program-Idle links projects p flags making_cpp (p.name ++ p.output_suffix) current
  target-Idle links static_library projects p flags making_cpp current =
      library-Idle links (p.name ++ p.output_suffix) current
  target-Idle links shared_library projects p flags making_cpp current = absurd current

  files-Idle :
      (projects : List Project) (p : Project) (flags : Text) (making_cpp : Bool)
      → IsCurrent p
      → Ends Never
          (Idle os I d made newest calm [])
          (build_files os projects p flags making_cpp)
          (λ a s. Idle os I d made newest calm (objects d matches p.files) s × (a ≡ true))
  unfolding build_files
  files-Idle projects p flags making_cpp current =
      Ends-bind (compile_header os (first_header p.files) flags making_cpp)
        (header-Idle [] (first_header p.files) flags making_cpp current.header)
        λ _.
          Ends-bind (compile_rest os p.files flags) (rest-Idle [] p.files flags current.files) λ _.
            target-Idle (objects d matches p.files) p.kind projects p flags making_cpp
              current.target

  -- If all of the following hold, and reading files and complaining leave them so, then building
  -- the files of a project comes to success, with the object of each source skipped, in the order
  -- of the files, and none compiled: no rebuild is forced; the build has no active job, and has
  -- compiled, skipped, linked and failed nothing; the project is a program or a static library and
  -- has a name; the names of the files and of the target fit their buffers; what glob finds does
  -- not change; each source, and the header to be precompiled, is up to date by its dependency
  -- file, and the folder of its object is there; the precompiled header is there; the target is
  -- there, and no older than the makefile, nor than any file or folder, nor than what was noted as
  -- the newest. Of the world the build leaves whatever reading files and complaining leave, so
  -- that it starts no process and makes no folder.
  pub build_files-Idle :
      (projects : List Project) (p : Project) (flags : Text) (making_cpp : Bool) (s : Site W)
      → IsCurrent p
      → Idle os I d made newest calm [] s
      → ((build_files os projects p flags making_cpp s).0 ≡ done true)
        × Idle os I d made newest calm
            (objects d matches p.files)
            (build_files os projects p flags making_cpp s).1
  build_files-Idle projects p flags making_cpp s current idle =
      came_true (build_files os projects p flags making_cpp s).0
        (build_files os projects p flags making_cpp s).1
        ((files-Idle projects p flags making_cpp current).at s idle)
    where
      came_true :
          (o : Outcome Bool) (t : Site W)
          → Ended Never
              (λ a s. Idle os I d made newest calm (objects d matches p.files) s × (a ≡ true))
              o
              t
          → (o ≡ done true) × Idle os I d made newest calm (objects d matches p.files) t
      came_true (done a) t (q, e) = (cc, q)
      came_true (stopped c) t q = absurd q
