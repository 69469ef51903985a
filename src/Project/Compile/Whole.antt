-- ===== src/Project/Compile/Whole.antt =====
-- A project that was compiled was compiled whole.
use cake.Prelude.{
  ℕ, ◌≡◌, refl, Bool, true, false, Option, none, some, List, [], ◌∷◌, ◌++◌, if◌then◌else◌,
}
use cake.Text.{Text, codes}
use cake.System.{Os, done, ◌>>◌, skip}
use cake.Utility.Print.{printerr}
use cake.Project.{Project, Kind, program, static_library, shared_library}
use cake.Project.Kinds.{is_header}
use cake.Project.Compile.{
  compile_header, compile_rest, first_header, make_program, make_library, make_target, build_files,
  program_libs,
}
use cake.Build.{Site}
use cake.Build.Keeps.{Keeps, Keeps-pure, Keeps-if, Keeps-after, Keeps-first}
use cake.Build.Compile.{compile}
use cake.Build.Jobs.Slots.{ForksApart}
use cake.Build.Compile.Balance.{Balance, compile-Balance}
use cake.Build.Pch.Balance.{IsBalanced, make_pch-IsBalanced}
use cake.Build.Link.Balance.{IsWhole, WholeIf, link-IsWhole, staticlib-IsWhole}

module _ {W : Type 0} (os : Os W) where
  header-IsBalanced :
      (header : Option Text) (flags : Text) (making_cpp : Bool)
      → Keeps (Balance 0 0 0) (compile_header os header flags making_cpp) (λ _. IsBalanced)
  unfolding compile_header
  header-IsBalanced none flags making_cpp = Keeps-pure tt (λ b p. (0, 0, p))
  header-IsBalanced (some h) flags making_cpp = make_pch-IsBalanced os h flags making_cpp

  program-IsWhole :
      (pch unlinked : ℕ) (projects : List Project) (p : Project) (flags : Text) (making_cpp : Bool)
      (target : Text)
      → Keeps (Balance 0 pch unlinked) (make_program os projects p flags making_cpp target) WholeIf
  unfolding make_program
  program-IsWhole pch unlinked projects p flags making_cpp [] = Keeps-pure false (λ b p e. cc)
  program-IsWhole pch unlinked projects p flags making_cpp (c ∷ tgt) =
      link-IsWhole os pch unlinked projects p (c ∷ tgt) flags
        (some (program_libs making_cpp p.libs))

  library-IsWhole :
      (pch unlinked : ℕ) (target : Text)
      → Keeps (Balance 0 pch unlinked) (make_library os target) WholeIf
  unfolding make_library
  library-IsWhole pch unlinked [] = Keeps-pure false (λ b p e. cc)
  library-IsWhole pch unlinked (c ∷ tgt) = staticlib-IsWhole os pch unlinked (c ∷ tgt)

  target-IsWhole :
      (pch unlinked : ℕ) (kind : Kind) (projects : List Project) (p : Project) (flags : Text)
      (making_cpp : Bool)
      → Keeps (Balance 0 pch unlinked) (make_target os kind projects p flags making_cpp) WholeIf
  unfolding make_target
  target-IsWhole pch unlinked program projects p flags making_cpp =
      program-IsWhole pch unlinked projects p flags making_cpp (p.name ++ p.output_suffix)
  target-IsWhole pch unlinked static_library projects p flags making_cpp =
      library-IsWhole pch unlinked (p.name ++ p.output_suffix)
  target-IsWhole pch unlinked shared_library projects p flags making_cpp =
      Keeps-after (printerr os (codes "not supported." ++ 10 ∷ []))
        λ _. Keeps-pure false (λ b p e. cc)

module _ {W : Type 0} (os : Os W) (apart : ForksApart os) where
  rest-Balance :
      (pch unlinked : ℕ) (files : List Text) (flags : Text)
      → Keeps (Balance 0 pch unlinked) (compile_rest os files flags) (λ _. Balance 0 pch unlinked)
  unfolding compile_rest
  rest-Balance pch unlinked [] flags = Keeps-pure tt (λ b p. p)
  rest-Balance pch unlinked (f ∷ fs) flags =
      Keeps-first {R = λ _. Balance 0 pch unlinked}
        (if is_header f then skip else compile os f flags)
        (Keeps-if (is_header f) skip (compile os f flags) (λ _. Keeps-pure tt (λ b p. p))
          (λ _. compile-Balance os apart pch unlinked f flags))
        λ _. rest-Balance pch unlinked fs flags

  build_files-Keeps :
      (projects : List Project) (p : Project) (flags : Text) (making_cpp : Bool)
      → Keeps (Balance 0 0 0) (build_files os projects p flags making_cpp) WholeIf
  unfolding build_files
  build_files-Keeps projects p flags making_cpp =
      Keeps-first {R = λ _. IsBalanced} (compile_header os (first_header p.files) flags making_cpp)
        (header-IsBalanced os (first_header p.files) flags making_cpp)
        λ _. record { at = λ s (c, l, balance) a e. (rest c l).at s balance a e }
    where
      rest :
          (c l : ℕ)
          → Keeps
              (Balance 0 c l)
              (compile_rest os p.files flags >> make_target os p.kind projects p flags making_cpp)
              WholeIf
      rest c l =
          Keeps-first {R = λ _. Balance 0 c l} (compile_rest os p.files flags)
            (rest-Balance c l p.files flags)
            λ _. target-IsWhole os c l p.kind projects p flags making_cpp

  -- If `fork` never gives its caller 0, and a build in balance comes to success, then no job is
  -- active, none has failed, and the link list has one object for each file that was processed.
  pub build_files-IsWhole :
      (projects : List Project) (p : Project) (flags : Text) (making_cpp : Bool) (s : Site W)
      → Balance 0 0 0 s.build
      → (build_files os projects p flags making_cpp s).0 ≡ done true
      → IsWhole (build_files os projects p flags making_cpp s).1.build
  build_files-IsWhole projects p flags making_cpp s b e =
      (build_files-Keeps projects p flags making_cpp).at s b true e refl
