-- ===== src/Project/Compile.antt =====
-- project.cpp: `Project::compile`. `start_build` does nothing and is left out.
pub mod Whole
pub mod Result
pub mod Objects
pub mod Links
pub mod Success
pub mod Rest
use cake.Prelude.{
  ℕ, Bool, true, false, not, Option, none, some, List, [], ◌∷◌, ◌++◌, foldl, if◌then◌else◌,
}
use cake.Text.{Text, codes}
use cake.Config.{baseobjdir}
use cake.System.{
  Os, Machine, M, Outcome, Stop, done, stopped, crashed, ◌>>=◌, ◌>>◌, pure, stop, skip, gets,
  modify, look, fits,
}
use cake.Utility.Print.{printerr}
use cake.File.{mkpath}
use cake.Project.{Project, Kind, program, static_library, shared_library}
use cake.Project.Kinds.{is_header, is_cppfile}
use cake.Project.Packages.{Found, ask_packages}
use cake.Build.{Build, Site, B, on_machine, start, finish}
use cake.Build.Compile.{compile}
use cake.Build.Pch.{make_pch}
use cake.Build.Link.{link, staticlib}

-- `flags += " " + m_flags[i]` for each flag
unfoldable pub all_flags : Text → List Text → Text
all_flags flags more = foldl (λ f g. f ++ b' ' ∷ g) flags more

unfoldable pub any_cppfile : List Text → Bool
any_cppfile [] = false
any_cppfile (f ∷ fs) = if is_cppfile f then true else any_cppfile fs

unfoldable pub first_header : List Text → Option Text
first_header [] = none
first_header (f ∷ fs) = if is_header f then some f else first_header fs

-- The libraries of a program; the C++ library is added to those of the project.
unfoldable pub program_libs : Bool → List Text → List Text
program_libs making_cpp libs = if making_cpp then libs ++ codes "-lstdc++" ∷ [] else libs

-- What a method of `build` does to the machine, and the object after it.
abbrev pub leave : {A : Type 0} → Outcome A → Build → Outcome (A × Build)
leave (done a) b = done (a, b)
leave (stopped e) b = stopped e

unfoldable pub in_build : {W A : Type 0} → Build → B W A → M W (A × Build)
in_build b m s = let r = m (record { machine = s; build = b }) in (leave r.0 r.1.build, r.1.machine)

module _ {W : Type 0} (os : Os W) where
  unfoldable pub set_making_cpp : Bool → M W (Unit {0})
  set_making_cpp b = modify (λ s. record s { making_cpp = b })

  -- A null target would be read. The global `g_objdir` has 260 bytes.
  unfoldable pub objdir_for : Option Text → M W Text
  objdir_for none = stop crashed
  objdir_for (some target) = fits 260 (baseobjdir ++ target ++ codes "/")

  unfoldable pub set_objdir : M W (Unit {0})
  set_objdir = do
    target ← gets (λ s. s.target)
    objdir ← objdir_for target
    modify (λ s. record s { objdir = objdir })
    mkpath os objdir

  unfoldable pub compile_header : Option Text → Text → Bool → B W (Unit {0})
  compile_header none flags making_cpp = skip
  compile_header (some header) flags making_cpp = make_pch os header flags making_cpp

  unfoldable pub compile_rest : List Text → Text → B W (Unit {0})
  compile_rest [] flags = skip
  compile_rest (f ∷ fs) flags =
      (if is_header f then skip else compile os f flags) >> compile_rest fs flags

  unfoldable pub make_program : List Project → Project → Text → Bool → Text → B W Bool
  make_program projects p flags making_cpp [] = pure false
  make_program projects p flags making_cpp (c ∷ tgt) =
      link os projects p (c ∷ tgt) flags (some (program_libs making_cpp p.libs))

  unfoldable pub make_library : Text → B W Bool
  make_library [] = pure false
  make_library (c ∷ tgt) = staticlib os (c ∷ tgt)

  unfoldable pub make_target : Kind → List Project → Project → Text → Bool → B W Bool
  make_target program projects p flags making_cpp =
      make_program projects p flags making_cpp (p.name ++ p.output_suffix)
  make_target static_library projects p flags making_cpp = make_library (p.name ++ p.output_suffix)
  make_target shared_library projects p flags making_cpp =
      on_machine (printerr os (codes "not supported." ++ 10 ∷ [])) >> pure false

  -- The steps on the `build` object, once the flags are known.
  unfoldable pub build_files : List Project → Project → Text → Bool → B W Bool
  build_files projects p flags making_cpp = do
    compile_header (first_header p.files) flags making_cpp
    compile_rest p.files flags
    make_target p.kind projects p flags making_cpp

  unfoldable pub compile_with : List Project → Project → Text → Build → M W Bool
  compile_with projects p flags b = do
    set_making_cpp (any_cppfile p.files)
    set_objdir
    r ← in_build b (build_files projects p (all_flags flags p.flags) (any_cppfile p.files))
    finish os r.1
    pure r.0

  -- `Project::compile`. The destructor of the `build` object runs on every return. Besides the
  -- result, the project is given back, since `m_libs` may have grown.
  unfoldable pub compile_project : List Project → Project → M W (Bool × Project)
  compile_project projects p = do
    b ← start os
    cwd ← look os.getcwd
    r ← ask_packages os cwd p.pkgdepends (record { flags = []; libs = p.libs })
    let p' = record p { libs = r.1.libs }
    (if r.0
        then (compile_with projects p' r.1.flags b >>= λ ok. pure (ok, p'))
        else (finish os b >> pure (false, p')))
