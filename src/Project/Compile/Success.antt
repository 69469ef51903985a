-- ===== src/Project/Compile/Success.antt =====
-- What it takes for `Project::compile` to come to success.
use cake.Prelude.{◌↔◌, All, ◌∷◌, ◌≡◌, Bool, true, false, some, List, [], ◌++◌}
use cake.Text.{Text, codes}
use cake.Config.{baseobjdir}
use cake.System.{Os, Machine, Outcome, done}
use cake.Project.{Project}
use cake.Project.Packages.{ask_packages}
use cake.Project.Compile.{Found, build_files, set_objdir, any_cppfile, all_flags}
use cake.Project.Kinds.{is_cppfile}
use cake.Project.Compile.Objects.{objects}
use cake.Project.Compile.Links.{bag}
use cake.Build.{Site, Build, start, finish}
use cake.Build.Compile.Balance.{Balance}
use cake.Build.Link.Balance.{IsWhole}
use cake.Build.Start.{IsBlank}
use cake.Build.Jobs.Slots.{ForksApart}

-- Texts, each with a space before it.
abbrev pub spaced : List Text → Text
spaced [] = []
spaced (g ∷ gs) = (b' ' ∷ g) ++ spaced gs

module _ {W : Type 0} (os : Os W) (apart : ForksApart os) (matches : Text → List Text)
    (glob_matches : (f : Text) (w : W) → os.glob f w ≡ matches f) (projects : List Project) where
  -- How the build object is used: with the flags of pkg-config and of the project, on the machine
  -- with its global set and the object folder made.
  abbrev pub run_of : Project → Text → Build → Machine W → Outcome Bool × Site W
  run_of q flags b m =
      build_files os projects q (all_flags flags q.flags) (any_cppfile q.files)
        (record { machine = m; build = b })

  -- The machine of which `q` is built: the global is set, and the object folder set and made.
  abbrev pub prepared : Project → Machine W → Outcome (Unit {0}) × Machine W
  prepared q s = set_objdir os (record s { making_cpp = any_cppfile q.files })

  -- C++ is made exactly when some file is one of C++; the object folder is that of the target and is
  -- made; the flags are those given and then each of the project's behind a space. Then the steps on
  -- the build come to success:
  -- no job is active, nothing has failed, there is an object for every file that was processed, and
  -- what is linked are the objects of the sources. The build's destructor leaves the machine `t`.
  pub record Built (q : Project) (flags : Text) (b : Build) (s t : Machine W) : Type 0 where
    pub target : Text
    pub given : s.target ≡ some target
    pub making_cpp : (any_cppfile q.files ≡ false) ↔ All (λ f. is_cppfile f ≡ false) q.files
    pub flags_used : all_flags flags q.flags ≡ flags ++ spaced q.flags
    pub made : (prepared q s).0 ≡ done tt
    pub folder : (prepared q s).1.objdir ≡ baseobjdir ++ target ++ codes "/"
    pub success : (run_of q flags b (prepared q s).1).0 ≡ done true
    pub whole : IsWhole (run_of q flags b (prepared q s).1).1.build
    pub linked :
        bag (run_of q flags b (prepared q s).1).1.build.linklist
        ≡ bag (objects (prepared q s).1.objdir matches q.files)
    pub finished :
        t
        ≡ (finish os
            (run_of q flags b (prepared q s).1).1.build
            (run_of q flags b (prepared q s).1).1.machine).1

  -- What pkg-config is asked for a project, and what it leaves.
  abbrev pub asked : Project → Machine W → Outcome (Bool × Found) × Machine W
  asked p s =
      ask_packages os (os.getcwd s.world) p.pkgdepends (record { flags = []; libs = p.libs }) s

  -- The run from `s` to `t`: the constructor gives a build on which nothing has happened, pkg-config
  -- is asked and gives flags and libraries, and the project with these libraries is built.
  pub record IsBuilt (p q : Project) (s t : Machine W) : Type 0 where
    pub build : Build
    pub constructed : (start os s).0 ≡ done build
    pub blank : IsBlank build
    pub found : Found
    pub answered : (asked p (start os s).1).0 ≡ done (true, found)
    pub same : q ≡ record p { libs = found.libs }
    pub built : Built q found.flags build (asked p (start os s).1).1 t
