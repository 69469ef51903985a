-- ===== src/Project/Packages.antt =====
-- project.cpp: the loop of `Project::compile` over the packages, which asks pkg-config.
pub mod Laws
use Prim.Native.String.{String}
use cake.Prelude.{ℕ, Bool, true, false, not, some, List, [], ◌∷◌, ◌++◌, ◌==◌, if◌then◌else◌}
use cake.Text.{Text, codes}
use cake.ArgList.{ArgList, add_args, insert_spacedelim}
use cake.System.{Os, M, ◌>>=◌, ◌>>◌, pure, skip}
use cake.Utility.Print.{printerr}
use cake.Command.{execute_command, execute_grab}

-- What the loop changes: the local `flags`, and `m_libs`.
pub record Found : Type 0 where
  pub flags : Text
  pub libs : List Text

unfoldable pub pkg_args : String → Text → ArgList
pkg_args option pkg = add_args [] (codes "pkg-config" ∷ codes option ∷ pkg ∷ [])

module _ {W : Type 0} (os : Os W) where
  unfoldable pub give_up : Text → Found → M W (Bool × Found)
  give_up msg found = printerr os msg >> pure (false, found)

  unfoldable pub warn_missing : Text → ℕ → M W (Unit {0})
  warn_missing pkg code =
      if not (code == 0) then printerr os (codes "Missing dependency " ++ pkg) else skip

  unfoldable pub ask_libs : Text → Text → Found → M W (Bool × Found)
  ask_libs cwd pkg found = do
    r ← execute_grab os (pkg_args "--libs" pkg) (some cwd)
    (if not r.0
        then give_up (codes "Failed") found
        else pure (true, record found { libs = found.libs ++ insert_spacedelim os.beyond [] r.2 }))

  unfoldable pub ask_cflags : Text → Text → Found → M W (Bool × Found)
  ask_cflags cwd pkg found = do
    r ← execute_grab os (pkg_args "--cflags" pkg) (some cwd)
    (if not r.0
        then give_up (codes "failed running pkg-config") found
        else ask_libs cwd pkg (record found { flags = found.flags ++ r.2 }))

  -- One round of the loop: whether it goes on. A package that pkg-config does not know is reported
  -- and asked for all the same.
  unfoldable pub ask_package : Text → Text → Found → M W (Bool × Found)
  ask_package cwd pkg found = do
    r ← execute_command os (pkg_args "--exists" pkg) (some (codes "./"))
    (if not r.0
        then give_up (codes "Failed to run pkgconfig") found
        else (warn_missing pkg r.1 >> ask_cflags cwd pkg found))

  unfoldable pub ask_packages : Text → List Text → Found → M W (Bool × Found)
  ask_packages cwd [] found = pure (true, found)
  ask_packages cwd (pkg ∷ pkgs) found = do
    r ← ask_package cwd pkg found
    if r.0 then ask_packages cwd pkgs r.1 else pure (false, r.1)
