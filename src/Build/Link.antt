-- ===== src/Build/Link.antt =====
-- build.cpp: `link` and `staticlib`.
pub mod Balance
pub mod Arguments
use cake.Prelude.{
  ℕ, ◌+◌, Bool, true, false, not, ◌&&◌, Option, none, some, List, [], ◌∷◌, ◌++◌, ◌==◌, take,
  if◌then◌else◌, length, get_elem?,
}
use cake.Text.{Text, codes}
use cake.ArgList.{ArgList, add_arg, add_args, insert_spacedelim}
use cake.Config.{compiler, link_options, bindir, libdir}
use cake.System.{Os, M, ◌>>=◌, ◌>>◌, pure, stop, crashed, gets, look, skip, fits}
use cake.Utility.{strfmt}
use cake.Utility.Print.{cprintf, printerr, green}
use cake.File.{exists, is_older, mkpath}
use cake.Command.{execute_command}
use cake.Project.{Project, Kind, program, static_library, shared_library}
use cake.Build.Jobs.{complete_jobs}
use cake.Build.Compile.{add_pch, print_args}
use cake.Build.{Build, Site, B, on_machine, of_build, on_build}

abbrev pub is_program : Kind → Bool
is_program program = true
is_program _ = false

module _ {W : Type 0} (os : Os W) where
  -- Nothing was compiled, and the target is there and not older than any file that was looked at.
  unfoldable pub up_to_date : Text → B W Bool
  up_to_date outname = do
    linked ← of_build (λ b. length b.linklist)
    nskipped ← of_build (λ b. b.nskipped)
    if not (linked == nskipped) then pure false else do
      there ← on_machine (exists os outname)
      if not there
          then pure false
          else do older ← on_machine (is_older os outname); pure (not older)

  unfoldable pub verbose_args : ArgList → M W (Unit {0})
  verbose_args args = do
    verbose ← gets (λ s. s.verbose_flag)
    if verbose then print_args os args else skip

  unfoldable pub fail : B W Bool
  fail = on_build (λ b. record b { nfailed = b.nfailed + 1 }) >> pure false

  unfoldable pub built : Text → B W Bool
  built target = do
    on_machine (cprintf os green (codes "built " ++ target ++ codes "."))
    on_build (λ b. record b { nlinked = b.nlinked + 1 })
    pure true

  -- How both functions end: the tool is run, and its result counted.
  unfoldable pub count_tool : Text → Bool × ℕ → B W Bool
  count_tool target (ok, code) =
      if not ok
      then (on_machine (printerr os (target ++ codes " FAIL")) >> fail)
      else if not (code == 0)
      then fail
      else built target

  unfoldable pub run_tool : Text → ArgList → Text → B W Bool
  run_tool target args cwd = do
    r ← on_machine (execute_command os args (some cwd))
    count_tool target r

  -- `-l<name><suffix>` for each dependency that is a library. `projects` is `g_projects`.
  unfoldable pub add_depends : List Project → List (Option ℕ) → ArgList → M W ArgList
  add_depends projects [] args = pure args
  add_depends projects (none ∷ ds) args = stop crashed
  add_depends projects (some d ∷ ds) args = elim (get_elem? projects d) [
    | none ↦ stop crashed
    | some p ↦
        if is_program p.kind
        then add_depends projects ds args
        else (fits 260 (codes "-l" ++ p.name ++ p.output_suffix) >>= λ tmp.
            add_depends projects ds (add_arg args tmp))
  ]

  unfoldable pub depend_args : List Project → List (Option ℕ) → ArgList → M W ArgList
  depend_args projects [] args = pure args
  depend_args projects (d ∷ ds) args =
      add_depends projects (d ∷ ds) (add_arg args (strfmt 64 (codes "-L" ++ libdir)))

  unfoldable pub link_args : Text → Text → Text → List Text → M W ArgList
  link_args pchname ldflags outname linklist = do
    args ← add_pch os pchname (add_args [] (compiler ∷ link_options))
    pure (add_args (insert_spacedelim os.beyond args ldflags) (codes "-o" ∷ outname ∷ linklist))

  unfoldable pub add_libs : Option (List Text) → ArgList → ArgList
  add_libs none args = args
  add_libs (some libs) args = add_args args libs

  unfoldable pub do_link :
      List Project → Project → Text → Text → Option (List Text) → Text → B W Bool
  do_link projects project target ldflags libs outname = do
    on_machine (mkpath os outname)
    cwd ← on_machine (look os.getcwd)
    pchname ← of_build (λ b. b.pchname)
    linklist ← of_build (λ b. b.linklist)
    args ← on_machine (link_args pchname ldflags outname linklist)
    on_machine (verbose_args args)
    args' ← on_machine (depend_args projects project.depends (add_libs libs args))
    run_tool target args' cwd

  unfoldable pub link : List Project → Project → Text → Text → Option (List Text) → B W Bool
  link projects project target ldflags libs = do
    complete_jobs os
    nfailed ← of_build (λ b. b.nfailed)
    if not (nfailed == 0) then pure false else do
      outname ← fits 260 (bindir ++ target)
      current ← up_to_date outname
      if current then pure true else do_link projects project target ldflags libs outname

  unfoldable pub do_staticlib : Text → Text → B W Bool
  do_staticlib target outname = do
    on_machine (mkpath os outname)
    cwd ← on_machine (look os.getcwd)
    linklist ← of_build (λ b. b.linklist)
    let args = add_args [] (codes "ar" ∷ codes "rcs" ∷ outname ∷ linklist)
    on_machine (verbose_args args)
    run_tool target args cwd

  unfoldable pub staticlib : Text → B W Bool
  staticlib target = do
    complete_jobs os
    nfailed ← of_build (λ b. b.nfailed)
    if not (nfailed == 0) then pure false else do
      outname ← fits 260 (libdir ++ codes "lib" ++ target ++ codes ".a")
      current ← up_to_date outname
      if current then pure true else do_staticlib target outname
