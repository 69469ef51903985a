-- ===== src/Build/Compile.antt =====
-- build.cpp: `compile` and `do_compile`. The globber is the list of the paths that it has. The
-- buffer `cwd` is filled and not used here.
pub mod Balance
pub mod Loop
pub mod Arguments
use cake.Prelude.{
  ℕ, ◌+◌, Bool, true, false, not, Option, none, some, List, [], ◌∷◌, ◌++◌, if◌then◌else◌,
}
use cake.Text.{Text, codes, find}
use cake.ArgList.{ArgList, add_arg, add_args, insert_spacedelim}
use cake.Config.{compiler, compile_options}
use cake.System.{Os, M, ◌>>=◌, ◌>>◌, pure, gets, look, skip, change, fits, each}
use cake.Utility.Print.{cprintf, blue}
use cake.File.{path, mkpath}
use cake.Build.Names.{mkobjname}
use cake.Build.Rebuild.{needs_rebuild}
use cake.Build.Jobs.{add_compile_job}
use cake.Build.{Build, Site, B, on_machine, of_build, on_build}

-- `g_target && (strstr(g_target, "debug") != 0)`
unfoldable pub is_debug : Option Text → Bool
is_debug none = false
is_debug (some target) = elim (find (codes "debug") target) [ none ↦ false | some _ ↦ true ]

unfoldable pub debug_flag : Option Text → Text
debug_flag target = codes (if is_debug target then "-D_DEBUG" else "-DNDEBUG")

module _ {W : Type 0} (os : Os W) where
  -- The folder of the precompiled header, if there is one, goes to the include path.
  unfoldable pub add_pch : Text → ArgList → M W ArgList
  add_pch [] args = pure args
  add_pch (c ∷ cs) args = do
    folder ← path os (c ∷ cs)
    ipch ← fits 260 (codes "-I" ++ folder)
    pure (add_arg args ipch)

  -- `printf("%s ", args[i])` for each argument, and a line feed.
  unfoldable pub print_args : ArgList → M W (Unit {0})
  print_args args = do
    each (λ arg. change (os.print_out (arg ++ codes " "))) args
    change (os.print_out (10 ∷ []))

  unfoldable pub compile_args : Text → Text → Text → Text → M W ArgList
  compile_args pchname fname cflags objname = do
    target ← gets (λ s. s.target)
    args ← add_pch pchname (add_args [] (compiler ∷ compile_options))
    let flagged = insert_spacedelim os.beyond (add_arg args (debug_flag target)) cflags
    pure (add_args flagged (fname ∷ codes "-o" ∷ objname ∷ []))

  unfoldable pub announce : Text → ArgList → M W (Unit {0})
  announce fname args = do
    verbose ← gets (λ s. s.verbose_flag)
    if verbose then print_args args else cprintf os blue fname

  unfoldable pub skip_file : Text → B W (Unit {0})
  skip_file objname =
      on_build (λ b. record b { nskipped = b.nskipped + 1; linklist = b.linklist ++ objname ∷ [] })

  unfoldable pub compile_file : Text → Text → Text → B W (Unit {0})
  compile_file fname cflags objname = do
    pchname ← of_build (λ b. b.pchname)
    args ← on_machine (compile_args pchname fname cflags objname)
    on_machine (announce fname args)
    add_compile_job os objname args

  unfoldable pub do_compile : Text → Text → B W (Unit {0})
  do_compile fname cflags = do
    on_build (λ b. record b { nprocessed = b.nprocessed + 1 })
    objname ← on_machine (mkobjname fname)
    on_machine (mkpath os objname)
    stale ← on_machine (needs_rebuild os fname objname)
    if not stale then skip_file objname else compile_file fname cflags objname

  -- `compile`, after the call of `glob`.
  unfoldable pub compile_each : List Text → Text → Text → B W (Unit {0})
  compile_each [] fname cflags = do_compile fname cflags
  compile_each (g ∷ gs) fname cflags = each (λ file. do_compile file cflags) (g ∷ gs)

  unfoldable pub compile : Text → Text → B W (Unit {0})
  compile fname cflags = do
    found ← on_machine (look (os.glob fname))
    compile_each found fname cflags
