-- ===== src/Build/Pch.antt =====
-- build.cpp: `make_pch`.
pub mod Balance
use cake.Prelude.{
  ℕ, ◌+◌, Bool, true, false, not, Option, none, some, List, [], ◌∷◌, ◌++◌, ◌==◌, if◌then◌else◌,
}
use cake.Text.{Text, codes}
use cake.ArgList.{ArgList, add_arg, add_args, insert_spacedelim}
use cake.Config.{compiler, pch_options}
use cake.System.{Os, M, ◌>>=◌, ◌>>◌, pure, gets, look}
use cake.Utility.Print.{cprintf, printerr, blue}
use cake.File.{exists, mkpath}
use cake.Command.{execute_command}
use cake.Build.Names.{mkdepname, mkpchname}
use cake.Build.Rebuild.{needs_rebuild}
use cake.Build.Compile.{debug_flag, print_args}
use cake.Build.{Build, Site, B, on_machine, of_build, on_build}

module _ {W : Type 0} (os : Os W) where
  -- `file::exists(outputname)` and `needs_rebuild(pch, outputname) == false`
  unfoldable pub pch_is_current : Text → Text → M W Bool
  pch_is_current pch outputname = do
    there ← exists os outputname
    if not there then pure false else do stale ← needs_rebuild os pch outputname; pure (not stale)

  unfoldable pub pch_args : Text → Text → Bool → Text → M W ArgList
  pch_args pch cflags cplusplus outputname = do
    target ← gets (λ s. s.target)
    let options = insert_spacedelim os.beyond (add_args [] (compiler ∷ pch_options)) cflags
    let flagged = add_arg options (debug_flag target)
    let language = if cplusplus then codes "-x" ∷ codes "c++-header" ∷ [] else []
    pure (add_args (add_args flagged language) (codes "-o" ∷ outputname ∷ pch ∷ []))

  unfoldable pub announce_pch : Text → ArgList → M W (Unit {0})
  announce_pch pch args = do
    verbose ← gets (λ s. s.verbose_flag)
    if verbose then print_args os args else cprintf os blue pch

  unfoldable pub count_pch : Text → Bool × ℕ → B W (Unit {0})
  count_pch pch (ok, code) =
      if not ok
      then (on_machine (printerr os (pch ++ codes " FAIL"))
          >> on_build (λ b. record b { nfailed = b.nfailed + 1 }))
      else if not (code == 0)
      then on_build (λ b. record b { nfailed = b.nfailed + 1 })
      else on_build (λ b. record b { ncompiled = b.ncompiled + 1 })

  unfoldable pub build_pch : Text → Text → Bool → Text → B W (Unit {0})
  build_pch pch cflags cplusplus outputname = do
    cwd ← on_machine (look os.getcwd)
    args ← on_machine (pch_args pch cflags cplusplus outputname)
    on_machine (announce_pch pch args)
    r ← on_machine (execute_command os args (some cwd))
    count_pch pch r

  unfoldable pub make_pch : Text → Text → Bool → B W (Unit {0})
  make_pch pch cflags cplusplus = do
    outputname ← on_machine (mkpchname pch)
    on_machine (mkpath os outputname)
    depname ← on_machine (mkdepname pch)
    on_build (λ b. record b { pchname = outputname })
    current ← on_machine (pch_is_current pch outputname)
    if current then pure tt else build_pch pch cflags cplusplus outputname
