-- ===== src/Build/Pch/Balance.antt =====
-- What `make_pch` does to the account of the files.
use cake.Prelude.{ℕ, ◌+◌, Bool, not, some, ◌++◌, arith, ◌==◌}
use cake.Text.{Text, codes}
use cake.System.{Os, look}
use cake.Utility.Print.{printerr}
use cake.File.{mkpath}
use cake.Command.{execute_command}
use cake.Build.{Build, on_build}
use cake.Build.Keeps.{Keeps, Keeps-pure, Keeps-on_build, Keeps-if, Keeps-after, Keeps-first}
use cake.Build.Names.{mkpchname, mkdepname}
use cake.Build.Compile.Balance.{Balance}
use cake.Build.Pch.{make_pch, build_pch, count_pch, pch_is_current, pch_args, announce_pch}

-- A build in balance, whatever became of its precompiled header.
abbrev pub IsBalanced : Build → Type 0
IsBalanced b = (pch : ℕ) × (unlinked : ℕ) × Balance 0 pch unlinked b

module _ {W : Type 0} (os : Os W) where
  count_pch-IsBalanced :
      (pch : Text) (r : Bool × ℕ) → Keeps (Balance 0 0 0) (count_pch os pch r) (λ _. IsBalanced)
  unfolding count_pch
  count_pch-IsBalanced pch (ok, code) =
      Keeps-if (not ok) _ _
        (λ _. Keeps-after (printerr os (pch ++ codes " FAIL")) λ _. Keeps-on_build _ failed)
        λ _.
          Keeps-if (not (code == 0)) _ _ (λ _. Keeps-on_build _ failed)
            λ _. Keeps-on_build _ (λ b p. (1, 1, ground (arith, p)))
    where
      failed : (b : Build) → Balance 0 0 0 b → IsBalanced (record b { nfailed = b.nfailed + 1 })
      failed b p = (1, 0, ground (arith, p))

  build_pch-IsBalanced :
      (pch cflags : Text) (cplusplus : Bool) (outputname : Text)
      → Keeps (Balance 0 0 0) (build_pch os pch cflags cplusplus outputname) (λ _. IsBalanced)
  unfolding build_pch
  build_pch-IsBalanced pch cflags cplusplus outputname = Keeps-after (look os.getcwd) λ cwd.
      Keeps-after (pch_args os pch cflags cplusplus outputname) λ args.
        Keeps-after (announce_pch os pch args)
          λ _. Keeps-after (execute_command os args (some cwd)) λ r. count_pch-IsBalanced pch r

  pub make_pch-IsBalanced :
      (pch cflags : Text) (cplusplus : Bool)
      → Keeps (Balance 0 0 0) (make_pch os pch cflags cplusplus) (λ _. IsBalanced)
  unfolding make_pch
  make_pch-IsBalanced pch cflags cplusplus = Keeps-after (mkpchname pch) λ outputname.
      Keeps-after (mkpath os outputname) λ _. Keeps-after (mkdepname pch) λ depname.
        Keeps-first {R = λ _. Balance 0 0 0} (on_build (λ b. record b { pchname = outputname }))
          (Keeps-on_build _ (λ b p. ground (arith, p)))
          λ _. Keeps-after (pch_is_current os pch outputname) λ current.
            Keeps-if current _ _ (λ _. Keeps-pure tt (λ b p. (0, 0, p)))
              λ _. build_pch-IsBalanced pch cflags cplusplus outputname
