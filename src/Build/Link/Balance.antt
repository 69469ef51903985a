-- ===== src/Build/Link/Balance.antt =====
-- What a link that succeeds has put together.
use cake.Prelude.{
  ℕ, ◌+◌, ◌≡◌, Bool, true, false, not, Option, some, List, [], ◌∷◌, ◌++◌, arith, if◌then◌else◌,
  length, ◌==◌,
}
use cake.Text.{Text, codes}
use cake.Config.{bindir, libdir}
use cake.System.{Os, ◌>>=◌, ◌>>◌, look, pure, fits}
use cake.Utility.Print.{printerr, cprintf, green}
use cake.File.{mkpath, exists, is_older}
use cake.Command.{execute_command}
use cake.Project.{Project}
use cake.ArgList.{ArgList, add_args}
use cake.Build.{Build, B, of_build, on_build}
use cake.Build.Keeps.{
  Keeps, Keeps-pure, Keeps-on_build, Keeps-if, Keeps-after, Keeps-reading, Keeps-knowing,
  Keeps-first, Keeps-fits, Keeps-weaken,
}
use cake.Build.Jobs.{complete_jobs}
use cake.Build.Jobs.Tally.{active}
use cake.Build.Jobs.Complete.{complete_jobs-Accounts}
use cake.Build.Compile.Balance.{Balance}
use cake.Build.Link.{
  up_to_date, fail, built, count_tool, run_tool, link_args, verbose_args, depend_args, add_libs,
  do_link, link, do_staticlib, staticlib,
}

-- No job is left, nothing has failed, and there is an object for every file that was processed.
abbrev pub IsWhole : Build → Type 0
IsWhole b = (b.nfailed ≡ 0) × (active b.jobs ≡ 0) × (length b.linklist ≡ b.nprocessed)

abbrev pub WholeIf : Bool → Build → Type 0
WholeIf ok b = ok ≡ true → IsWhole b

module _ {W : Type 0} (os : Os W) where
  up_to_date-keeps :
      {P : Build → Type 0} (outname : Text) → Keeps P (up_to_date os outname) (λ _. P)
  unfolding up_to_date
  up_to_date-keeps outname =
      Keeps-reading (λ b. length b.linklist)
        λ linked.
          Keeps-reading (λ b. b.nskipped)
            λ nskipped.
              Keeps-if (not (linked == nskipped)) _ _ (λ _. Keeps-pure false (λ b p. p))
                λ _. Keeps-after (exists os outname) λ there.
                  Keeps-if (not there) _ _ (λ _. Keeps-pure false (λ b p. p))
                    λ _.
                      Keeps-after (is_older os outname) λ older. Keeps-pure (not older) (λ b p. p)

  fail-IsWhole : {P : Build → Type 0} → Keeps {W = W} P (fail os) WholeIf
  unfolding fail
  fail-IsWhole =
      Keeps-first {R = λ _ _. Unit} (on_build (λ b. record b { nfailed = b.nfailed + 1 }))
        (Keeps-on_build _ (λ b p. tt)) λ _. Keeps-pure false (λ b p e. cc)

  count_tool-IsWhole :
      (target : Text) (r : Bool × ℕ) → Keeps IsWhole (count_tool os target r) WholeIf
  unfolding count_tool built
  count_tool-IsWhole target (ok, code) =
      Keeps-if (not ok) _ _
        (λ _. Keeps-after (printerr os (target ++ codes " FAIL")) λ _. fail-IsWhole)
        λ _.
          Keeps-if (not (code == 0)) _ _ (λ _. fail-IsWhole)
            λ _. Keeps-after (cprintf os green (codes "built " ++ target ++ codes ".")) λ _.
              Keeps-first {R = λ _. IsWhole} (on_build (λ b. record b { nlinked = b.nlinked + 1 }))
                (Keeps-on_build _ (λ b p. p)) λ _. Keeps-pure true (λ b p _. p)

  run_tool-IsWhole :
      (target : Text) (args : ArgList) (cwd : Text)
      → Keeps IsWhole (run_tool os target args cwd) WholeIf
  unfolding run_tool
  run_tool-IsWhole target args cwd =
      Keeps-after (execute_command os args (some cwd)) λ r. count_tool-IsWhole target r

  do_link-IsWhole :
      (projects : List Project) (p : Project) (target ldflags : Text) (libs : Option (List Text))
      (outname : Text)
      → Keeps IsWhole (do_link os projects p target ldflags libs outname) WholeIf
  unfolding do_link
  do_link-IsWhole projects p target ldflags libs outname = Keeps-after (mkpath os outname) λ _.
      Keeps-after (look os.getcwd) λ cwd.
        Keeps-reading (λ b. b.pchname)
          λ pchname.
            Keeps-reading (λ b. b.linklist)
              λ linklist. Keeps-after (link_args os pchname ldflags outname linklist) λ args.
                Keeps-after (verbose_args os args) λ _.
                  Keeps-after (depend_args os projects p.depends (add_libs os libs args))
                    λ args'. run_tool-IsWhole target args' cwd

  do_staticlib-IsWhole :
      (target outname : Text) → Keeps IsWhole (do_staticlib os target outname) WholeIf
  unfolding do_staticlib
  do_staticlib-IsWhole target outname = Keeps-after (mkpath os outname) λ _.
      Keeps-after (look os.getcwd) λ cwd.
        Keeps-reading (λ b. b.linklist)
          λ linklist.
            Keeps-after
              (verbose_args os (add_args [] (codes "ar" ∷ codes "rcs" ∷ outname ∷ linklist)))
              λ _.
                run_tool-IsWhole target
                  (add_args [] (codes "ar" ∷ codes "rcs" ∷ outname ∷ linklist)) cwd

  completed :
      (pch unlinked : ℕ)
      → Keeps
          (Balance 0 pch unlinked)
          (complete_jobs os)
          (λ _ b. Balance 0 pch unlinked b × (active b.jobs ≡ 0))
  completed pch unlinked = record {
    at = λ s p a e. let (_, r, z) = complete_jobs-Accounts os s in (ground (arith, p, r), z);
  }

  -- How both functions begin: jobs are completed, and a failure ends it.
  complete-IsWhole :
      (pch unlinked : ℕ) (outname : Text) (go_on : Text → B W Bool)
      → ((o : Text) → Keeps IsWhole (go_on o) WholeIf)
      → Keeps
          (Balance 0 pch unlinked)
          (complete_jobs os
            >> (of_build (λ b. b.nfailed) >>= λ nfailed.
                if not (nfailed == 0)
                then pure false
                else (fits 260 outname >>= λ o.
                    (up_to_date os o >>= λ current. if current then pure true else go_on o))))
          WholeIf
  complete-IsWhole pch unlinked outname go_on h =
      Keeps-first {R = λ _ b. Balance 0 pch unlinked b × (active b.jobs ≡ 0)} (complete_jobs os)
        (completed pch unlinked)
        λ _.
          Keeps-knowing (λ b. b.nfailed)
            λ nfailed.
              Keeps-if (not (nfailed == 0)) _ _ (λ _. Keeps-pure false (λ b p e. cc))
                λ none_failed.
                  Keeps-weaken {P = IsWhole} {Q = WholeIf} _ (λ b p. ground (arith, p)) (λ a b q. q)
                    (Keeps-first {R = λ _. IsWhole} (fits 260 outname) (Keeps-fits 260 outname) λ o.
                      Keeps-first {R = λ _. IsWhole} (up_to_date os o) (up_to_date-keeps o)
                        λ current.
                          Keeps-if current _ _ (λ _. Keeps-pure true (λ b p _. p)) λ _. h o)

  pub link-IsWhole :
      (pch unlinked : ℕ) (projects : List Project) (p : Project) (target ldflags : Text)
      (libs : Option (List Text))
      → Keeps (Balance 0 pch unlinked) (link os projects p target ldflags libs) WholeIf
  unfolding link
  link-IsWhole pch unlinked projects p target ldflags libs =
      complete-IsWhole pch unlinked (bindir ++ target) (do_link os projects p target ldflags libs)
        (do_link-IsWhole projects p target ldflags libs)

  pub staticlib-IsWhole :
      (pch unlinked : ℕ) (target : Text)
      → Keeps (Balance 0 pch unlinked) (staticlib os target) WholeIf
  unfolding staticlib
  staticlib-IsWhole pch unlinked target =
      complete-IsWhole pch unlinked (libdir ++ codes "lib" ++ target ++ codes ".a")
        (do_staticlib os target) (do_staticlib-IsWhole target)
