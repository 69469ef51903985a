-- ===== src/Build/Objects/Link.antt =====
-- A link that succeeds has put together the objects of the account.
use cake.Prelude.{
  ℕ, ◌+◌, ◌<◌, ◌≡◌, refl, ◌⊎◌, Bool, true, false, not, Option, some, List, [], ◌∷◌, ◌++◌, arith,
  if◌then◌else◌, All, length, ◌==◌,
}
use cake.Text.{Text, codes}
use cake.ArgList.{ArgList, add_args}
use cake.Config.{bindir, libdir}
use cake.System.{
  Os, M, Stop, Outcome, Machine, done, stopped, overrun, ◌>>=◌, ◌>>◌, look, pure, fits,
}
use cake.System.Ends.{
  Ends, Ended, Ends-pure, Ends-gets, Ends-if, Ends-bind, Ends-weaken, Ends-known, Ends-modify,
  Ends-fits, Fits,
}
use cake.Utility.Print.{printerr, cprintf, green}
use cake.File.{mkpath, exists, is_older}
use cake.Command.{execute_command}
use cake.Project.{Project}
use cake.Build.{Build, Site, B, on_machine, of_build, on_build}
use cake.Build.Jobs.{complete_jobs}
use cake.Build.Link.{
  up_to_date, fail, built, count_tool, run_tool, link_args, verbose_args, depend_args, add_libs,
  do_link, link, do_staticlib, staticlib,
}
use cake.Build.Objects.{occurrences}
use cake.Build.Objects.Sites.{Whole}
use cake.Build.Objects.Machine.{Stays, Stays-look, printerr-Stays, cprintf-Stays}
use cake.Build.Objects.Files.{mkpath-Stays, exists-Stays, is_older-Stays}
use cake.Build.Objects.Complete.{Complete, complete_jobs-Complete}
use cake.Build.Objects.Pch.{execute_command-Stays}
use cake.Build.Objects.Arguments.{CanLink, verbose_args-Stays, depend_args-Stays, link_args-Stays}

module _ {W : Type 0} (os : Os W) (E : Stop → Type 0) (d x : Text) (o : ℕ) where
  -- The links to `x` are `o`, and the header's name leaves room.
  abbrev Joined : Site W → Type 0
  Joined s =
      (s.machine.objdir ≡ d)
      × (((2 + length s.build.pchname < 260) ⊎ E overrun) × (occurrences x s.build.linklist ≡ o))

  abbrev pub JoinedIf : Bool → Site W → Type 0
  JoinedIf ok s = ok ≡ true → occurrences x s.build.linklist ≡ o

  Joined-after :
      {A C : Type 0} {Q : C → Site W → Type 0} {f : A → B W C} (m : M W A)
      → Stays os E d m
      → ((a : A) → Ends E Joined (f a) Q)
      → Ends E Joined (on_machine m >>= f) Q
  Joined-after {A} m h k =
      Ends-bind {R = λ _. Joined} (on_machine m)
        (record { at = λ s p. go s p (m s.machine).0 (m s.machine).1 (h.at s.machine p.0) }) k
    where
      go :
          (s : Site W)
          → Joined s
          → (r : Outcome A) (t : Machine W) → Ended E (λ _ s. s.objdir ≡ d) r t
          → Ended E (λ _. Joined) r (record s { machine = t })
      go s p (done a) t f = (f, p.1)
      go s p (stopped e) t r = r

  Joined-reading :
      {A C : Type 0} {Q : C → Site W → Type 0} {f : A → B W C} (g : Build → A)
      → ((a : A) → Ends E Joined (f a) Q)
      → Ends E Joined (of_build g >>= f) Q
  Joined-reading g k = Ends-bind (of_build g) (Ends-gets (λ s. g s.build) (λ s p. p)) k

  up_to_date-Joined : (outname : Text) → Ends E Joined (up_to_date os outname) (λ _. Joined)
  unfolding up_to_date
  up_to_date-Joined outname =
      Joined-reading (λ b. length b.linklist)
        λ linked.
          Joined-reading (λ b. b.nskipped)
            λ nskipped.
              Ends-if (not (linked == nskipped)) (λ _. Ends-pure false (λ s p. p))
                (λ _. Joined-after (exists os outname) (exists-Stays os E d outname) λ there.
                  Ends-if (not there) (λ _. Ends-pure false (λ s p. p))
                    (λ _.
                      Joined-after (is_older os outname) (is_older-Stays os E d outname)
                        λ older. Ends-pure (not older) (λ s p. p)))

  fail-JoinedIf : Ends E Joined (fail os) JoinedIf
  unfolding fail
  fail-JoinedIf =
      Ends-bind {R = λ _ _. Unit {0}} (on_build (λ b. record b { nfailed = b.nfailed + 1 }))
        (Ends-modify _ (λ s p. tt)) λ _. Ends-pure false (λ s p e. cc)

  run_tool-JoinedIf :
      (target : Text) (args : ArgList) (cwd : Text)
      → Ends E Joined (run_tool os target args cwd) JoinedIf
  unfolding run_tool count_tool built
  run_tool-JoinedIf target args cwd =
      Joined-after (execute_command os args (some cwd)) (execute_command-Stays os E d args cwd)
        λ (ok, code).
          Ends-if (not ok)
            (λ _.
              Joined-after (printerr os (target ++ codes " FAIL"))
                (printerr-Stays os E d (target ++ codes " FAIL")) λ _. fail-JoinedIf)
            (λ _.
              Ends-if (not (code == 0)) (λ _. fail-JoinedIf)
                (λ _.
                  Joined-after (cprintf os green (codes "built " ++ target ++ codes "."))
                    (cprintf-Stays os E d green (codes "built " ++ target ++ codes "."))
                    λ _.
                      Ends-bind {R = λ _. Joined}
                        (on_build (λ b. record b { nlinked = b.nlinked + 1 }))
                        (Ends-modify _ (λ s p. p)) λ _. Ends-pure true (λ s p _. p.1.1)))

  do_link-JoinedIf :
      (projects : List Project) (p : Project) (target ldflags : Text) (libs : Option (List Text))
      (outname : Text)
      → All (CanLink E projects) p.depends
      → Ends E Joined (do_link os projects p target ldflags libs outname) JoinedIf
  unfolding do_link
  do_link-JoinedIf projects p target ldflags libs outname can =
      Joined-after (mkpath os outname) (mkpath-Stays os E d outname) λ _.
        Joined-after (look os.getcwd) (Stays-look os E d os.getcwd) λ cwd.
          Ends-bind {R = λ c s. Joined s × ((2 + length c < 260) ⊎ E overrun)}
            (of_build (λ b. b.pchname)) (Ends-gets (λ s. s.build.pchname) (λ s q. (q, q.1.0)))
            λ pchname. Ends-known λ room.
              Joined-reading (λ b. b.linklist)
                λ linklist.
                  Joined-after (link_args os pchname ldflags outname linklist)
                    (link_args-Stays os E d pchname ldflags outname linklist room)
                    λ args.
                      Joined-after (verbose_args os args) (verbose_args-Stays os E d args) λ _.
                        Joined-after (depend_args os projects p.depends (add_libs os libs args))
                          (depend_args-Stays os E d projects p.depends (add_libs os libs args) can)
                          λ args'. run_tool-JoinedIf target args' cwd

  do_staticlib-JoinedIf :
      (target outname : Text) → Ends E Joined (do_staticlib os target outname) JoinedIf
  unfolding do_staticlib
  do_staticlib-JoinedIf target outname =
      Joined-after (mkpath os outname) (mkpath-Stays os E d outname) λ _.
        Joined-after (look os.getcwd) (Stays-look os E d os.getcwd) λ cwd.
          Joined-reading (λ b. b.linklist)
            λ linklist.
              Joined-after
                (verbose_args os (add_args [] (codes "ar" ∷ codes "rcs" ∷ outname ∷ linklist)))
                (verbose_args-Stays os E d
                  (add_args [] (codes "ar" ∷ codes "rcs" ∷ outname ∷ linklist)))
                λ _.
                  run_tool-JoinedIf target
                    (add_args [] (codes "ar" ∷ codes "rcs" ∷ outname ∷ linklist)) cwd

  -- How both functions begin.
  begin_link :
      (outname : Text) (go_on : Text → B W Bool)
      → Fits E 260 outname
      → ((n : Text) → Ends E Joined (go_on n) JoinedIf)
      → Ends E
          (Whole os E d x o)
          (complete_jobs os
            >> (of_build (λ b. b.nfailed) >>= λ nfailed.
                if not (nfailed == 0)
                then pure false
                else (fits 260 outname >>= λ n.
                    (up_to_date os n >>= λ current. if current then pure true else go_on n))))
          JoinedIf
  begin_link outname go_on fit h =
      Ends-bind (complete_jobs os) (complete_jobs-Complete os E d x o) λ _.
        Ends-bind {R = λ n s. Complete os E d x o s × (n ≡ s.build.nfailed)}
          (of_build (λ b. b.nfailed)) (Ends-gets (λ s. s.build.nfailed) (λ s p. (p, refl)))
          λ nfailed.
            Ends-if (not (nfailed == 0)) (λ _. Ends-pure false (λ s p e. cc))
              (λ none_failed.
                Ends-weaken {P' = Joined}
                  (λ s ((p, _), e). (p.folder, (p.room, ground (arith, p.links, none_failed, e))))
                  (λ a s q. q)
                  (Ends-bind (fits 260 outname) (Ends-fits 260 outname fit) λ n. Ends-known λ _.
                    Ends-bind (up_to_date os n) (up_to_date-Joined n)
                      λ current. Ends-if current (λ _. Ends-pure true (λ s p _. p.1.1)) (λ _. h n)))

  pub link-JoinedIf :
      (projects : List Project) (p : Project) (target ldflags : Text) (libs : Option (List Text))
      → Fits E 260 (bindir ++ target)
      → All (CanLink E projects) p.depends
      → Ends E (Whole os E d x o) (link os projects p target ldflags libs) JoinedIf
  unfolding link
  link-JoinedIf projects p target ldflags libs fit can =
      begin_link (bindir ++ target) (do_link os projects p target ldflags libs) fit
        λ n. do_link-JoinedIf projects p target ldflags libs n can

  pub staticlib-JoinedIf :
      (target : Text)
      → Fits E 260 (libdir ++ codes "lib" ++ target ++ codes ".a")
      → Ends E (Whole os E d x o) (staticlib os target) JoinedIf
  unfolding staticlib
  staticlib-JoinedIf target fit =
      begin_link (libdir ++ codes "lib" ++ target ++ codes ".a") (do_staticlib os target) fit
        (do_staticlib-JoinedIf target)
