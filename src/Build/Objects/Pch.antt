-- ===== src/Build/Objects/Pch.antt =====
-- `make_pch` leaves the account of the objects alone.
use cake.Prelude.{
  ℕ, ◌+◌, ◌<◌, ◌≡◌, refl, ◌⊎◌, inl, inr, Bool, not, some, ◌++◌, arith, length, length-append, ◌==◌,
}
use cake.Text.{Text, codes}
use cake.ArgList.{ArgList}
use cake.System.{Os, Stop, overrun, look, gets}
use cake.System.Ends.{Ends, Ends-pure, Ends-if, Ends-bind, Ends-modify}
use cake.Utility.Print.{printerr, blue}
use cake.File.{mkpath, exists}
use cake.Command.{Command, begin, wait, execute_command}
use cake.Command.Laws.{wait_lem}
use cake.Command
use cake.Build.{on_build}
use cake.Build.Names.{mkpchname, mkdepname}
use cake.Build.Rebuild.{needs_rebuild}
use cake.Build.Pch.{make_pch, build_pch, count_pch, pch_is_current, pch_args, announce_pch}
use cake.Build.Objects.Sites.{Whole, Whole-after, Whole-knowing, Whole-on_build}
use cake.Build.Objects.Machine.{
  Stays, Stays-pure, Stays-gets, Stays-look, printerr-Stays, cprintf-Stays,
}
use cake.Build.Objects.Files.{mkpath-Stays, exists-Stays}
use cake.Build.Objects.Steps.{
  ShortName, mkpchname-ends, mkdepname-Stays, needs_rebuild-Stays, print_args-Stays,
}

module _ {W : Type 0} (os : Os W) (E : Stop → Type 0) (d : Text) where
  pub execute_command-Stays :
      (args : ArgList) (cwd : Text) → Stays os E d (execute_command os args (some cwd))
  unfolding execute_command
  execute_command-Stays args cwd =
      Ends-bind (begin os Command.new args (some cwd)) (record { at = λ s p. p })
        λ cmd.
          Ends-bind (wait os cmd)
            (record { at = λ s p. let (ok, c, w, e, _) = wait_lem os cmd s in rw e p })
            λ r. Stays-pure os E d (r.0, r.1.exitcode)

  pch_is_current-Stays :
      (pch outputname : Text) → ShortName E d pch → Stays os E d (pch_is_current os pch outputname)
  unfolding pch_is_current
  pch_is_current-Stays pch outputname short =
      Ends-bind (exists os outputname) (exists-Stays os E d outputname) λ there.
        Ends-if (not there) (λ _. Stays-pure os E d _)
          (λ _.
            Ends-bind (needs_rebuild os pch outputname)
              (needs_rebuild-Stays os E d pch outputname short)
              λ stale. Stays-pure os E d (not stale))

  announce_pch-Stays : (pch : Text) (args : ArgList) → Stays os E d (announce_pch os pch args)
  unfolding announce_pch
  announce_pch-Stays pch args =
      Ends-bind (gets (λ s. s.verbose_flag)) (Stays-gets os E d (λ s. s.verbose_flag)) λ verbose.
        Ends-if verbose (λ _. print_args-Stays os E d args) (λ _. cprintf-Stays os E d blue pch)

module _ {W : Type 0} (os : Os W) (E : Stop → Type 0) (d x : Text) (o : ℕ) where
  -- One more failure.
  pub fails :
      Ends E
        (Whole os E d x o)
        (on_build (λ b. record b { nfailed = b.nfailed + 1 }))
        (λ _. Whole os E d x o)
  fails = Ends-modify _ λ s p. record {
    folder = p.folder;
    slot = p.slot;
    room = p.room;
    links = λ f. absurd (omega (arith, f));
  }

  count_pch-Whole :
      (pch : Text) (r : Bool × ℕ)
      → Ends E (Whole os E d x o) (count_pch os pch r) (λ _. Whole os E d x o)
  unfolding count_pch
  count_pch-Whole pch (ok, code) =
      Ends-if (not ok)
        (λ _.
          Whole-after os E d x o (printerr os (pch ++ codes " FAIL"))
            (printerr-Stays os E d (pch ++ codes " FAIL")) λ _. fails)
        (λ _.
          Ends-if (not (code == 0)) (λ _. fails)
            (λ _.
              Whole-on_build os E d x o (λ b. record b { ncompiled = b.ncompiled + 1 })
                (λ b. (refl, refl, refl, refl))))

  build_pch-Whole :
      (pch cflags : Text) (cplusplus : Bool) (outputname : Text)
      → Ends E
          (Whole os E d x o)
          (build_pch os pch cflags cplusplus outputname)
          (λ _. Whole os E d x o)
  unfolding build_pch pch_args
  build_pch-Whole pch cflags cplusplus outputname =
      Whole-after os E d x o (look os.getcwd) (Stays-look os E d os.getcwd) λ cwd.
        Whole-after os E d x o (pch_args os pch cflags cplusplus outputname)
          (Ends-bind (gets (λ s. s.target)) (Stays-gets os E d (λ s. s.target))
            λ target. Stays-pure os E d _)
          λ args.
            Whole-after os E d x o (announce_pch os pch args) (announce_pch-Stays os E d pch args)
              λ _.
                Whole-after os E d x o (execute_command os args (some cwd))
                  (execute_command-Stays os E d args cwd) λ r. count_pch-Whole pch r

  pub make_pch-Whole :
      (pch cflags : Text) (cplusplus : Bool)
      → ShortName E d pch
      → Ends E (Whole os E d x o) (make_pch os pch cflags cplusplus) (λ _. Whole os E d x o)
  unfolding make_pch
  make_pch-Whole pch cflags cplusplus short =
      Whole-knowing os E d x o (mkpchname pch) (mkpchname-ends os E d pch short) λ outputname e.
        Whole-after os E d x o (mkpath os outputname) (mkpath-Stays os E d outputname) λ _.
          Whole-after os E d x o (mkdepname pch) (mkdepname-Stays os E d pch short) λ depname.
            Ends-bind (on_build (λ b. record b { pchname = outputname })) (named outputname e short)
              λ _.
                Whole-after os E d x o (pch_is_current os pch outputname)
                  (pch_is_current-Stays os E d pch outputname short)
                  λ current.
                    Ends-if current (λ _. Ends-pure tt (λ s p. p))
                      (λ _. build_pch-Whole pch cflags cplusplus outputname)
    where
      fit :
          (name : Text)
          → name ≡ d ++ pch ++ codes ".gch"
          → ShortName E d pch
          → (2 + length name < 260) ⊎ E overrun
      fit name e (inl h) =
          inl (rw e (omega (arith, length-append (d ++ pch) (codes ".gch"), length-append d pch)))
      fit name e (inr h) = inr h

      named :
          (name : Text)
          → name ≡ d ++ pch ++ codes ".gch"
          → ShortName E d pch
          → Ends E
              (Whole os E d x o)
              (on_build (λ b. record b { pchname = name }))
              (λ _. Whole os E d x o)
      named name e short = Ends-modify _ λ s p. record {
        folder = p.folder;
        slot = p.slot;
        room = fit name e short;
        links = p.links;
      }
