-- ===== src/Build/Rest/Link.antt =====
-- A build that has nothing to do, at the header and at the target.
use cake.Prelude.{
  ℕ, ◌≤◌, ◌≡◌, refl, sym, subst, ap, Bool, true, false, not, Option, some, List, ◌++◌, arith,
  length, if◌then◌else◌, ◌==◌,
}
use cake.Text.{Text, codes}
use cake.Config.{bindir, libdir}
use cake.System.{Os, Stat, fits, ◌>>=◌, ◌>>◌, pure}
use cake.System.Ends.{
  Ends, Never, Fits, Ends-pure, Ends-gets, Ends-if, Ends-bind, Ends-known, Ends-modify, Ends-fits,
}
use cake.File.{exists, mkpath, is_older}
use cake.Project.{Project}
use cake.Build.{B, of_build, on_build}
use cake.Build.Names.{mkpchname, mkdepname}
use cake.Build.Rebuild.{needs_rebuild}
use cake.Build.Jobs.{complete_jobs}
use cake.Build.Link.{up_to_date, link, staticlib, do_link, do_staticlib}
use cake.Build.Pch.{pch_is_current, make_pch, build_pch}
use cake.Build.Objects.Steps.{ShortName}
use cake.Build.Rest.{
  HasFolder, mkpath-Rest, IsCalm, Rest, Current, There, mkpchname-Rest, mkdepname-Rest,
  needs_rebuild-Rest, exists-Rest, is_older-Rest,
}
use cake.Build.Rest.Sites.{Idle, knowing, after, complete_jobs-Idle}

module _ {W : Type 0} (os : Os W) (I : W → Type 0) (d : Text) (made newest : ℕ)
    (calm : IsCalm os I newest) where
  -- The target is there, and is not older than the makefile, nor than any other file.
  pub record IsYoungest (name : Text) : Type 0 where
    pub stat : Stat
    pub there : (w : W) → I w → os.stat name w ≡ some stat
    pub after_makefile : made ≤ stat.mtime
    pub youngest : newest ≤ stat.mtime

  up_to_date-Idle :
      (links : List Text) (name : Text)
      → IsYoungest name
      → Ends Never
          (Idle os I d made newest calm links)
          (up_to_date os name)
          (λ a s. Idle os I d made newest calm links s × (a ≡ true))
  unfolding up_to_date
  up_to_date-Idle links name young =
      Ends-bind {R = λ n s. Idle os I d made newest calm links s × (n ≡ length links)}
        (of_build (λ b. length b.linklist)) (Ends-gets _ (λ s p. (p, ap length p.1.linked)))
        λ linked. Ends-known λ e.
          Ends-bind {R = λ n s. Idle os I d made newest calm links s × (n ≡ length links)}
            (of_build (λ b. b.nskipped)) (Ends-gets _ (λ s p. (p, p.1.skipped)))
            λ nskipped. Ends-known λ e'.
              Ends-if {m = pure false} (not (linked == nskipped)) (λ h. absurd (ground arith))
                λ _.
                  knowing os I d made newest calm (exists os name)
                    (exists-Rest os I d made newest calm name
                      (λ w i. (young.stat, young.there w i)))
                    λ there yes.
                      Ends-if {m = pure false} (not there) (λ h. absurd (ground arith))
                        λ _.
                          knowing os I d made newest calm (is_older os name)
                            (is_older-Rest os I d made newest calm name young.stat young.there
                              young.after_makefile young.youngest)
                            λ older younger. Ends-pure (not older) (λ s p. (p, ground arith))

  begin_link :
      (links : List Text) (outname : Text) (go_on : Text → B W Bool)
      → Fits Never 260 outname
      → IsYoungest outname
      → Ends Never
          (Idle os I d made newest calm links)
          (complete_jobs os
            >> (of_build (λ b. b.nfailed) >>= λ nfailed.
                if not (nfailed == 0)
                then pure false
                else (fits 260 outname >>= λ n.
                    (up_to_date os n >>= λ current. if current then pure true else go_on n))))
          (λ a s. Idle os I d made newest calm links s × (a ≡ true))
  begin_link links outname go_on short young =
      Ends-bind (complete_jobs os) (complete_jobs-Idle os I d made newest calm links) λ _.
        Ends-bind {R = λ n s. Idle os I d made newest calm links s × (n ≡ 0)}
          (of_build (λ b. b.nfailed)) (Ends-gets _ (λ s p. (p, p.1.none_failed)))
          λ nfailed. Ends-known λ e.
            Ends-if {m = pure false} (not (nfailed == 0)) (λ h. absurd (ground arith))
              λ _. Ends-bind (fits 260 outname) (Ends-fits 260 outname short) λ n.
                Ends-known λ same.
                  Ends-bind (up_to_date os n)
                    (subst
                      (λ n.
                        Ends Never (Idle os I d made newest calm links) (up_to_date os n)
                          (λ a s. Idle os I d made newest calm links s × (a ≡ true)))
                      (sym same) (up_to_date-Idle links outname young))
                    λ current. Ends-known λ yes.
                      Ends-if {n = go_on n} current (λ _. Ends-pure true (λ s p. (p, refl)))
                        (λ h. absurd (ground arith))

  pub link-Idle :
      (links : List Text) (projects : List Project) (p : Project) (target ldflags : Text)
      (libs : Option (List Text))
      → Fits Never 260 (bindir ++ target)
      → IsYoungest (bindir ++ target)
      → Ends Never
          (Idle os I d made newest calm links)
          (link os projects p target ldflags libs)
          (λ a s. Idle os I d made newest calm links s × (a ≡ true))
  unfolding link
  link-Idle links projects p target ldflags libs =
      begin_link links (bindir ++ target) (do_link os projects p target ldflags libs)

  pub staticlib-Idle :
      (links : List Text) (target : Text)
      → Fits Never 260 (libdir ++ codes "lib" ++ target ++ codes ".a")
      → IsYoungest (libdir ++ codes "lib" ++ target ++ codes ".a")
      → Ends Never
          (Idle os I d made newest calm links)
          (staticlib os target)
          (λ a s. Idle os I d made newest calm links s × (a ≡ true))
  unfolding staticlib
  staticlib-Idle links target =
      begin_link links (libdir ++ codes "lib" ++ target ++ codes ".a") (do_staticlib os target)

  -- The precompiled header is there and up to date.
  abbrev pub HeaderCurrent : Text → Type 0
  HeaderCurrent h =
      Current os I d made newest calm h (d ++ h ++ codes ".gch")
      × There os I d made newest calm (d ++ h ++ codes ".gch")

  pch_is_current-Idle :
      (h name : Text)
      → ShortName Never d h
      → name ≡ d ++ h ++ codes ".gch"
      → HeaderCurrent h
      → Ends Never
          (Rest os I d made newest calm)
          (pch_is_current os h name)
          (λ a s. Rest os I d made newest calm s × (a ≡ true))
  unfolding pch_is_current
  pch_is_current-Idle h name short e (current, there) =
      Ends-bind (exists os name)
        (exists-Rest os I d made newest calm name
          (subst (There os I d made newest calm) (sym e) there))
        λ found. Ends-known λ yes.
          Ends-if {m = pure false} (not found) (λ h. absurd (ground arith))
            λ _.
              Ends-bind (needs_rebuild os h name)
                (needs_rebuild-Rest os I d made newest calm h name short
                  (subst (Current os I d made newest calm h) (sym e) current))
                λ stale. Ends-pure (not stale) (λ s (p, fresh). (p, ground arith))

  pub make_pch-Idle :
      (links : List Text) (h cflags : Text) (cplusplus : Bool)
      → ShortName Never d h
      → HeaderCurrent h
      → Ends Never
          (Idle os I d made newest calm links)
          (make_pch os h cflags cplusplus)
          (λ _. Idle os I d made newest calm links)
  unfolding make_pch
  make_pch-Idle links h cflags cplusplus short current =
      knowing os I d made newest calm (mkpchname h) (mkpchname-Rest os I d made newest calm h short)
        λ name e.
          after os I d made newest calm (mkpath os name)
            (mkpath-Rest os I d made newest calm name
              (subst (HasFolder os I d made newest calm) (sym e) current.0.1))
            λ _.
              after os I d made newest calm (mkdepname h)
                (mkdepname-Rest os I d made newest calm h short)
                λ _.
                  Ends-bind {R = λ _. Idle os I d made newest calm links}
                    (on_build (λ b. record b { pchname = name }))
                    (Ends-modify _ λ s p. (
                      p.0,
                      record {
                        idle = p.1.idle;
                        linked = p.1.linked;
                        skipped = p.1.skipped;
                        none_failed = p.1.none_failed;
                        none_compiled = p.1.none_compiled;
                      },
                    ))
                    λ _.
                      knowing os I d made newest calm (pch_is_current os h name)
                        (pch_is_current-Idle h name short e current)
                        λ now yes.
                          Ends-if {n = build_pch os h cflags cplusplus name} now
                            (λ _. Ends-pure tt (λ s p. p)) (λ h. absurd (ground arith))
