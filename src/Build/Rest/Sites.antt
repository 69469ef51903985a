-- ===== src/Build/Rest/Sites.antt =====
-- A build that has nothing to do, through the methods of `build`.
use cake.Prelude.{
  ℕ, ◌+◌, ◌≡◌, refl, sym, subst, ap, false, not, List, [], ◌∷◌, ◌++◌, map, arith, length, All,
  append_assoc, append-nil, length-append,
}
use cake.Text.{Text}
use cake.System.{Os, Machine, M, Outcome, done, stopped, look, each, ◌>>=◌}
use cake.System.Ends.{
  Ends, Ended, Never, Ends-pure, Ends-if, Ends-bind, Ends-weaken, Ends-known, Ends-modify,
}
use cake.File.{mkpath}
use cake.Command.{is_active}
use cake.Build.{Build, Job, Site, B, on_machine, on_build}
use cake.Build.Names.{objname_of, mkobjname}
use cake.Build.Rebuild.{needs_rebuild}
use cake.Build.Jobs.{complete_jobs, complete_each, complete_job, set_jobs}
use cake.Build.Jobs.Tally.{active}
use cake.Build.Compile.{do_compile, skip_file, compile_file, compile_each, compile}
use cake.Build.Objects.Steps.{ShortName}
use cake.Build.Objects.Compile.{sources}
use cake.Build.Rest.{
  IsCalm, AtRest, Rest, Current, mkobjname-Rest, needs_rebuild-Rest, HasFolder, mkpath-Rest,
}

-- No job is active, nothing has failed or was compiled, and each of the objects `links` is one of a
-- file that was skipped.
pub record HasSkipped (links : List Text) (b : Build) : Type 0 where
  pub idle : active b.jobs ≡ 0
  pub linked : b.linklist ≡ links
  pub skipped : b.nskipped ≡ length links
  pub none_failed : b.nfailed ≡ 0
  pub none_compiled : b.ncompiled ≡ 0

idle_each :
    {W : Type 0} (os : Os W) (js : List Job) (s : Site W)
    → active js ≡ 0
    → complete_each os js s ≡ (done js, s)
unfolding complete_each complete_job
idle_each os [] s h = refl
idle_each os (j ∷ js) s h =
    let quiet : is_active j.cmd ≡ false = ground arith in
    rw (complete_job, quiet, idle_each os js s (ground arith)) refl

module _ {W : Type 0} (os : Os W) (I : W → Type 0) (d : Text) (made newest : ℕ)
    (calm : IsCalm os I newest) where
  -- A build at rest.
  abbrev pub Idle : List Text → Site W → Type 0
  Idle links s = AtRest I d made newest s.machine × HasSkipped links s.build

  pub knowing :
      {A C : Type 0} {R : A → Type 0} {Q : C → Site W → Type 0} {f : A → B W C} {links : List Text}
      (m : M W A)
      → Ends Never (Rest os I d made newest calm) m (λ a s. Rest os I d made newest calm s × R a)
      → ((a : A) → R a → Ends Never (Idle links) (f a) Q)
      → Ends Never (Idle links) (on_machine m >>= f) Q
  knowing {A} {R = R} {links = links} m h k =
      Ends-bind {R = λ a s. Idle links s × R a} (on_machine m)
        (record { at = λ s p. go s p.1 (m s.machine).0 (m s.machine).1 (h.at s.machine p.0) })
        λ a. Ends-known (k a)
    where
      go :
          (s : Site W)
          → HasSkipped links s.build
          → (o : Outcome A) (t : Machine W)
          → Ended Never (λ a s. Rest os I d made newest calm s × R a) o t
          → Ended Never (λ a s. Idle links s × R a) o (record s { machine = t })
      go s p (done a) t (q, r) = ((q, p), r)
      go s p (stopped e) t q = q

  pub after :
      {A C : Type 0} {Q : C → Site W → Type 0} {f : A → B W C} {links : List Text} (m : M W A)
      → Ends Never (Rest os I d made newest calm) m (λ _. Rest os I d made newest calm)
      → ((a : A) → Ends Never (Idle links) (f a) Q)
      → Ends Never (Idle links) (on_machine m >>= f) Q
  after m h k =
      knowing {R = λ _. Unit {0}} m (Ends-weaken (λ s p. p) (λ a s p. (p, tt)) h) (λ a _. k a)

  skip-Idle :
      (links : List Text) (name : Text)
      → Ends Never (Idle links) (skip_file os name) (λ _. Idle (links ++ name ∷ []))
  unfolding skip_file
  skip-Idle links name = Ends-modify _ λ s p. (
    p.0,
    record {
      idle = p.1.idle;
      linked = ap (λ l. l ++ name ∷ []) p.1.linked;
      skipped = omega (arith, p.1.skipped, length-append links (name ∷ []));
      none_failed = p.1.none_failed;
      none_compiled = p.1.none_compiled;
    },
  )

  do_compile-Idle :
      (links : List Text) (f cflags : Text)
      → ShortName Never d f
      → Current os I d made newest calm f (objname_of d f)
      → Ends Never (Idle links) (do_compile os f cflags) (λ _. Idle (links ++ objname_of d f ∷ []))
  unfolding do_compile
  do_compile-Idle links f cflags short current =
      Ends-bind {R = λ _. Idle links} (on_build (λ b. record b { nprocessed = b.nprocessed + 1 }))
        (Ends-modify _ λ s p. (
          p.0,
          record {
            idle = p.1.idle;
            linked = p.1.linked;
            skipped = p.1.skipped;
            none_failed = p.1.none_failed;
            none_compiled = p.1.none_compiled;
          },
        ))
        λ _. knowing (mkobjname f) (mkobjname-Rest os I d made newest calm f short) λ objname e.
          after (mkpath os objname)
            (mkpath-Rest os I d made newest calm objname
              (subst (HasFolder os I d made newest calm) (sym e) current.1))
            λ _.
              knowing (needs_rebuild os f objname)
                (needs_rebuild-Rest os I d made newest calm f objname short
                  (subst (Current os I d made newest calm f) (sym e) current))
                λ stale fresh.
                  Ends-if {n = compile_file os f cflags objname} (not stale)
                    (λ _.
                      subst
                        (λ n.
                          Ends Never (Idle links) (skip_file os objname)
                            (λ _. Idle (links ++ n ∷ [])))
                        e (skip-Idle links objname))
                    (λ h. absurd (ground arith))

  -- The objects of the files, one after the other.
  each-Idle :
      (links fs : List Text) (cflags : Text)
      → All (ShortName Never d) fs
      → All (λ g. Current os I d made newest calm g (objname_of d g)) fs
      → Ends Never
          (Idle links)
          (each (λ file. do_compile os file cflags) fs)
          (λ _. Idle (links ++ map (objname_of d) fs))
  unfolding each
  each-Idle links [] cflags short current =
      Ends-pure tt (λ s p. subst (λ l. Idle l s) (sym (append-nil links)) p)
  each-Idle links (f ∷ fs) cflags short current =
      Ends-bind (do_compile os f cflags) (do_compile-Idle links f cflags short.0 current.0) λ _.
        Ends-weaken (λ s p. p)
          (λ a s p.
            subst (λ l. Idle l s) (append_assoc links (objname_of d f ∷ []) (map (objname_of d) fs))
              p)
          (each-Idle (links ++ objname_of d f ∷ []) fs cflags short.1 current.1)

  compile_each-Idle :
      (links found : List Text) (f cflags : Text)
      → All (ShortName Never d) (sources found f)
      → All (λ g. Current os I d made newest calm g (objname_of d g)) (sources found f)
      → Ends Never
          (Idle links)
          (compile_each os found f cflags)
          (λ _. Idle (links ++ map (objname_of d) (sources found f)))
  unfolding compile_each
  compile_each-Idle links [] f cflags short current =
      do_compile-Idle links f cflags short.0 current.0
  compile_each-Idle links (g ∷ gs) f cflags short current =
      each-Idle links (g ∷ gs) cflags short current

  pub compile-Idle :
      (links found : List Text) (f cflags : Text)
      → ((w : W) → I w → os.glob f w ≡ found)
      → All (ShortName Never d) (sources found f)
      → All (λ g. Current os I d made newest calm g (objname_of d g)) (sources found f)
      → Ends Never
          (Idle links)
          (compile os f cflags)
          (λ _. Idle (links ++ map (objname_of d) (sources found f)))
  unfolding compile
  compile-Idle links found f cflags same short current =
      knowing {R = λ a. a ≡ found} (look (os.glob f))
        (record { at = λ s p. (p, same s.world p.world) })
        λ a e.
          subst
            (λ l.
              Ends Never (Idle links) (compile_each os l f cflags)
                (λ _. Idle (links ++ map (objname_of d) (sources found f))))
            (sym e) (compile_each-Idle links found f cflags short current)

  pub complete_jobs-Idle :
      (links : List Text) → Ends Never (Idle links) (complete_jobs os) (λ _. Idle links)
  unfolding complete_jobs set_jobs
  complete_jobs-Idle links = record { at = λ s p. rw (idle_each os s.build.jobs s p.1.idle) p }
