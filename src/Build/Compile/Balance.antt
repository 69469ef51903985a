-- ===== src/Build/Compile/Balance.antt =====
-- Every file that is processed is accounted for.
use cake.Prelude.{ℕ, ◌+◌, ◌<◌, ◌≡◌, ◌⊎◌, not, List, [], ◌∷◌, arith, length, length-append}
use cake.Text.{Text}
use cake.System.{Os, done, look}
use cake.File.{mkpath}
use cake.Build.{Build, Site, on_build}
use cake.Build.Keeps.{
  Keeps, Keeps-on_build, Keeps-if, Keeps-each, Keeps-after, Keeps-reading, Keeps-first,
}
use cake.Build.Names.{mkobjname}
use cake.Build.Rebuild.{needs_rebuild}
use cake.Build.Jobs.{add_compile_job}
use cake.Build.Jobs.Tally.{active}
use cake.Build.Jobs.Slots.{ForksApart}
use cake.Build.Jobs.Add.{add_compile_job-Accounts}
use cake.Build.Compile.{
  do_compile, compile, compile_each, compile_file, skip_file, compile_args, announce,
}

-- `due` files are being worked on; every other one that was processed was skipped, compiled or
-- failed, or its job is active. `pch` is what a precompiled header adds to the counters, and
-- `unlinked` what it adds to `ncompiled`; they differ only if it failed.
pub record Balance (due pch unlinked : ℕ) (b : Build) : Type 0 where
  pub some_slot : 0 < length b.jobs
  pub counted : b.nprocessed + pch ≡ b.nskipped + b.ncompiled + b.nfailed + active b.jobs + due
  pub linked : length b.linklist + unlinked ≡ b.nskipped + b.ncompiled
  pub header : (unlinked ≡ pch) ⊎ (0 < b.nfailed)

module _ {W : Type 0} (os : Os W) (apart : ForksApart os) (pch unlinked : ℕ) where
  add_compile_job-Balance :
      (objname : Text) (argv : List Text)
      → Keeps
          (Balance 1 pch unlinked)
          (add_compile_job os objname argv)
          (λ _. Balance 0 pch unlinked)
  add_compile_job-Balance objname argv = record {
    at = λ s p a e.
        let (_, r) = add_compile_job-Accounts os apart objname argv s p.some_slot in
        ground (arith, p, r);
  }

  skip_file-Balance :
      (objname : Text)
      → Keeps {W = W} (Balance 1 pch unlinked) (skip_file os objname) (λ _. Balance 0 pch unlinked)
  unfolding skip_file
  skip_file-Balance objname =
      Keeps-on_build _ (λ b p. ground (arith, length-append b.linklist (objname ∷ [])))

  compile_file-Balance :
      (fname cflags objname : Text)
      → Keeps
          (Balance 1 pch unlinked)
          (compile_file os fname cflags objname)
          (λ _. Balance 0 pch unlinked)
  unfolding compile_file
  compile_file-Balance fname cflags objname =
      Keeps-reading (λ b. b.pchname)
        λ pchname.
          Keeps-after (compile_args os pchname fname cflags objname)
            λ args. Keeps-after (announce os fname args) λ _. add_compile_job-Balance objname args

  do_compile-Balance :
      (fname cflags : Text)
      → Keeps (Balance 0 pch unlinked) (do_compile os fname cflags) (λ _. Balance 0 pch unlinked)
  unfolding do_compile
  do_compile-Balance fname cflags =
      Keeps-first {R = λ _. Balance 1 pch unlinked}
        (on_build (λ b. record b { nprocessed = b.nprocessed + 1 }))
        (Keeps-on_build _ (λ b p. ground (arith, p)))
        λ _. Keeps-after (mkobjname fname) λ objname. Keeps-after (mkpath os objname) λ _.
          Keeps-after (needs_rebuild os fname objname) λ stale.
            Keeps-if (not stale) (skip_file os objname) (compile_file os fname cflags objname)
              (λ _. skip_file-Balance objname) (λ _. compile_file-Balance fname cflags objname)

  compile_each-Balance :
      (found : List Text) (fname cflags : Text)
      → Keeps
          (Balance 0 pch unlinked)
          (compile_each os found fname cflags)
          (λ _. Balance 0 pch unlinked)
  unfolding compile_each
  compile_each-Balance [] fname cflags = do_compile-Balance fname cflags
  compile_each-Balance (g ∷ gs) fname cflags =
      Keeps-each (λ file. do_compile os file cflags) (λ file. do_compile-Balance file cflags)
        (g ∷ gs)

  pub compile-Balance :
      (fname cflags : Text)
      → Keeps (Balance 0 pch unlinked) (compile os fname cflags) (λ _. Balance 0 pch unlinked)
  unfolding compile
  compile-Balance fname cflags =
      Keeps-after (look (os.glob fname)) λ found. compile_each-Balance found fname cflags

  -- If `fork` never gives its caller 0, then `compile`, when it comes back, keeps every processed
  -- file accounted for: skipped, compiled, failed or with an active job.
  pub compile_accounts :
      (fname cflags : Text) (s : Site W)
      → Balance 0 pch unlinked s.build
      → (compile os fname cflags s).0 ≡ done tt
      → Balance 0 pch unlinked (compile os fname cflags s).1.build
  compile_accounts fname cflags s b e = (compile-Balance fname cflags).at s b tt e
