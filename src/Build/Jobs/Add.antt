-- ===== src/Build/Jobs/Add.antt =====
-- `add_compile_job` and `complete_jobs` keep the account of the jobs.
use cake.Prelude.{
  ℕ, zero, suc, ◌%◌, ◌<◌, ◌≡◌, refl, true, ◌&&◌, some, List, [], ◌∷◌, arith, length, length-set,
  get_elem?, set, ◌==◌, Bool-cases, inl, inr,
}
use cake.Text.{Text}
use cake.System.{Os, done}
use cake.Command.{is_active}
use cake.Command.Laws.{wait_lem}
use cake.Build.{Job, Build, Site}
use cake.Build.Jobs.{set_jobs, frand, next_seed, steal_from, steal_slot, add_compile_job}
use cake.Build.Jobs.Tally.{
  active, Progress, Accounts, Accounts-trans, Accounts-pass, settle_lem, active-set,
  active-le-length,
}
use cake.Build.Jobs.Slots.{ForksApart, start_job_lem, find_slot_lem}

pub get_elem?-in_range :
    (js : List Job) (i : ℕ) → i < length js → (j : Job) × (get_elem? js i ≡ some j)
get_elem?-in_range [] i h = absurd (omega arith)
get_elem?-in_range (j ∷ js) zero h = (j, refl)
get_elem?-in_range (j ∷ js) (suc i) h = get_elem?-in_range js i (omega arith)

pub all_active :
    (js : List Job) (i : ℕ) (j : Job)
    → active js ≡ length js
    → get_elem? js i ≡ some j
    → is_active j.cmd ≡ true
all_active [] i j h e = cc
all_active (x ∷ js) zero j h e = ground (arith, active-le-length js)
all_active (x ∷ js) (suc i) j h e = ground (arith, active-le-length js, all_active js i j)

module _ {W : Type 0} (os : Os W) (apart : ForksApart os) where
  steal_from_lem :
      (objname : Text) (argv : List Text) (js : List Job) (r : ℕ) (j : Job) (s : Site W)
      → get_elem? js r ≡ some j
      → is_active j.cmd ≡ true
      → (b : Build) × (s' : Site W) × (steal_from os objname argv js r j s ≡ (done tt, s'))
        × Progress 1 s.build b
        × (s'.build ≡ record b { jobs = s'.build.jobs })
        × (length s'.build.jobs ≡ length js)
        × (active s'.build.jobs ≡ active js)
  unfolding steal_from set_jobs
  steal_from_lem objname argv js r j s at busy =
      let (ok, c, w, e, _) = wait_lem os j.cmd s.machine in
      let s1 : Site W = record s { machine = record s.machine { world = w } } in
      let (b, es, p) = settle_lem (ok && c.exitcode == 0) j.objname s1 in
      let s2 : Site W = record s1 { build = b } in
      let (j', v, e', a, _) = start_job_lem os apart (record j { cmd = c }) objname argv s2 in
      (
        b,
        record s2 {
          machine = record s2.machine { world = v };
          build = record b { jobs = set js r j' };
        },
        rw (e, es, e'),
        p,
        refl,
        length-set js r j',
        active-set js r j j' at busy a,
      )

  steal_slot_lem :
      (objname : Text) (argv : List Text) (s : Site W)
      → 0 < length s.build.jobs
      → active s.build.jobs ≡ length s.build.jobs
      → (s' : Site W) × (steal_slot os objname argv s ≡ (done tt, s')) × Accounts 1 s.build s'.build
  unfolding steal_slot frand
  steal_slot_lem objname argv s some_job busy =
      let n = next_seed s.machine.seed in
      let s1 : Site W = record s { machine = record s.machine { seed = n } } in
      let (j, at) = get_elem?-in_range s.build.jobs (n % length s.build.jobs) (grind arith) in
      let runs = all_active s.build.jobs (n % length s.build.jobs) j busy at in
      let (b, s', e, p, q, l, a) =
        steal_from_lem objname argv s.build.jobs (n % length s.build.jobs) j s1 at runs in
      (s', rw (at, e), rw q (ground (arith, l, a)))

  add_compile_job_lem :
      (objname : Text) (argv : List Text) (s : Site W)
      → 0 < length s.build.jobs
      → (s' : Site W) × (add_compile_job os objname argv s ≡ (done tt, s'))
        × Accounts 1 s.build s'.build
  unfolding add_compile_job set_jobs
  add_compile_job_lem objname argv s some_job =
      let (found, js, s1, e, r) = find_slot_lem os apart objname argv s.build.jobs s in
      let s2 : Site W = record s1 { build = record s1.build { jobs = js } } in
      elim (Bool-cases found) [
        | inl hit ↦ (
          s2,
          rw (e, hit),
          Accounts-pass js r.progress r.same_length (ground (arith, hit, r.balance)),
        )
        | inr missed ↦
            let pass : Accounts 0 s.build s2.build =
              Accounts-pass js r.progress r.same_length (ground (arith, missed, r.balance)) in
            let (s3, e', a) =
              steal_slot_lem objname argv s2 (omega (arith, r.same_length))
                (omega (arith, r.all_busy missed, r.same_length)) in
            (s3, rw (e, missed, e'), Accounts-trans pass a)
      ]

  -- If `fork` never gives its caller 0 and there is a slot, then adding a job comes back with one job
  -- more in the account: the vector keeps its length, the active jobs and those counted as compiled
  -- or failed are one more together, and as many objects are linked as jobs compiled.
  pub add_compile_job-Accounts :
      (objname : Text) (argv : List Text) (s : Site W)
      → 0 < length s.build.jobs
      → let r = add_compile_job os objname argv s in (r.0 ≡ done tt) × Accounts 1 s.build r.1.build
  add_compile_job-Accounts objname argv s some_job =
      let (s', e, a) = add_compile_job_lem objname argv s some_job in (rw e, rw e a)
