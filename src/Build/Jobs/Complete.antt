-- ===== src/Build/Jobs/Complete.antt =====
-- `complete_jobs` keeps the account of the jobs, and leaves none.
use cake.Prelude.{
  ℕ, suc, ◌≡◌, refl, ap, false, ◌&&◌, List, [], ◌∷◌, arith, if◌then◌else◌, length, ◌==◌, Bool-cases,
  inl, inr,
}
use cake.System.{Os, done}
use cake.Command.{is_active}
use cake.Command.Laws.{wait_lem}
use cake.Build.{Job, Site}
use cake.Build.Jobs.{set_jobs, complete_job, wait_job, complete_each, complete_jobs}
use cake.Build.Jobs.Tally.{
  active, Progress, Progress-refl, Progress-trans, Accounts, Accounts-pass, settle_lem,
}

module _ {W : Type 0} (os : Os W) where
  complete_job_lem :
      (j : Job) (s : Site W)
      → (d : ℕ) × (j' : Job) × (s' : Site W) × (complete_job os j s ≡ (done j', s'))
        × Progress d s.build s'.build
        × (d ≡ (if is_active j.cmd then 1 else 0))
        × (is_active j'.cmd ≡ false)
  unfolding complete_job wait_job
  complete_job_lem j s = elim (Bool-cases (is_active j.cmd)) [
    | inl busy ↦
        let (ok, c, w, e, idle) = wait_lem os j.cmd s.machine in
        let s1 : Site W = record s { machine = record s.machine { world = w } } in
        let (b, es, p) = settle_lem (ok && c.exitcode == 0) j.objname s1 in
        (1, record j { cmd = c }, record s1 { build = b }, rw (busy, e, es), p, rw busy, idle)
    | inr idle ↦ (0, j, s, rw idle, Progress-refl s.build, rw idle, idle)
  ]

  complete_each_lem :
      (js : List Job) (s : Site W)
      → (js' : List Job) × (s' : Site W) × (complete_each os js s ≡ (done js', s'))
        × Progress (active js) s.build s'.build
        × (length js' ≡ length js)
        × (active js' ≡ 0)
  unfolding complete_each
  complete_each_lem [] s = ([], s, refl, Progress-refl s.build, refl, refl)
  complete_each_lem (j ∷ js) s =
      let (d, j', s1, e, p, ended, idle) = complete_job_lem j s in
      let (js', s2, e', q, l, none_left) = complete_each_lem js s1 in
      (
        j' ∷ js',
        s2,
        rw (e, e'),
        ground (arith, ended, Progress-trans p q),
        ap suc l,
        ground (arith, idle, none_left),
      )

  pub complete_jobs_lem :
      (s : Site W)
      → (s' : Site W) × (complete_jobs os s ≡ (done tt, s'))
        × Accounts 0 s.build s'.build
        × (active s'.build.jobs ≡ 0)
  unfolding complete_jobs set_jobs
  complete_jobs_lem s =
      let (js, s1, e, p, l, none_left) = complete_each_lem s.build.jobs s in
      (
        record s1 { build = record s1.build { jobs = js } },
        rw e,
        Accounts-pass js p l (omega (arith, none_left)),
        none_left,
      )

  -- Completing the jobs comes back with none active; each that was is counted once, as compiled or
  -- failed, and as many objects are linked as jobs compiled.
  pub complete_jobs-Accounts :
      (s : Site W)
      → let r = complete_jobs os s in
        (r.0 ≡ done tt) × Accounts 0 s.build r.1.build × (active r.1.build.jobs ≡ 0)
  complete_jobs-Accounts s = let (s', e, a, z) = complete_jobs_lem s in (rw e, rw e a, rw e z)
