-- ===== src/Build/Start.antt =====
-- build.cpp: what the constructor of `build` gives.
use cake.Prelude.{
  All, ℕ, zero, suc, ◌<◌, ◌≡◌, refl, [], arith, length, replicate, inl, inr, Bool-cases,
}
use cake.Text.{codes}
use cake.System.{Os, Machine, done}
use cake.System.Laws.{resume-done}
use cake.Command.{is_active, execute_grab}
use cake.Build.Processors.{find_num_processors, max_one, count, cpuinfo}
use cake.ArgList.{add_args}
use cake.Build.{false, Build, Job, start, idle_job}
use cake.Build.Jobs.Tally.{active}
use cake.Build.Compile.Balance.{Balance}

max_one_pos : (n : ℕ) → 0 < max_one n
unfolding max_one
max_one_pos n = ground arith

length-replicate : (n : ℕ) (j : Job) → length (replicate n j) ≡ n
length-replicate zero j = refl
length-replicate (suc n) j = omega (arith, length-replicate n j)

active-replicate : (n : ℕ) → active (replicate n idle_job) ≡ 0
active-replicate zero = refl
active-replicate (suc n) = active-replicate n

-- A build that has slots and no jobs, and has linked nothing.
pub record IsNew (b : Build) : Type 0 where
  pub slot : 0 < length b.jobs
  pub idle : active b.jobs ≡ 0
  pub unlinked : b.linklist ≡ []
  pub no_header : b.pchname ≡ []

-- Nothing has happened yet.
pub record IsBlank (b : Build) : Type 0 where
  pub slot : 0 < length b.jobs
  pub idle : All (λ j. is_active j.cmd ≡ false) b.jobs
  pub nprocessed : b.nprocessed ≡ 0
  pub nskipped : b.nskipped ≡ 0
  pub ncompiled : b.ncompiled ≡ 0
  pub nfailed : b.nfailed ≡ 0
  pub nlinked : b.nlinked ≡ 0
  pub unlinked : b.linklist ≡ []
  pub no_header : b.pchname ≡ []

idle_slots : (n : ℕ) → All (λ j. is_active j.cmd ≡ false) (replicate n idle_job)
idle_slots zero = tt
idle_slots (suc n) = (refl, idle_slots n)

module _ {W : Type 0} (os : Os W) where
  -- Whatever /proc/cpuinfo says, there is at least one slot.
  find_num_processors_pos : (s : Machine W) (n : ℕ) → (find_num_processors os s).0 ≡ done n → 0 < n
  unfolding find_num_processors
  find_num_processors_pos s n e =
      let (r, _, q) = resume-done (execute_grab os (add_args [] cpuinfo) s.home s).0 _ _ e in
      elim (Bool-cases r.0) [
        | inl ok ↦ ground (arith, max_one_pos (count r.2 (codes "processor")))
        | inr failed ↦ ground arith
      ]

  -- A new build, if the constructor comes back, has at least one slot and nothing to account for.
  pub start-Balance : (s : Machine W) (b : Build) → (start os s).0 ≡ done b → Balance 0 0 0 b
  unfolding start
  start-Balance s b e =
      let (n, f, q) = resume-done (find_num_processors os s).0 _ _ e in
      ground
        (arith, find_num_processors_pos s n f, length-replicate n idle_job, active-replicate n, q)

  -- A new build is new.
  pub start-IsNew : (s : Machine W) (b : Build) → (start os s).0 ≡ done b → IsNew b
  unfolding start
  start-IsNew s b e =
      let (n, f, q) = resume-done (find_num_processors os s).0 _ _ e in
      ground
        (arith, find_num_processors_pos s n f, length-replicate n idle_job, active-replicate n, q)

  -- The constructor comes back, if it does, with a build that has at least one slot, and a slot for
  -- each processor that was counted; no slot has a job, all counters are 0, nothing is linked, and
  -- there is no precompiled header.
  pub start-IsBlank :
      (s : Machine W) (b : Build)
      → (start os s).0 ≡ done b
      → ((find_num_processors os s).0 ≡ done (length b.jobs)) × IsBlank b
  unfolding start
  start-IsBlank s b e =
      let (n, f, q) = resume-done (find_num_processors os s).0 _ _ e in
      ground (arith, length-replicate n idle_job, find_num_processors_pos s n f, idle_slots n, f, q)
