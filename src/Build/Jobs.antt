-- ===== src/Build/Jobs.antt =====
-- build.cpp: the compile jobs. `jobs` is a vector of fixed length; the loops over it are
-- recursions on the list that give back the entries as they leave them.
pub mod Tally
pub mod Slots
pub mod Add
pub mod Complete
use cake.Prelude.{
  ℕ, suc, ◌+◌, ◌*◌, ◌%◌, ◌^◌, Bool, true, false, ◌&&◌, Option, none, some, List, [], ◌∷◌, ◌++◌,
  ◌==◌, if◌then◌else◌, length, get_elem?, set,
}
use cake.Text.{Text, codes}
use cake.System.{Os, M, ◌>>=◌, ◌>>◌, pure, stop, skip, crashed, done}
use cake.Command.{Command, is_active, begin, query_complete, wait}
use cake.Build.{Job, Build, Site, B, on_machine, of_build, on_build}

-- The seed is a `uint32`, and so is the product.
unfoldable pub next_seed : ℕ → ℕ
next_seed seed = seed * 16807 % 2 ^ 32 % 2147483647

module _ {W : Type 0} where
  unfoldable pub frand : M W ℕ
  frand s = (done (next_seed s.seed), record s { seed = next_seed s.seed })

  -- A job that is over: its object is linked if the command went well, and counted either way.
  unfoldable pub settle : Bool → Text → B W (Unit {0})
  settle true objname =
      on_build
        (λ b. record b { linklist = b.linklist ++ objname ∷ []; ncompiled = b.ncompiled + 1 })
  settle false objname = on_build (λ b. record b { nfailed = b.nfailed + 1 })

  unfoldable pub set_jobs : List Job → B W (Unit {0})
  set_jobs js = on_build (λ b. record b { jobs = js })

module _ {W : Type 0} (os : Os W) where
  -- `jobs[i].objname = objname; jobs[i].cmd.begin(argv, "./");`
  unfoldable pub start_job : Job → Text → List Text → B W Job
  start_job j objname argv = do
    cmd ← on_machine (begin os j.cmd argv (some (codes "./")))
    pure (record { cmd = cmd; objname = objname })

  unfoldable pub place : Text → List Text → Job → List Job → B W (Bool × List Job)
  place objname argv j js = do j' ← start_job j objname argv; pure (true, j' ∷ js)

  unfoldable pub pass_by : Job → B W (Bool × List Job) → B W (Bool × List Job)
  pass_by j search_on = do r ← search_on; pure (r.0, j ∷ r.1)

  -- An active job is polled. `search_on` is the rest of the loop.
  unfoldable pub try_slot :
      Text → List Text → Job → List Job → B W (Bool × List Job) → B W (Bool × List Job)
  try_slot objname argv j js search_on = do
    q ← on_machine (query_complete os j.cmd)
    (if q.0
        then (settle (q.1.exitcode == 0) j.objname
            >> place objname argv (record j { cmd = q.1 }) js)
        else pass_by (record j { cmd = q.1 }) search_on)

  -- The search for a slot: whether one was found, and the vector.
  unfoldable pub find_slot : Text → List Text → List Job → B W (Bool × List Job)
  find_slot objname argv [] = pure (false, [])
  find_slot objname argv (j ∷ js) =
      let search_on = find_slot objname argv js in
      if is_active j.cmd then try_slot objname argv j js search_on else place objname argv j js

  -- The entry `r` of the vector is waited for, and its slot used.
  unfoldable pub steal_from : Text → List Text → List Job → ℕ → Job → B W (Unit {0})
  steal_from objname argv jobs r j = do
    w ← on_machine (wait os j.cmd)
    settle (w.0 && w.1.exitcode == 0) j.objname
    j' ← start_job (record j { cmd = w.1 }) objname argv
    set_jobs (set jobs r j')

  -- No slot is free: wait for a job that is drawn by lot.
  unfoldable pub steal_slot : Text → List Text → B W (Unit {0})
  steal_slot objname argv = do
    n ← on_machine frand
    jobs ← of_build (λ b. b.jobs)
    elim (get_elem? jobs (n % length jobs)) [
      | none ↦ stop crashed
      | some j ↦ steal_from objname argv jobs (n % length jobs) j
    ]

  unfoldable pub add_compile_job : Text → List Text → B W (Unit {0})
  add_compile_job objname argv = do
    jobs ← of_build (λ b. b.jobs)
    r ← find_slot objname argv jobs
    set_jobs r.1
    if r.0 then skip else steal_slot objname argv

  unfoldable pub wait_job : Job → B W Job
  wait_job j = do
    w ← on_machine (wait os j.cmd)
    settle (w.0 && w.1.exitcode == 0) j.objname
    pure (record j { cmd = w.1 })

  unfoldable pub complete_job : Job → B W Job
  complete_job j = if is_active j.cmd then wait_job j else pure j

  unfoldable pub complete_each : List Job → B W (List Job)
  complete_each [] = pure []
  complete_each (j ∷ js) = do j' ← complete_job j; js' ← complete_each js; pure (j' ∷ js')

  unfoldable pub complete_jobs : B W (Unit {0})
  complete_jobs = do jobs ← of_build (λ b. b.jobs); js ← complete_each jobs; set_jobs js
