-- ===== src/Build/Objects/Complete.antt =====
-- `complete_jobs` keeps the account of the objects, and leaves no job.
use cake.Prelude.{
  ℕ, suc, ◌+◌, ◌<◌, ◌≡◌, refl, ap, false, ◌&&◌, List, [], ◌∷◌, arith, if◌then◌else◌, length, ◌==◌,
}
use cake.Text.{Text}
use cake.System.{Os, Stop}
use cake.System.Ends.{
  Ends, Ends-pure, Ends-gets, Ends-if, Ends-bind, Ends-weaken, Ends-known, Ends-modify,
}
use cake.Command.{is_active, wait}
use cake.Build.{Job, Site, on_machine, of_build}
use cake.Build.Jobs.{settle, set_jobs, complete_job, wait_job, complete_each, complete_jobs}
use cake.Build.Jobs.Tally.{active}
use cake.Build.Objects.{one, running}
use cake.Build.Objects.Sites.{Has, Has-change, Whole}
use cake.Build.Objects.Jobs.{settle-Has, wait-Has}

module _ {W : Type 0} (os : Os W) (E : Stop → Type 0) (d x : Text) where
  complete_job-Has :
      (j : Job) (m o : ℕ)
      → Ends E
          (Has os E d x ((if is_active j.cmd then one x j.objname else 0) + m) o)
          (complete_job os j)
          (λ r s. Has os E d x m o s × (is_active r.cmd ≡ false))
  unfolding complete_job wait_job
  complete_job-Has j m o =
      Ends-if (is_active j.cmd)
        (λ busy. rw busy (
          Ends-bind (on_machine (wait os j.cmd)) (wait-Has os E d x j.cmd (one x j.objname + m) o)
            λ w. Ends-known λ idle.
              Ends-bind (settle (w.0 && w.1.exitcode == 0) j.objname)
                (settle-Has os E d x (w.0 && w.1.exitcode == 0) j.objname m o)
                λ _. Ends-pure (record j { cmd = w.1 }) λ s p. (p, idle)))
        (λ idle. rw idle (
          Ends-pure j
            λ s p. (Has-change os E d x (0 + m) o m o s (λ k e. omega (arith, e)) p, idle)))

  complete_each-Has :
      (js : List Job) (m o : ℕ)
      → Ends E (Has os E d x (running x js + m) o) (complete_each os js) (λ r s.
        Has os E d x m o s × ((length r ≡ length js) × ((active r ≡ 0) × (running x r ≡ 0))))
  unfolding complete_each
  complete_each-Has [] m o =
      Ends-pure [] λ s p.
        (Has-change os E d x (0 + m) o m o s (λ k e. omega (arith, e)) p, (refl, (refl, refl)))
  complete_each-Has (j ∷ js) m o =
      Ends-weaken
        (λ s p.
          Has-change os E d x _ o
            ((if is_active j.cmd then one x j.objname else 0) + (running x js + m)) o s
            (λ k e. omega (arith, e)) p)
        (λ a s p. p)
        (Ends-bind (complete_job os j) (complete_job-Has j (running x js + m) o) λ j'.
          Ends-known λ idle. Ends-bind (complete_each os js) (complete_each-Has js m o) λ r.
            Ends-known λ (same, (none_active, none_running)). Ends-pure (j' ∷ r) λ s p.
              (p, (ap suc same, (rw idle none_active, rw idle (omega (arith, none_running))))))

  -- No job is active, and unless something failed, the links to `x` are `o`.
  abbrev pub Complete : ℕ → Site W → Type 0
  Complete o s = Has os E d x 0 o s × (active s.build.jobs ≡ 0)

  written :
      (js : List Job) (o : ℕ)
      → 0 < length js
      → active js ≡ 0
      → Ends E (Has os E d x 0 o) (set_jobs js) (λ _. Complete o)
  unfolding set_jobs
  written js o some_job none_active = Ends-modify _ λ s p.
      (record { folder = p.folder; slot = some_job; room = p.room; links = p.links }, none_active)

  pub complete_jobs-Complete :
      (o : ℕ) → Ends E (Whole os E d x o) (complete_jobs os) (λ _. Complete o)
  unfolding complete_jobs set_jobs
  complete_jobs-Complete o =
      Ends-bind {R = λ js s. Has os E d x (running x js + 0) o s × (0 < length js)}
        (of_build (λ b. b.jobs))
        (Ends-gets (λ s. s.build.jobs)
          λ s p. (
            Has-change os E d x (running x s.build.jobs) o _ o s (λ k e. omega (arith, e)) p,
            p.slot,
          ))
        λ js. Ends-known λ some_job.
          Ends-bind (complete_each os js) (complete_each-Has js 0 o) λ r.
            Ends-known λ (same, (none_active, _)). written r o (omega (arith, same)) none_active
