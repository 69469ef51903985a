-- ===== src/Build/Objects/Add.antt =====
-- `add_compile_job` keeps the account of the objects.
use cake.Prelude.{
  ℕ, zero, suc, ◌+◌, ◌%◌, ◌<◌, ◌≡◌, refl, sym, ap, subst, ◌∙◌, true, ◌&&◌, Option, none, some, List,
  [], ◌∷◌, arith, if◌then◌else◌, length, length-set, get_elem?, set, ◌==◌,
}
use cake.Text.{Text}
use cake.System.{Os, Stop, stop, crashed}
use cake.System.Ends.{
  Ends, Ends-pure, Ends-gets, Ends-if, Ends-bind, Ends-weaken, Ends-known, Ends-modify,
}
use cake.Command.{is_active, wait}
use cake.Build.{Job, on_machine, of_build}
use cake.Build.Jobs.{
  settle, start_job, set_jobs, frand, find_slot, steal_from, steal_slot, add_compile_job,
}
use cake.Build.Jobs.Tally.{active}
use cake.Build.Jobs.Add.{get_elem?-in_range, all_active}
use cake.Build.Jobs.Slots.{ForksApart}
use cake.Build.Objects.{one, running}
use cake.Build.Objects.Sites.{Has, Has-change, Whole}
use cake.Build.Objects.Jobs.{settle-Has, wait-Has, start_job-Has, find_slot-Searched}

some-injective : {A : Type 0} {a b : A} → some a ≡ some b → a ≡ b
some-injective e = cc

-- An active job in the vector: what the others come to, also when another job takes its place.
running-at :
    (x : Text) (js : List Job) (i : ℕ) (j : Job)
    → get_elem? js i ≡ some j
    → is_active j.cmd ≡ true
    → (rest : ℕ) × (running x js ≡ one x j.objname + rest)
      × ((k : Job) → is_active k.cmd ≡ true → running x (set js i k) ≡ one x k.objname + rest)
running-at x [] i j e a = cc
running-at x (y ∷ js) zero j e a = (
  running x js,
  ap (λ k. (if is_active k.cmd then one x k.objname else 0) + running x js) (some-injective e)
      ∙ rw a refl,
  λ k b. rw b refl,
)
running-at x (y ∷ js) (suc i) j e a =
    let (rest, q, f) = running-at x js i j e a in
    (
      (if is_active y.cmd then one x y.objname else 0) + rest,
      omega (arith, q),
      λ k b. omega (arith, f k b),
    )

module _ {W : Type 0} (os : Os W) (apart : ForksApart os) (E : Stop → Type 0) (d x : Text) where
  set_jobs-Whole :
      (js : List Job) (o : ℕ)
      → 0 < length js
      → Ends E (Has os E d x (running x js) o) (set_jobs js) (λ _. Whole os E d x o)
  unfolding set_jobs
  set_jobs-Whole js o h =
      Ends-modify _ λ s p. record { folder = p.folder; slot = h; room = p.room; links = p.links }

  steal_from-Whole :
      (name : Text) (argv : List Text) (js : List Job) (r : ℕ) (j : Job) (o : ℕ)
      → get_elem? js r ≡ some j
      → is_active j.cmd ≡ true
      → 0 < length js
      → Ends E
          (Has os E d x (running x js) o)
          (steal_from os name argv js r j)
          (λ _. Whole os E d x (one x name + o))
  unfolding steal_from
  steal_from-Whole name argv js r j o at busy some_job =
      let (rest, q, f) = running-at x js r j at busy in
      Ends-bind (on_machine (wait os j.cmd)) (wait-Has os E d x j.cmd (running x js) o) λ w.
        Ends-known λ _.
          Ends-weaken
            (λ s.
              Has-change os E d x (running x js) o (one x j.objname + rest) o s
                (λ k e. omega (arith, e, q)))
            (λ a s p. p)
            (Ends-bind (settle (w.0 && w.1.exitcode == 0) j.objname)
              (settle-Has os E d x (w.0 && w.1.exitcode == 0) j.objname rest o)
              λ _.
                Ends-bind (start_job os (record j { cmd = w.1 }) name argv)
                  (start_job-Has os apart E d x (record j { cmd = w.1 }) name argv rest o)
                  λ j'. Ends-known λ (busy', named).
                    Ends-weaken
                      (λ s.
                        Has-change os E d x rest o (running x (set js r j')) (one x name + o) s
                          (λ k e. rw (f j' busy', named) (omega (arith, e))))
                      (λ a s p. p)
                      (set_jobs-Whole (set js r j') (one x name + o)
                        (omega (arith, length-set js r j'))))

  steal_slot-Whole :
      (name : Text) (argv : List Text) (o : ℕ)
      → Ends E
          (λ s. Whole os E d x o s × (active s.build.jobs ≡ length s.build.jobs))
          (steal_slot os name argv)
          (λ _. Whole os E d x (one x name + o))
  unfolding steal_slot frand
  steal_slot-Whole name argv o =
      Ends-bind {R = λ _ s. Whole os E d x o s × (active s.build.jobs ≡ length s.build.jobs)}
        (on_machine frand)
        (record {
          at = λ s (p, full).
              (record { folder = p.folder; slot = p.slot; room = p.room; links = p.links }, full);
        })
        λ n.
          Ends-bind
            {R = λ js s.
              Has os E d x (running x js) o s × ((active js ≡ length js) × (0 < length js))}
            (of_build (λ b. b.jobs))
            (Ends-gets (λ s. s.build.jobs) λ s (p, full). (p, (full, p.slot)))
            λ js.
              Ends-known
                λ (full, some_job). go n js full some_job (get_elem? js (n % length js)) refl
    where
      go :
          (n : ℕ) (js : List Job)
          → active js ≡ length js
          → 0 < length js
          → (e : Option Job) → get_elem? js (n % length js) ≡ e
          → Ends {A = Unit {0}} E
              (Has os E d x (running x js) o)
              (elim e [
                | none ↦ stop crashed
                | some j ↦ steal_from os name argv js (n % length js) j
              ])
              (λ _. Whole os E d x (one x name + o))
      go n js full some_job none at =
          let (j, found) = get_elem?-in_range js (n % length js) (grind arith) in absurd (cc)
      go n js full some_job (some j) at =
          steal_from-Whole name argv js (n % length js) j o at
            (all_active js (n % length js) j full at) some_job

  written :
      (js : List Job) (o : ℕ)
      → 0 < length js
      → Ends E
          (Has os E d x (running x js + 0) o)
          (set_jobs js)
          (λ _ s. Whole os E d x o s × (s.build.jobs ≡ js))
  unfolding set_jobs
  written js o h = Ends-modify _ λ s p. (
    Has-change os E d x (running x js + 0) o (running x js) o _ (λ k e. omega (arith, e))
        (record { folder = p.folder; slot = h; room = p.room; links = p.links }),
    refl,
  )

  -- One job more: the account is right for one object more.
  pub add_compile_job-Whole :
      (name : Text) (argv : List Text) (o : ℕ)
      → Ends E
          (Whole os E d x o)
          (add_compile_job os name argv)
          (λ _. Whole os E d x (one x name + o))
  unfolding add_compile_job
  add_compile_job-Whole name argv o =
      Ends-bind {R = λ js s. Has os E d x (running x js + 0) o s × (0 < length js)}
        (of_build (λ b. b.jobs))
        (Ends-gets (λ s. s.build.jobs)
          λ s p. (
            Has-change os E d x (running x s.build.jobs) o _ o s (λ k e. omega (arith, e)) p,
            p.slot,
          ))
        λ js. Ends-known λ some_job.
          Ends-bind (find_slot os name argv js) (find_slot-Searched os apart E d x name argv js 0 o)
            λ r. Ends-known λ (same, full).
              Ends-bind
                {R = λ _ s.
                  Whole os E d x (if r.0 then one x name + o else o) s × (s.build.jobs ≡ r.1)}
                (set_jobs r.1) (written r.1 _ (omega (arith, same)))
                λ _.
                  Ends-if r.0
                    (λ hit. Ends-pure tt λ s p.
                      subst (λ b. Whole os E d x (if b then one x name + o else o) s) hit p.0)
                    (λ missed.
                      Ends-weaken
                        (λ s p. (
                          subst (λ b. Whole os E d x (if b then one x name + o else o) s) missed
                              p.0,
                          subst (λ js. active js ≡ length js) (sym p.1) (full missed),
                        ))
                        (λ a s p. p) (steal_slot-Whole name argv o))
