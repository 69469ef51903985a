-- ===== src/Build/Objects/Jobs.antt =====
-- The search for a slot keeps the account of the objects.
use cake.Prelude.{
  ℕ, suc, ◌+◌, ◌≡◌, refl, ap, Bool, true, false, not, List, [], ◌∷◌, arith, if◌then◌else◌, length,
  ◌==◌,
}
use cake.Text.{Text}
use cake.System.{Os, Stop}
use cake.System.Ends.{Ends, Ends-pure, Ends-if, Ends-bind, Ends-weaken, Ends-known, Ends-modify}
use cake.Command.{Command, is_active, query_complete, wait}
use cake.Command.Laws.{query_complete_lem, wait_lem}
use cake.Build.{Job, Site, B, on_machine}
use cake.Build.Jobs.{settle, start_job, place, pass_by, try_slot, find_slot}
use cake.Build.Jobs.Tally.{active}
use cake.Build.Jobs.Slots.{ForksApart, start_job_lem}
use cake.Build.Objects.{occurrences-append, one, running}
use cake.Build.Objects.Sites.{Has, Has-change}

module _ {W : Type 0} (os : Os W) (E : Stop → Type 0) (d x : Text) where
  -- A job for `name` that is over is linked, or has failed.
  pub settle-Has :
      (ok : Bool) (name : Text) (n o : ℕ)
      → Ends E (Has os E d x (one x name + n) o) (settle ok name) (λ _. Has os E d x n o)
  unfolding settle
  settle-Has true name n o = Ends-modify _ λ s p. record {
    folder = p.folder;
    slot = p.slot;
    room = p.room;
    links = λ f. omega (arith, p.links f, occurrences-append x s.build.linklist (name ∷ []));
  }
  settle-Has false name n o = Ends-modify _ λ s p. record {
    folder = p.folder;
    slot = p.slot;
    room = p.room;
    links = λ f. absurd (omega (arith, f));
  }

  pub query-Has :
      (cmd : Command) (n o : ℕ)
      → Ends E (Has os E d x n o) (on_machine (query_complete os cmd)) (λ r s.
        Has os E d x n o s × ((r.0 ≡ not (is_active r.1)) × (is_active r.1 ≡ true → r.1 ≡ cmd)))
  query-Has cmd n o = record {
    at = λ s p.
        let (c, w, e, same, _) = query_complete_lem os cmd s.machine in
        rw e (
          record { folder = p.folder; slot = p.slot; room = p.room; links = p.links },
          (refl, same),
        );
  }

  pub wait-Has :
      (cmd : Command) (n o : ℕ)
      → Ends E
          (Has os E d x n o)
          (on_machine (wait os cmd))
          (λ r s. Has os E d x n o s × (is_active r.1 ≡ false))
  wait-Has cmd n o = record {
    at = λ s p.
        let (ok, c, w, e, idle) = wait_lem os cmd s.machine in
        rw e (record { folder = p.folder; slot = p.slot; room = p.room; links = p.links }, idle);
  }

module _ {W : Type 0} (os : Os W) (apart : ForksApart os) (E : Stop → Type 0) (d x : Text) where
  pub start_job-Has :
      (j : Job) (name : Text) (argv : List Text) (n o : ℕ)
      → Ends E
          (Has os E d x n o)
          (start_job os j name argv)
          (λ j' s. Has os E d x n o s × ((is_active j'.cmd ≡ true) × (j'.objname ≡ name)))
  start_job-Has j name argv n o = record {
    at = λ s p.
        let (j', w, e, a, named) = start_job_lem os apart j name argv s in
        rw e
          (record { folder = p.folder; slot = p.slot; room = p.room; links = p.links }, (a, named));
  }

  -- What a search over `js` comes to: the vector keeps its length, and if a slot was found there is
  -- one job more, for `name`; else all jobs are active.
  abbrev Searched : Text → List Job → ℕ → ℕ → Bool × List Job → Site W → Type 0
  Searched name js m o r s =
      Has os E d x (running x r.1 + m) (if r.0 then one x name + o else o) s
      × ((length r.1 ≡ length js) × (r.0 ≡ false → active r.1 ≡ length r.1))

  place-Searched :
      (name : Text) (argv : List Text) (j k : Job) (js : List Job) (m o : ℕ)
      → Ends E
          (Has os E d x (running x js + m) o)
          (place os name argv j js)
          (Searched name (k ∷ js) m o)
  unfolding place
  place-Searched name argv j k js m o =
      Ends-bind (start_job os j name argv) (start_job-Has j name argv (running x js + m) o) λ j'.
        Ends-known λ (busy, named).
          Ends-pure (true, j' ∷ js)
            λ s p. (
              Has-change os E d x (running x js + m) o _ _ s
                  (λ l h. rw (busy, named) (omega (arith, h))) p,
              (refl, λ e. cc),
            )

  pass_by-Searched :
      (name : Text) (j : Job) (js : List Job) (search_on : B W (Bool × List Job)) (m o : ℕ)
      → is_active j.cmd ≡ true
      → Ends E
          (Has os E d x (running x js + (one x j.objname + m)) o)
          search_on
          (Searched name js (one x j.objname + m) o)
      → Ends E
          (Has os E d x (running x js + (one x j.objname + m)) o)
          (pass_by os j search_on)
          (Searched name (j ∷ js) m o)
  unfolding pass_by
  pass_by-Searched name j js search_on m o busy h = Ends-bind search_on h λ r.
      Ends-pure (r.0, j ∷ r.1)
        λ s (p, (l, full)). (
          Has-change os E d x (running x r.1 + (one x j.objname + m)) _ _ _ s
              (λ k e. rw busy (omega (arith, e))) p,
          (ap suc l, λ e. rw busy (ap suc (full e))),
        )

  try_slot-Searched :
      (name : Text) (argv : List Text) (j : Job) (js : List Job) (search_on : B W (Bool × List Job))
      (m o : ℕ)
      → Ends E
          (Has os E d x (running x js + (one x j.objname + m)) o)
          search_on
          (Searched name js (one x j.objname + m) o)
      → Ends E
          (Has os E d x (one x j.objname + (running x js + m)) o)
          (try_slot os name argv j js search_on)
          (Searched name (j ∷ js) m o)
  unfolding try_slot
  try_slot-Searched name argv j js search_on m o h =
      Ends-bind (on_machine (query_complete os j.cmd))
        (query-Has os E d x j.cmd (one x j.objname + (running x js + m)) o)
        λ q. Ends-known λ (over, same).
          Ends-if q.0
            (λ _.
              Ends-bind (settle (q.1.exitcode == 0) j.objname)
                (settle-Has os E d x (q.1.exitcode == 0) j.objname (running x js + m) o)
                λ _. place-Searched name argv (record j { cmd = q.1 }) j js m o)
            (λ e.
              Ends-weaken
                (λ s p.
                  Has-change os E d x _ _ (running x js + (one x j.objname + m)) o s
                    (λ k r. omega (arith, r)) p)
                (λ a s r. r)
                (pass_by-Searched name (record j { cmd = q.1 }) js search_on m o
                  (ground (arith, over, e)) h))

  -- A search for a slot keeps the account, with one job more if it finds one.
  pub find_slot-Searched :
      (name : Text) (argv : List Text) (js : List Job) (m o : ℕ)
      → Ends E
          (Has os E d x (running x js + m) o)
          (find_slot os name argv js)
          (Searched name js m o)
  unfolding find_slot
  find_slot-Searched name argv [] m o = Ends-pure (false, []) λ s p. (p, (refl, λ _. refl))
  find_slot-Searched name argv (j ∷ js) m o =
      Ends-if (is_active j.cmd)
        (λ busy.
          Ends-weaken
            (λ s p.
              Has-change os E d x (running x (j ∷ js) + m) o (one x j.objname + (running x js + m))
                o s (λ k r. omega (arith, rw busy at r)) p)
            (λ a s r. r)
            (try_slot-Searched name argv j js (find_slot os name argv js) m o
              (find_slot-Searched name argv js (one x j.objname + m) o)))
        (λ idle.
          Ends-weaken
            (λ s p.
              Has-change os E d x (running x (j ∷ js) + m) o (running x js + m) o s
                (λ k r. omega (arith, rw idle at r)) p)
            (λ a s r. r) (place-Searched name argv j j js m o))
