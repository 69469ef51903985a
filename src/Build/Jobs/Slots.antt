-- ===== src/Build/Jobs/Slots.antt =====
-- A compile job always gets a slot.
use cake.Prelude.{
  ℕ, suc, ◌+◌, ◌≡◌, ◌≢◌, refl, ap, Bool, true, false, some, List, [], ◌∷◌, arith, if◌then◌else◌,
  length, int_eq_of_ne, ◌==◌, pos, negsuc, Bool-cases, inl, inr,
}
use cake.Text.{Text, codes}
use cake.System.{Os, Outcome, done, ◌>>◌}
use cake.Command.{is_active, run_child, change_dir, run_image}
use cake.Command.Laws.{begin_lem, query_complete_lem}
use cake.Build.{Job, Build, Site}
use cake.Build.Jobs.{start_job, place, pass_by, try_slot, find_slot}
use cake.Build.Jobs.Tally.{active, Progress, Progress-refl, settle_lem}

-- In the process that calls it, `fork` returns an id that is not 0, or -1.
abbrev pub ForksApart : {W : Type 0} → Os W → Type 0
ForksApart {W} os = (child : W → Outcome (Unit {0}) × W) (w : W) → (os.fork child w).0 ≢ pos 0

module _ {W : Type 0} (os : Os W) (apart : ForksApart os) where
  pub start_job_lem :
      (j : Job) (objname : Text) (argv : List Text) (s : Site W)
      → (j' : Job) × (w : W) × (start_job os j objname argv s
          ≡ (done j', record s { machine = record s.machine { world = w } }))
        × (is_active j'.cmd ≡ true)
        × (j'.objname ≡ objname)
  unfolding start_job
  start_job_lem j objname argv s =
      let child = run_child os s.machine (change_dir os (some (codes "./")) >> run_image os argv) in
      let f = os.fork child s.machine.world in
      (
        record {
          cmd = record { pid = f.0; exitcode = 0; read_end = negsuc 0; write_end = negsuc 0 };
          objname = objname;
        },
        f.1,
        rw (begin_lem os j.cmd argv (some (codes "./")) s.machine),
        rw (int_eq_of_ne f.0 (pos 0) (apart child s.machine.world)),
        refl,
      )

  -- What a search for a slot comes to: all jobs are still active, or one more job is.
  pub record Searched (js : List Job) (b : Build) (found : Bool) (js' : List Job) (b' : Build)
      : Type 0 where
    pub ended : ℕ
    pub progress : Progress ended b b'
    pub same_length : length js' ≡ length js
    pub balance : ended + active js' ≡ active js + (if found then 1 else 0)
    pub all_busy : found ≡ false → active js' ≡ length js'

  -- Where the job at hand is started, whatever was settled before.
  place-Searched :
      (j j' : Job) (js : List Job) (b b' : Build) (d : ℕ)
      → Progress d b b'
      → d + (if is_active j.cmd then 0 else 1) ≡ 1
      → is_active j'.cmd ≡ true
      → Searched (j ∷ js) b true (j' ∷ js) b'
  place-Searched j j' js b b' d p h a = record {
    ended = d;
    progress = p;
    same_length = refl;
    balance = ground arith;
    all_busy = λ e. cc;
  }

  pass_by-Searched :
      (j j' : Job) (js js' : List Job) (b b' : Build) (found : Bool)
      → is_active j.cmd ≡ true
      → is_active j'.cmd ≡ true
      → Searched js b found js' b'
      → Searched (j ∷ js) b found (j' ∷ js') b'
  pass_by-Searched j j' js js' b b' found a a' r = record {
    ended = r.ended;
    progress = r.progress;
    same_length = ap suc r.same_length;
    balance = ground (arith, r.balance);
    all_busy = λ e. ground (arith, r.all_busy e);
  }

  abbrev Search : Text → List Text → List Job → Site W → Type 0
  Search objname argv js s =
      (found : Bool) × (js' : List Job) × (s' : Site W) × (find_slot os objname argv js s
        ≡ (done (found, js'), s'))
      × Searched js s.build found js' s'.build

  abbrev in_world : Site W → W → Site W
  in_world s w = record s { machine = record s.machine { world = w } }

  find_slot-idle :
      (objname : Text) (argv : List Text) (j : Job) (js : List Job) (s : Site W)
      → is_active j.cmd ≡ false
      → Search objname argv (j ∷ js) s
  unfolding find_slot place
  find_slot-idle objname argv j js s idle =
      let (j', w, e, a, _) = start_job_lem j objname argv s in
      (
        true,
        j' ∷ js,
        in_world s w,
        rw (idle, e),
        place-Searched j j' js s.build s.build 0 (Progress-refl s.build) (rw idle) a,
      )

  find_slot-busy :
      (objname : Text) (argv : List Text) (j : Job) (js : List Job) (s : Site W)
      → is_active j.cmd ≡ true
      → ((s' : Site W) → Search objname argv js s')
      → Search objname argv (j ∷ js) s
  unfolding find_slot place try_slot pass_by
  find_slot-busy objname argv j js s busy rest =
      let (c, w, e, _, _) = query_complete_lem os j.cmd s.machine in
      elim (Bool-cases (is_active c)) [
        | inl runs ↦
            let (found, js', s', e', r) = rest (in_world s w) in
            (
              found,
              record j { cmd = c } ∷ js',
              s',
              rw (busy, e, runs, e'),
              pass_by-Searched j (record j { cmd = c }) js js' s.build s'.build found busy runs r,
            )
        | inr over ↦
            let (b, es, p) = settle_lem (c.exitcode == 0) j.objname (in_world s w) in
            let t : Site W = record (in_world s w) { build = b } in
            let (j', v, e', a, _) = start_job_lem (record j { cmd = c }) objname argv t in
            (
              true,
              j' ∷ js,
              in_world t v,
              rw (busy, e, over, es, e'),
              place-Searched j j' js s.build b 1 p (rw busy) a,
            )
      ]

  -- The search always comes to an end with the jobs in balance.
  pub find_slot_lem :
      (objname : Text) (argv : List Text) (js : List Job) (s : Site W)
      → (found : Bool) × (js' : List Job) × (s' : Site W) × (find_slot os objname argv js s
          ≡ (done (found, js'), s'))
        × Searched js s.build found js' s'.build
  unfolding find_slot
  find_slot_lem objname argv [] s = (
    false,
    [],
    s,
    refl,
    record {
      ended = 0;
      progress = Progress-refl s.build;
      same_length = refl;
      balance = omega arith;
      all_busy = λ _. refl;
    },
  )
  find_slot_lem objname argv (j ∷ js) s = elim (Bool-cases (is_active j.cmd)) [
    | inl busy ↦ find_slot-busy objname argv j js s busy (find_slot_lem objname argv js)
    | inr idle ↦ find_slot-idle objname argv j js s idle
  ]
