-- ===== src/Command/Laws.antt =====
-- What the parent learns of its child, and how the child ends.
use cake.Prelude.{
  ℕ, ◌≡◌, ◌≢◌, refl, sym, ◌↔◌, ◌⊎◌, inl, inr, ◌<◌, Bool, true, false, not, Option, none, some, List,
  arith, if◌then◌else◌, Bool-cases, pos, negsuc, int_eq, int_eq_iff,
}
use cake.Text.{Text}
use cake.System.{Os, Machine, done, stopped, exited, replaced, ◌>>◌}
use cake.Utility.Print.Laws.{printerr_lem}
use cake.Command.{
  Command, is_active, exit_status, run_child, fork_child, begin, run_image, change_dir,
  chdir_failed, not_run, query_complete, wait, execute_command,
}

module _ {W : Type 0} (os : Os W) where
  query_complete-idle :
      (cmd : Command) (s : Machine W)
      → is_active cmd ≡ false
      → query_complete os cmd s ≡ (done (true, cmd), s)
  unfolding query_complete
  query_complete-idle cmd s h = rw h

  query_complete-busy :
      (cmd : Command) (s : Machine W)
      → is_active cmd ≡ true
      → let r = os.waitpid cmd.pid true s.world in
        query_complete os cmd s ≡ (
          (if int_eq r.0.0 cmd.pid
              then done (true, record cmd { pid = pos 0; exitcode = exit_status r.0.1 })
              else done (false, cmd)),
          record s { world = r.1 },
        )
  unfolding query_complete
  query_complete-busy cmd s h = rw h (ground arith)

  wait-busy :
      (cmd : Command) (s : Machine W)
      → is_active cmd ≡ true
      → let r = os.waitpid cmd.pid false s.world in
        wait os cmd s ≡ (
          (if int_eq r.0.0 cmd.pid
              then done (true, record cmd { pid = pos 0; exitcode = exit_status r.0.1 })
              else done (false, record cmd { pid = pos 0 })),
          record s { world = r.1 },
        )
  unfolding wait
  wait-busy cmd s h = rw h (ground arith)

  -- `query_complete` reports whether the command is idle afterwards, and an idle command is left
  -- alone. Of the machine only the world changes.
  pub query_complete_lem :
      (cmd : Command) (s : Machine W)
      → (cmd' : Command) × (w : W) × (query_complete os cmd s
          ≡ (done (not (is_active cmd'), cmd'), record s { world = w }))
        × (is_active cmd' ≡ true → cmd' ≡ cmd)
        × (is_active cmd ≡ false → cmd' ≡ cmd)
  query_complete_lem cmd s = elim (Bool-cases (is_active cmd)) [
    | inl busy ↦ elim (Bool-cases (int_eq (os.waitpid cmd.pid true s.world).0.0 cmd.pid)) [
      | inl over ↦ (
        record cmd { pid = pos 0; exitcode = exit_status (os.waitpid cmd.pid true s.world).0.1 },
        (os.waitpid cmd.pid true s.world).1,
        rw (query_complete-busy cmd s busy, over),
        λ h. cc,
        λ h. cc,
      )
      | inr under ↦ (
        cmd,
        (os.waitpid cmd.pid true s.world).1,
        rw (query_complete-busy cmd s busy, under, busy),
        λ h. refl,
        λ h. refl,
      )
    ]
    | inr idle ↦ (cmd, s.world, rw (query_complete-idle cmd s idle, idle), λ h. refl, λ h. refl)
  ]

  -- `wait` leaves the command idle, whether or not it finds the child.
  pub wait_lem :
      (cmd : Command) (s : Machine W)
      → (ok : Bool) × (cmd' : Command) × (w : W) × (wait os cmd s
          ≡ (done (ok, cmd'), record s { world = w }))
        × (is_active cmd' ≡ false)
  unfolding wait
  wait_lem cmd s = elim (Bool-cases (is_active cmd)) [
    | inl busy ↦ elim (Bool-cases (int_eq (os.waitpid cmd.pid false s.world).0.0 cmd.pid)) [
      | inl over ↦ (
        true,
        record cmd { pid = pos 0; exitcode = exit_status (os.waitpid cmd.pid false s.world).0.1 },
        (os.waitpid cmd.pid false s.world).1,
        rw (wait-busy cmd s busy, over),
        refl,
      )
      | inr under ↦ (
        false,
        record cmd { pid = pos 0 },
        (os.waitpid cmd.pid false s.world).1,
        rw (wait-busy cmd s busy, under),
        refl,
      )
    ]
    | inr idle ↦ (true, cmd, s.world, rw idle, idle)
  ]

  -- `begin` only forks: the new command has the child's id, and of the machine only the world
  -- changes.
  pub begin_lem :
      (cmd : Command) (argv : List Text) (dir : Option Text) (s : Machine W)
      → let r = os.fork (run_child os s (change_dir os dir >> run_image os argv)) s.world in
        begin os cmd argv dir s ≡ (
          done (record { pid = r.0; exitcode = 0; read_end = negsuc 0; write_end = negsuc 0 }),
          record s { world = r.1 },
        )
  unfolding begin fork_child
  begin_lem cmd argv dir s = refl

  -- In the parent, a command succeeds with a code exactly when `waitpid` gives back the child's id,
  -- and the code is the exit status that it stores.
  pub execute_command_iff :
      (argv : List Text) (dir : Option Text) (s : Machine W) (code : ℕ)
      → let f = os.fork (run_child os s (change_dir os dir >> run_image os argv)) s.world in
        let r = os.waitpid f.0 false f.1 in
        f.0 ≢ pos 0
        → ((execute_command os argv dir s).0 ≡ done (true, code))
          ↔ ((r.0.0 ≡ f.0) × (exit_status r.0.1 ≡ code))
  unfolding execute_command begin fork_child wait
  execute_command_iff argv dir s code parent =
      let f = os.fork (run_child os s (change_dir os dir >> run_image os argv)) s.world in
      ground (arith, int_eq_iff f.0 (pos 0), int_eq_iff (os.waitpid f.0 false f.1).0.0 f.0)

  change_dir-done :
      (dir : Option Text) (s : Machine W)
      → (w : W) × (change_dir os dir s ≡ (done tt, record s { world = w }))
  unfolding change_dir
  change_dir-done none s = printerr_lem os (chdir_failed none) s
  change_dir-done (some d) s = elim (Bool-cases (os.chdir d s.world).0) [
    | inl e ↦ ((os.chdir d s.world).1, rw e)
    | inr e ↦
        let (w, p) =
          printerr_lem os (chdir_failed (some d)) (record s { world = (os.chdir d s.world).1 }) in
        (w, rw (e, p))
  ]

  -- The child never runs on into the parent's code: its image is replaced, or it exits with 255.
  pub child_stops :
      (argv : List Text) (dir : Option Text) (s : Machine W)
      → let r = ((change_dir os dir >> run_image os argv) s).0 in
        (r ≡ stopped replaced) ⊎ (r ≡ stopped (exited 255))
  unfolding run_image
  child_stops argv dir s =
      let (w, p) = change_dir-done dir s in
      elim (Bool-cases (os.execvp argv w).0) [
        | inl e ↦ inl (rw (p, e))
        | inr e ↦ inr (
            let (v, q) =
              printerr_lem os (not_run argv) (record s { world = (os.execvp argv w).1 }) in
            rw (p, e, q))
      ]

  -- A child that is found with a status below 256, as one has that a signal killed, counts as a
  -- success with code 0.
  pub execute_command-killed :
      (argv : List Text) (dir : Option Text) (s : Machine W)
      → let f = os.fork (run_child os s (change_dir os dir >> run_image os argv)) s.world in
        let r = os.waitpid f.0 false f.1 in
        f.0 ≢ pos 0 → r.0.0 ≡ f.0 → r.0.1 < 256 → (execute_command os argv dir s).0 ≡ done (true, 0)
  execute_command-killed argv dir s parent found low =
      (execute_command_iff argv dir s 0 parent).1 (found, omega arith)

  -- If `fork` fails with -1, and `waitpid` on that fails with -1 and stores no status, then the run
  -- counts as a success with code 0.
  pub execute_command-fork_failed :
      (argv : List Text) (dir : Option Text) (s : Machine W)
      → let f = os.fork (run_child os s (change_dir os dir >> run_image os argv)) s.world in
        f.0 ≡ negsuc 0
        → (os.waitpid f.0 false f.1).0 ≡ (negsuc 0, 0)
        → (execute_command os argv dir s).0 ≡ done (true, 0)
  execute_command-fork_failed argv dir s failed none_found =
      (execute_command_iff argv dir s 0 (λ e. ground arith)).1
        (rw none_found (sym failed), rw none_found)
