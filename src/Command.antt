-- ===== src/Command.antt =====
-- command.h and command.cpp: a child process that is started, polled and waited for. The vector
-- `argv` is passed without the null pointer at its end. `workdir` may be a null pointer: `chdir`
-- then fails. In `Command()` the pipe is left indeterminate; nothing reads it before it is set.
pub mod Laws
pub mod Output
use cake.Prelude.{
  ℕ, zero, suc, ◌/◌, ◌%◌, Bool, true, false, not, Option, none, some, List, [], ◌∷◌, ◌++◌,
  if◌then◌else◌, ℤ, pos, negsuc, int_eq,
}
use cake.Text.{Text, codes, c_str}
use cake.System.{
  Os, Machine, M, Outcome, done, exited, replaced, starved, ◌>>=◌, ◌>>◌, pure, stop, skip, system,
  change,
}
use cake.Utility.Print.{printerr}

pub record Command : Type 0 where
  pub pid : ℤ
  pub exitcode : ℕ
  pub read_end : ℤ
  pub write_end : ℤ

-- `Command()`
abbrev pub new : Command
new = record { pid = pos 0; exitcode = 0; read_end = negsuc 0; write_end = negsuc 0 }

abbrev pub is_active : Command → Bool
is_active c = not (int_eq c.pid (pos 0))

-- `WEXITSTATUS`
abbrev pub exit_status : ℕ → ℕ
exit_status status = status / 256 % 256

-- What `%s` prints.
shown : Option Text → Text
shown none = codes "(null)"
shown (some t) = t

first : List Text → Option Text
first [] = none
first (x ∷ xs) = some x

chdir_failed : Option Text → Text
unfolding shown
chdir_failed dir = codes "ERROR: Unable to change to directory " ++ shown dir ++ codes "."

not_run : List Text → Text
unfolding shown first
not_run argv = codes "ERROR: Unable to run " ++ shown (first argv) ++ codes "."

module _ {W : Type 0} (os : Os W) where
  enter : Option Text → M W Bool
  enter none = pure false
  enter (some dir) = system (os.chdir dir)

  -- What the child does last: it never comes back from here.
  unfoldable pub run_image : List Text → M W (Unit {0})
  unfolding not_run
  run_image argv = do
    gone ← system (os.execvp argv)
    if gone then stop replaced else (printerr os (not_run argv) >> stop (exited 255))

  unfoldable pub change_dir : Option Text → M W (Unit {0})
  unfolding enter chdir_failed
  change_dir dir = do entered ← enter dir; if entered then skip else printerr os (chdir_failed dir)

  -- The child starts from a copy of the process, in the world that the call of `fork` leaves.
  unfoldable pub run_child : Machine W → M W (Unit {0}) → W → Outcome (Unit {0}) × W
  run_child s child w = let r = child (record s { world = w }) in (r.0, r.1.world)

  -- `pid = fork(); if (pid == 0) …`
  unfoldable pub fork_child : M W (Unit {0}) → M W ℤ
  unfolding run_child
  fork_child child s = system (os.fork (run_child s child)) s

  unfoldable pub begin : Command → List Text → Option Text → M W Command
  unfolding fork_child change_dir run_image
  begin cmd argv workdir = do
    pid ← fork_child (change_dir workdir >> run_image argv)
    pure (record cmd { pid = pid; exitcode = 0; read_end = negsuc 0; write_end = negsuc 0 })

  unfoldable pub grab_child : List Text → Option Text → ℤ → ℤ → M W (Unit {0})
  unfolding change_dir run_image
  grab_child argv workdir read_end write_end = do
    change_dir workdir
    change (os.close (pos 1))
    change (os.dup write_end)
    change (os.close read_end)
    run_image argv

  grab_from : Command → List Text → Option Text → ℤ × ℤ → M W Command
  unfolding fork_child grab_child
  grab_from cmd argv workdir (read_end, write_end) = do
    pid ← fork_child (grab_child argv workdir read_end write_end)
    (if int_eq pid (negsuc 0) then skip else change (os.close write_end))
    pure (record { pid = pid; exitcode = 0; read_end = read_end; write_end = write_end })

  unfoldable pub begin_grab_stdout : Command → List Text → Option Text → M W Command
  unfolding grab_from
  begin_grab_stdout cmd argv workdir = do
    ends ← system os.pipe
    elim ends [
      | none ↦ (printerr os (codes "can't make pipe") >> stop (exited 255))
      | some p ↦ grab_from cmd argv workdir p
    ]

  unfoldable pub read_stdout : Command → ℕ → M W (Option Text)
  read_stdout cmd bufsize = system (os.read cmd.read_end bufsize)

  unfoldable pub query_complete : Command → M W (Bool × Command)
  query_complete cmd = if not (is_active cmd) then pure (true, cmd) else do
    r ← system (os.waitpid cmd.pid true)
    (if int_eq r.0 cmd.pid
        then pure (true, record cmd { pid = pos 0; exitcode = exit_status r.1 })
        else pure (false, cmd))

  unfoldable pub wait : Command → M W (Bool × Command)
  wait cmd = if not (is_active cmd) then pure (true, cmd) else do
    r ← system (os.waitpid cmd.pid false)
    (if int_eq r.0 cmd.pid
        then pure (true, record cmd { pid = pos 0; exitcode = exit_status r.1 })
        else pure (false, record cmd { pid = pos 0 }))

  -- The two overloads of `ExecuteCommand`: the result and what `*exitcode` is set to.
  unfoldable pub execute_command : List Text → Option Text → M W (Bool × ℕ)
  unfolding begin wait
  execute_command argv workdir = do
    cmd ← begin new argv workdir
    r ← wait cmd
    pure (r.0, r.1.exitcode)

  -- The `do … while` loop over `read_stdout`, on fuel.
  unfoldable pub read_all : ℕ → Command → Text → M W Text
  unfolding read_stdout c_str
  read_all zero cmd output = stop starved
  read_all (suc fuel) cmd output = do
    chunk ← read_stdout cmd 512
    elim chunk [
      | none ↦ pure output
      | some tmp ↦ elim tmp [
        | [] ↦ pure output
        | b ∷ bs ↦ read_all fuel cmd (output ++ c_str (b ∷ bs))
      ]
    ]

  unfoldable pub execute_grab : List Text → Option Text → M W (Bool × ℕ × Text)
  unfolding begin_grab_stdout read_all wait
  execute_grab argv workdir = do
    cmd ← begin_grab_stdout new argv workdir
    output ← read_all os.rounds cmd []
    r ← wait cmd
    pure (r.0, r.1.exitcode, output)
