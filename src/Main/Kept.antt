-- ===== src/Main/Kept.antt =====
-- What the whole program does to the list of projects.
use cake.Prelude.{
  ℕ, zero, suc, ◌≡◌, refl, Bool, true, false, not, Option, none, some, List, [], ◌∷◌, get_elem?,
  if◌then◌else◌, ltb, ◌==◌, ◌++◌,
}
use cake.Text.{Text, codes}
use cake.System.{
  Os, Outcome, done, stopped, resume, starved, modify, skip, change, look, system, gets, each,
  ◌>>=◌, ◌>>◌,
}
use cake.Utility.Print.{printerr}
use cake.File.{get_env, set_makefile_time}
use cake.Project.{Handle, Project}
use cake.Project.Compile.{compile_project}
use cake.Project.Compile.Result.{compile_project-IsGrown}
use cake.Project.Scripts.{Shop, project_init}
use cake.Project.Scripts.Always.{
  Always, Always-pure, Always-stop, Always-machine, Always-if, Always-first, Always-after,
}
use cake.Project.Scripts.Grown.{IsGrown}
use cake.Project.Scripts.Kept.{IsKept}
use cake.Project.Steps.{
  Interpreter, plain_wrong, do_build_step, run_step, call_step, step_result, find_step, no_pointer,
  pre_build_step, post_build_step,
}
use cake.Lua.{Lua, top, s_getcwd, s_chdir}
use cake.Main.Options.{Event, parse_options}
use cake.Main.{
  calls, find_makefile, set_target, print_error, run_file, auto_name, has_auto, run_auto,
  compile_found, put_back, compile_kth, build_kth, build_from, delete_project, run_makefile,
  clean_up, main, register_global, text_or_null,
}
use cake.Main.Calls.{calls-Kept, Keeps}

module _ {W : Type 0} (os : Os W) (lua : Lua W) (run : Interpreter W)
    (dofile_keeps : (name : Text) → Keeps os lua (run.dofile (calls os lua) name))
    (pcall_keeps : Keeps os lua (run.pcall (calls os lua))) {P : List Project → Type 0}
    (kept : IsKept P) where
  dofile-Always : (name : Text) → Always P (run.dofile (calls os lua) name)
  dofile-Always name = record { at = dofile_keeps name P (calls-Kept os lua kept) }

  pcall-Always : Always P (run.pcall (calls os lua))
  pcall-Always = record { at = pcall_keeps P (calls-Kept os lua kept) }

  call_step-Always : (t : ℕ) → Always P (call_step os lua run (calls os lua) t)
  unfolding call_step
  call_step-Always t = Always-after (change lua.swap) λ _. Always-after (change (lua.pop 1)) λ _.
      Always-after (change lua.swap) λ _.
        Always-first (run.pcall (calls os lua)) _ pcall-Always λ ok.
          Always-after (step_result os lua ok) λ bigret. Always-after (look lua.gettop) λ last.
            Always-after (if ltb t last then change (lua.pop 1) else skip) λ _. Always-pure bigret

  wrong-Always : Always P (plain_wrong os lua run (calls os lua))
  unfolding plain_wrong
  wrong-Always =
      Always-after (printerr os (codes "this is just plain wrong.")) λ _. Always-pure false

  run_step-Always :
      (k key : ℕ) (step : Text) → Always P (run_step os lua run (calls os lua) k key step)
  unfolding run_step
  run_step-Always k key step = Always-after (change (lua.rawgeti key)) λ _.
      Always-after (look lua.gettop) λ t.
        Always-if (ltb t 1)
          (Always-after (printerr os (no_pointer os lua step k key)) λ _. Always-pure false)
          (Always-after (change lua.pushnil) λ _.
            Always-after (find_step os lua os.rounds t step) λ _.
              Always-after (look lua.gettop)
                λ last. Always-if (ltb t last) (call_step-Always t) (Always-pure true))

  step-Always :
      (k : ℕ) (registry : Option Handle) (step : Text)
      → Always P (do_build_step os lua run (calls os lua) k registry step)
  unfolding do_build_step
  step-Always k none step = wrong-Always
  step-Always k (some handle) step =
      Always-if (handle.state == lua.main_state) (run_step-Always k handle.key step) wrong-Always

  run_file-Always : (name : Text) → Always P (run_file os lua run name)
  unfolding run_file print_error
  run_file-Always name = Always-first (run.dofile (calls os lua) name) _ (dofile-Always name) λ ok.
      Always-if ok (Always-pure tt) (
        Always-after (system (lua.tostring (top 1)))
          λ message. Always-machine (printerr os (text_or_null message)))

  run_auto-Always : Always P (run_auto os lua run)
  unfolding run_auto
  run_auto-Always = record {
    at = λ s.
        (Always-after (has_auto os lua run s.machine.home) λ there.
            Always-if there (run_file-Always (auto_name os lua run s.machine.home)) (
              Always-if s.machine.verbose_flag
                (Always-machine (
                  change (
                    os.print_out
                      (auto_name os lua run s.machine.home ++ codes " not found." ++ 10 ∷ []))))
                (Always-pure tt))).at
          s;
  }

  run_makefile-Always : Always P (run_makefile os lua run)
  unfolding run_makefile
  run_makefile-Always = Always-after (find_makefile os) λ _.
      Always-after (gets (λ s. s.makefile) >>= set_makefile_time os) λ _.
        Always-after (set_target os lua) λ _.
          Always-first (run_auto os lua run) _ run_auto-Always
            λ _. record { at = λ s. (run_file-Always s.machine.makefile).at s }

  compiled :
      (k : ℕ) (p : Project) (o : Outcome (Bool × Project)) (s : Shop W)
      → get_elem? s.projects k ≡ some p
      → ((r : Bool × Project) → o ≡ done r → IsGrown p r.1)
      → P s.projects
      → P (resume o (put_back os lua run k) s).1.projects
  unfolding put_back
  compiled k p (done r) s g h d = kept.replaced s.projects k p r.1 g (h r refl) d
  compiled k p (stopped e) s g h d = d

  compile_found-keeps :
      (k : ℕ) (o : Option Project) (s : Shop W)
      → get_elem? s.projects k ≡ o
      → P s.projects
      → P (compile_found os lua run k s.projects o s).1.projects
  unfolding compile_found
  compile_found-keeps k none s g d = d
  compile_found-keeps k (some p) s g d =
      compiled k p (compile_project os s.projects p s.machine).0 _ g
        ((compile_project-IsGrown os s.projects p).at s.machine) d

  build_kth-Always : (k : ℕ) (p : Project) → Always P (build_kth os lua run k p)
  unfolding build_kth pre_build_step post_build_step compile_kth
  build_kth-Always k p = Always-first _ _ (step-Always k p.registry (codes "pre")) λ ready.
      Always-if (not ready) (Always-pure tt) (
        Always-first (compile_kth os lua run k) _
          (record { at = λ s d. compile_found-keeps k (get_elem? s.projects k) s refl d })
          λ ok.
            Always-if ok
              (Always-first _ _ (step-Always k p.registry (codes "post")) λ _. Always-pure tt)
              (Always-pure tt))

  pub build_from-Always : (fuel k : ℕ) → Always P (build_from os lua run fuel k)
  unfolding build_from
  build_from-Always zero k = Always-stop starved
  build_from-Always (suc fuel) k = record {
    at = λ s. (next (build_from-Always fuel (suc k)) (get_elem? s.projects k)).at s;
  }
    where
      next :
          Always P (build_from os lua run fuel (suc k))
          → (o : Option Project)
          → Always {W = W} {A = Unit {0}} P (elim o [
            | none ↦ skip
            | some p ↦ (build_kth os lua run k p >> build_from os lua run fuel (suc k))
          ])
      next rest none = Always-pure tt
      next rest (some p) =
          Always-first (build_kth os lua run k p) _ (build_kth-Always k p) λ _. rest

  clean_up-Always : Always P (clean_up os lua run)
  unfolding clean_up
  clean_up-Always = record {
    at = λ s.
        (Always-after {C = ℕ} {P = P} (each (delete_project os lua run) s.projects)
            λ _. Always-after (change lua.lua_close) λ _. Always-pure 0).at
          s;
  }

  pub main-Always :
      (args : List Event) (argp_usage : W → W) → Always P (main os lua run args argp_usage)
  unfolding main
  main-Always args argp_usage = Always-after (parse_options os argp_usage args) λ _.
      Always-after (get_env os (codes "HOME")) λ home.
        Always-first (modify (λ s. record s { machine = record s.machine { home = home } })) _
          (record { at = λ s d. d })
          λ _. Always-after (change lua.openlibs) λ _.
            Always-after (register_global os lua (codes "getcwd") s_getcwd) λ _.
              Always-after (register_global os lua (codes "chdir") s_chdir) λ _.
                Always-after (project_init lua) λ _.
                  Always-first (run_makefile os lua run) _ run_makefile-Always λ _.
                    Always-first (build_from os lua run os.rounds 0) _
                      (build_from-Always os.rounds 0) λ _. clean_up-Always
