-- ===== src/Main.antt =====
-- cake.cpp: the search for the makefile, and `main`.
pub mod Options
pub mod Calls
pub mod Kept
pub mod Names
pub mod Places
pub mod Search
use cake.Prelude.{
  ℕ, zero, suc, Bool, true, false, not, Option, none, some, List, [], ◌∷◌, ◌++◌, ltb, ◌==◌,
  if◌then◌else◌, length, take, get_elem?, set,
}
use cake.Text.{Text, codes, strchr, strrchr}
use cake.System.{
  Os, M, ◌>>=◌, ◌>>◌, pure, stop, skip, gets, modify, look, system, change, starved, each,
}
use cake.Utility.Print.{printerr}
use cake.Utility.{strfmt}
use cake.File.{exists, get_env, set_makefile_time}
use cake.Project.{Project}
use cake.Project.Compile.{compile_project}
use cake.Project.Scripts.{Shop, Script, in_machine, raise}
use cake.Project.Scripts
use cake.Project.Steps.{Interpreter, pre_build_step, post_build_step}
use cake.Lua.{
  Lua, Index, bottom, top, Call, s_add_libs, s_add_pkgdepend, s_add_flags, s_add_files,
  s_set_output_suffix, s_depend, s_create_program, s_create_library, s_getcwd, s_chdir,
}
use Options.{Event, parse_options}

-- `parent`, with what stands behind the last slash and the slash cut off, if anything does.
unfoldable pub cut_name : Text → Text
cut_name cwd = elim (strrchr b'/' cwd) [
  | none ↦ cwd
  | some slash ↦ if ltb (suc slash) (length cwd) then take slash cwd else cwd
]

-- The folder that the search goes on in; it ends where no slash is left.
unfoldable pub parent_of : Text → Option Text
parent_of cwd = elim (strchr b'/' (cut_name cwd)) [ none ↦ none | some _ ↦ some (cut_name cwd) ]

module _ {W : Type 0} (os : Os W) where
  unfoldable pub change_to : Option Text → M W Bool
  change_to none = pure false
  change_to (some parent) = system (os.chdir parent) >> pure true

  -- One round up to `nloops--`; `false`: the loop is left. The path of the working directory is
  -- taken to fit the buffer of 260 bytes.
  unfoldable pub step_up : M W Bool
  step_up = look os.getcwd >>= λ cwd. change_to (parent_of cwd)

  -- The loop, with `nloops` one more than the number.
  unfoldable pub search_up : ℕ → M W (Unit {0})
  search_up zero = step_up >> skip
  search_up (suc nloops) = do
    up ← step_up
    (if not up then skip else do
      makefile ← gets (λ s. s.makefile)
      there ← exists os makefile
      if there then skip else search_up nloops)

  unfoldable pub find_makefile : M W (Unit {0})
  find_makefile = do
    makefile ← gets (λ s. s.makefile)
    there ← exists os makefile
    if there then skip else search_up 7

-- `%s` prints a null pointer like this.
unfoldable pub text_or_null : Option Text → Text
text_or_null none = codes "(null)"
text_or_null (some t) = t

unfoldable pub target_or_debug : Option Text → Text
target_or_debug none = codes "debug"
target_or_debug (some t) = t

module _ {W : Type 0} (os : Os W) (lua : Lua W) where
  unfoldable pub lua_getcwd : Script W ℕ
  lua_getcwd = do
    cwd ← in_machine (look os.getcwd)
    in_machine (change (lua.pushstring cwd))
    pure 1

  -- `chdir` of a null pointer fails.
  unfoldable pub chdir_to : Option Text → M W Bool
  chdir_to none = pure false
  chdir_to (some str) = system (os.chdir str)

  unfoldable pub lua_chdir : Script W ℕ
  lua_chdir = do
    last ← in_machine (look lua.gettop)
    string ← in_machine (look (lua.isstring (top 1)))
    (if not (last == 1)
        then raise lua (codes "expected string")
        else if not string
        then raise lua (codes "expected string")
        else do
          str ← in_machine (system (lua.tostring (top 1)))
          ok ← in_machine (chdir_to str)
          if not ok then raise lua (codes "chdir() failed") else pure 0)

  -- The functions behind the names that are registered.
  unfoldable pub calls : Call → Script W ℕ
  calls s_add_libs = Scripts.add_libs lua
  calls s_add_pkgdepend = Scripts.add_pkgdepend lua
  calls s_add_flags = Scripts.add_flags lua
  calls s_add_files = Scripts.add_files lua
  calls s_set_output_suffix = Scripts.set_output_suffix lua
  calls s_depend = Scripts.depend lua
  calls s_create_program = Scripts.create_program lua
  calls s_create_library = Scripts.create_library lua
  calls s_getcwd = lua_getcwd
  calls s_chdir = lua_chdir

  -- `lua_register`
  unfoldable pub register_global : Text → Call → M W (Unit {0})
  register_global name call = change (lua.pushcfunction call) >> change (lua.setglobal name)

  unfoldable pub set_target : M W (Unit {0})
  set_target = do
    target ← gets (λ s. s.target)
    modify (λ s. record s { target = some (target_or_debug target) })
    change (lua.pushstring (target_or_debug target))
    change (lua.setglobal (codes "target"))

module _ {W : Type 0} (os : Os W) (lua : Lua W) (run : Interpreter W) where
  unfoldable pub print_error : Script W (Unit {0})
  print_error = do
    message ← in_machine (system (lua.tostring (top 1)))
    in_machine (printerr os (text_or_null message))

  -- `if (luaL_dofile(L, name)) printerr(...)`
  unfoldable pub run_file : Text → Script W (Unit {0})
  run_file name = do ok ← run.dofile (calls os lua) name; if ok then skip else print_error

  unfoldable pub auto_name : Option Text → Text
  auto_name home = strfmt 512 (text_or_null home ++ codes "/.cake/auto.lua")

  unfoldable pub has_auto : Option Text → M W Bool
  has_auto none = pure false
  has_auto (some home) = exists os (auto_name (some home))

  unfoldable pub run_auto : Script W (Unit {0})
  run_auto = do
    home ← gets (λ s. s.machine.home)
    verbose ← gets (λ s. s.machine.verbose_flag)
    there ← in_machine (has_auto home)
    (if there
        then run_file (auto_name home)
        else if verbose
        then in_machine (change (os.print_out (auto_name home ++ codes " not found." ++ 10 ∷ [])))
        else skip)

  unfoldable pub put_back : ℕ → Bool × Project → Script W Bool
  put_back k (ok, p) = do modify (λ s. record s { projects = set s.projects k p }); pure ok

  -- `p->compile()`, which may change the project.
  unfoldable pub compile_found : ℕ → List Project → Option Project → Script W Bool
  compile_found k projects none = pure false
  compile_found k projects (some p) = in_machine (compile_project os projects p) >>= put_back k

  unfoldable pub compile_kth : ℕ → Script W Bool
  compile_kth k =
      gets (λ s. s.projects) >>= λ projects. compile_found k projects (get_elem? projects k)

  unfoldable pub build_kth : ℕ → Project → Script W (Unit {0})
  build_kth k p = do
    ready ← pre_build_step os lua run (calls os lua) k p.registry
    (if not ready then skip else do
      ok ← compile_kth k
      if ok then (post_build_step os lua run (calls os lua) k p.registry >> skip) else skip)

  -- The loop over `g_projects`, which a step's script may make longer.
  unfoldable pub build_from : ℕ → ℕ → Script W (Unit {0})
  build_from zero k = stop starved
  build_from (suc fuel) k = gets (λ s. s.projects) >>= λ projects. elim (get_elem? projects k) [
    | none ↦ skip
    | some p ↦ (build_kth k p >> build_from fuel (suc k))
  ]

  -- `~Project()`
  unfoldable pub delete_project : Project → M W (Unit {0})
  delete_project p = elim p.registry [ none ↦ skip | some handle ↦ change (lua.unref handle.key) ]

  -- How `main` ends.
  unfoldable pub clean_up : Script W ℕ
  clean_up = do
    projects ← gets (λ s. s.projects)
    in_machine (each delete_project projects)
    in_machine (change lua.lua_close)
    pure 0

  -- From the makefile's name on.
  unfoldable pub run_makefile : Script W (Unit {0})
  run_makefile = do
    in_machine (find_makefile os)
    in_machine (gets (λ s. s.makefile) >>= set_makefile_time os)
    in_machine (set_target os lua)
    run_auto
    makefile ← gets (λ s. s.machine.makefile)
    run_file makefile

  unfoldable pub main : List Event → (W → W) → Script W ℕ
  main args argp_usage = do
    in_machine (parse_options os argp_usage args)
    home ← in_machine (get_env os (codes "HOME"))
    modify (λ s. record s { machine = record s.machine { home = home } })
    in_machine (change lua.openlibs)
    in_machine (register_global os lua (codes "getcwd") s_getcwd)
    in_machine (register_global os lua (codes "chdir") s_chdir)
    in_machine (Scripts.project_init lua)
    run_makefile
    build_from os.rounds 0
    clean_up
