-- ===== src/Project/Scripts.antt =====
-- project.cpp: the functions that a makefile calls, and `project_init`.
pub mod Always
pub mod Grown
pub mod Kept
pub mod Names
pub mod Places
pub mod Strings
use cake.Prelude.{
  ℕ, zero, suc, Bool, true, false, not, Option, none, some, List, [], ◌∷◌, ◌++◌, ltb, ◌==◌,
  if◌then◌else◌, length, get_elem?, set,
}
use cake.Text.{Text, codes, str_eq}
use cake.System.{
  Machine, M, Act, ◌>>=◌, ◌>>◌, pure, stop, skip, gets, modify, look, system, change, crashed,
  raised, starved, each,
}
use cake.Project.{Project, Handle, Kind, program, static_library}
use cake.Lua.{
  Lua, Index, bottom, top, Call, s_add_libs, s_add_pkgdepend, s_add_flags, s_add_files,
  s_set_output_suffix, s_depend, s_create_program, s_create_library,
}

-- The machine, and `g_projects`.
pub record Shop (W : Type 0) : Type 0 where
  pub machine : Machine W
  pub projects : List Project

abbrev pub Script : Type 0 → Type 0 → Type 0
Script W A = Act (Shop W) A

abbrev pub in_machine : {W A : Type 0} → M W A → Script W A
in_machine m s = ((m s.machine).0, record s { machine = (m s.machine).1 })

unfoldable pub has_name : List Project → Text → Bool
has_name [] name = false
has_name (p ∷ ps) name = let rest = has_name ps name in if str_eq p.name name then true else rest

-- `new Project`, with the name and the type.
unfoldable pub new_project : Kind → Text → Handle → Project
new_project kind name handle = record {
  kind = kind;
  registry = some handle;
  files = [];
  libs = [];
  flags = [];
  pkgdepends = [];
  depends = [];
  name = name;
  output_suffix = [];
}

-- The functions in the table of a program, and of a library.
abbrev pub library_functions : List (Text × Call)
library_functions =
    (codes "add_pkgdepend", s_add_pkgdepend)
    ∷ (codes "add_flags", s_add_flags)
    ∷ (codes "add_files", s_add_files)
    ∷ (codes "set_output_suffix", s_set_output_suffix)
    ∷ []

abbrev pub program_functions : List (Text × Call)
program_functions =
    (codes "add_libs", s_add_libs) ∷ library_functions ++ (codes "depend", s_depend) ∷ []

module _ {W : Type 0} where
  unfoldable pub write_kth : ℕ → (Project → Project) → Option Project → Script W (Unit {0})
  write_kth k f none = stop crashed
  write_kth k f (some p) = modify (λ s. record s { projects = set s.projects k (f p) })

  -- A write through a `Project*`, which may be null.
  unfoldable pub update : Option ℕ → (Project → Project) → Script W (Unit {0})
  update none f = stop crashed
  update (some k) f = gets (λ s. s.projects) >>= λ projects. write_kth k f (get_elem? projects k)

  unfoldable pub push_project : Kind → Text → Handle → Script W ℕ
  push_project kind name handle = do
    modify (λ s. record s { projects = s.projects ++ new_project kind name handle ∷ [] })
    pure 1

  -- A null `const char*` is made a `std::string`.
  unfoldable pub put_string :
      (Text → Project → Project) → Option ℕ → Option Text → Script W (Unit {0})
  put_string put p none = stop crashed
  put_string put p (some curr) = update p (put curr)

module _ {W : Type 0} (lua : Lua W) where
  unfoldable pub raise : {A : Type 0} → Text → Script W A
  raise msg = in_machine (change (lua.error msg)) >> stop raised

  unfoldable pub getproject : Index → Script W (Option ℕ)
  getproject index = do
    in_machine (change (lua.pushstring (codes "__project")))
    ok ← in_machine (system (lua.gettable index))
    (if not ok then stop raised else do
      p ← in_machine (look (lua.touserdata (top 1)))
      in_machine (change (lua.pop 1))
      pure p)

  -- The loop over the arguments from `i` on. The number of values on the stack and one are enough
  -- fuel.
  unfoldable pub put_strings : ℕ → (Text → Project → Project) → Option ℕ → ℕ → Script W (Unit {0})
  put_strings zero put p i = stop starved
  put_strings (suc fuel) put p i = do
    last ← in_machine (look lua.gettop)
    (if ltb last i then skip else do
      curr ← in_machine (system (lua.tostring (bottom i)))
      put_string put p curr
      put_strings fuel put p (suc i))

  -- The results of these functions are the numbers of values that they give back to the script.
  unfoldable pub add_strings : (Text → Project → Project) → Script W ℕ
  add_strings put = do
    p ← getproject (bottom 1)
    last ← in_machine (look lua.gettop)
    put_strings (suc last) put p 2
    pure 0

  unfoldable pub add_libs : Script W ℕ
  add_libs = add_strings (λ t p. record p { libs = p.libs ++ t ∷ [] })

  unfoldable pub add_pkgdepend : Script W ℕ
  add_pkgdepend = add_strings (λ t p. record p { pkgdepends = p.pkgdepends ++ t ∷ [] })

  unfoldable pub add_flags : Script W ℕ
  add_flags = add_strings (λ t p. record p { flags = p.flags ++ t ∷ [] })

  unfoldable pub add_files : Script W ℕ
  add_files = add_strings (λ t p. record p { files = p.files ++ t ∷ [] })

  unfoldable pub set_output_suffix : Script W ℕ
  set_output_suffix = do
    p ← getproject (bottom 1)
    suffix ← in_machine (system (lua.tostring (bottom 2)))
    put_string (λ t p. record p { output_suffix = t }) p suffix
    pure 0

  unfoldable pub depend : Script W ℕ
  depend = do
    last ← in_machine (look lua.gettop)
    (if not (last == 2) then raise (codes "expected a parameter to depend()") else do
      p ← getproject (bottom 1)
      dep ← getproject (bottom 2)
      update p (λ q. record q { depends = q.depends ++ dep ∷ [] })
      pure 0)

  -- `REG_LUA_FUNC`
  unfoldable pub register : Text × Call → M W (Unit {0})
  register (name, call) = do
    change (lua.pushstring name)
    change (lua.pushcfunction call)
    change (lua.settable (top 3))

  -- The table of the project that will be the `k`-th; the result is the state and the table's key in
  -- the registry.
  unfoldable pub make_table : List (Text × Call) → ℕ → Script W Handle
  make_table functions k = do
    in_machine (change lua.newtable)
    in_machine (each register functions)
    in_machine (change (lua.pushstring (codes "__project")))
    in_machine (change (lua.pushlightuserdata k))
    in_machine (change (lua.settable (top 3)))
    table ← in_machine (look (lua.istable (bottom 2)))
    (if not table then stop raised else do
      in_machine (change (lua.pushvalue (bottom 2)))
      key ← in_machine (system lua.ref)
      state ← in_machine (look lua.running)
      pure (record { state = state; key = key }))

  -- The name is that of no project that there is.
  unfoldable pub create_named : Kind → List (Text × Call) → Option Text → Script W ℕ
  create_named kind functions none = stop crashed
  create_named kind functions (some name) = do
    projects ← gets (λ s. s.projects)
    (if has_name projects name
        then raise (codes "project '" ++ name ++ codes "' already exists")
        else do handle ← make_table functions (length projects); push_project kind name handle)

  -- What `s_create_program` and `s_create_library` have in common.
  unfoldable pub create : Text → Kind → List (Text × Call) → Script W ℕ
  create what kind functions = do
    last ← in_machine (look lua.gettop)
    (if not (last == 1)
        then raise
            (codes "Wrong number of parameters to " ++ what ++ codes "(). Expected string (name)")
        else do
          string ← in_machine (look (lua.isstring (bottom 1)))
          (if not string then raise (codes "Expected string (name)") else do
            name ← in_machine (system (lua.tostring (bottom 1)))
            create_named kind functions name))

  unfoldable pub create_program : Script W ℕ
  create_program = create (codes "program") program program_functions

  unfoldable pub create_library : Script W ℕ
  create_library = create (codes "library") static_library library_functions

  unfoldable pub project_init : M W (Unit {0})
  project_init = do
    change (lua.pushcfunction s_create_program)
    change (lua.setglobal (codes "program"))
    change (lua.pushcfunction s_create_library)
    change (lua.setglobal (codes "library"))
