-- ===== src/Tests/Scripts.antt =====
-- A makefile on a small interpreter, and the search for it.
use cake.Prelude.{
  ℕ, ◌≡◌, refl, ◌++◌, All, take, List, get_elem?, arith, Bool, true, false, none, some, [], ◌∷◌,
  pos, if◌then◌else◌,
}
use cake.Text.{Text, codes, str_eq, has_byte}
use cake.System.{Os, Machine, done, stopped, raised, each}
use cake.Project.{Project, Handle, program}
use cake.Project.Scripts.{
  Shop, has_name, new_project, push_project, raise, register, make_table, create_named, create,
  create_program, getproject, add_files,
}
use cake.Project.Scripts.Strings.{at, Reads, over, next, add_files-appends}
use cake.Project.Scripts.Names.{HasDistinctNames}
use cake.Project.Steps.{Interpreter}
use cake.Lua.{Lua, bottom, s_create_program, s_add_files}
use cake.Main.{parent_of, main, build_from, find_makefile}
use cake.Main.Names.{main-HasDistinctNames}
use cake.Main.Places.{build_from-IsGrown}
use cake.Project.Scripts.Grown.{IsGrown}
use cake.Main.Search.{
  parent_of-slash, find_makefile-nearest, is_some, first_with, folder, folders, IsName,
}
use cake.Tests.World.{small, machine, file_at}

-- An interpreter that always has the text `app` on its stack.
abbrev pub tiny : Lua ℕ
tiny = record {
  main_state = 0;
  running = λ w. 0;
  openlibs = λ w. w;
  lua_close = λ w. w;
  gettop = λ w. 1;
  pop = λ n w. w;
  swap = λ w. w;
  isstring = λ i w. true;
  isboolean = λ i w. false;
  istable = λ i w. true;
  toboolean = λ i w. false;
  tostring = λ i w. (some (codes "app"), w);
  touserdata = λ i w. none;
  pushnil = λ w. w;
  pushstring = λ t w. w;
  pushcfunction = λ c w. w;
  pushlightuserdata = λ k w. w;
  pushvalue = λ i w. w;
  newtable = λ w. w;
  gettable = λ i w. (true, w);
  settable = λ i w. w;
  setglobal = λ t w. w;
  rawgeti = λ k w. w;
  next = λ t w. (some false, w);
  ref = λ w. (7, w);
  unref = λ k w. w;
  error = λ t w. w;
  show_pointer = λ k. codes "0x1";
}

abbrev pub first_table : Handle
first_table = record { state = 0; key = 7 }

-- Each script makes the program `app`.
abbrev maker : Interpreter ℕ
maker = record {
  pcall = λ calls s. (done true, s);
  dofile = λ calls name s. (done true, (calls s_create_program s).1);
}

abbrev pub shop : Shop ℕ
shop = record { machine = machine; projects = [] }

-- The program is made once, and the second attempt raises an error.
created_once :
    (create_program tiny shop).1.projects ≡ new_project program (codes "app") first_table ∷ []
unfolding create_program create create_named has_name make_table register push_project each
created_once = refl

raised_then : (create_program tiny (create_program tiny shop).1).0 ≡ stopped raised
unfolding create_program create create_named has_name make_table register push_project raise str_eq
    each new_project
raised_then = refl

main-HasDistinctNames_example : HasDistinctNames (main small tiny maker [] (λ w. w) shop).1.projects
main-HasDistinctNames_example =
    main-HasDistinctNames small tiny maker (λ name P keeps s p. keeps s_create_program s p)
      (λ P keeps s p. p) [] (λ w. w) shop refl

-- A system whose world is the working directory; `/home/joe/src` has the makefile.
abbrev has_makefile : Text → Bool
unfolding str_eq
has_makefile folder = str_eq folder (codes "/home/joe/src")

abbrev walker : Os Text
walker = record {
  stat = λ name w. if has_makefile w then some (file_at 5) else none;
  mkdir = λ name w. (true, w);
  fopen = λ name w. (none, w);
  file_size = λ h w. 0;
  fread = λ h n w. ([], w);
  fclose = λ h w. w;
  getenv = λ name w. none;
  setenv = λ name value w. w;
  getcwd = λ w. w;
  chdir = λ name w. (true, name);
  glob = λ pattern w. [];
  fork = λ child w. (pos 1, w);
  execvp = λ argv w. (true, w);
  waitpid = λ pid nohang w. ((pid, 0), w);
  pipe = λ w. (none, w);
  read = λ fd n w. (none, w);
  close = λ fd w. w;
  dup = λ fd w. w;
  print_out = λ t w. w;
  print_err = λ t w. w;
  beyond = [];
  rounds = 9;
}

abbrev deep : Machine Text
deep = record {
  world = codes "/home/joe/src/lib/core";
  makefile_time = 0;
  newest_time = 0;
  seed = 1;
  objdir = codes "obj/";
  makefile = codes "cake.lua";
  verbose_flag = false;
  silent_flag = false;
  rebuild_flag = false;
  making_cpp = false;
  print_colors = true;
  target = none;
  home = none;
}

walker_found : (b : Bool) → is_some (if b then some (file_at 5) else none) ≡ b
walker_found true = refl
walker_found false = refl

-- The names of `/home/joe/src/lib` from the innermost on.
abbrev outer_names : List Text
outer_names = codes "lib" ∷ codes "src" ∷ codes "joe" ∷ codes "home" ∷ []

deep_names : All IsName (codes "core" ∷ outer_names)
unfolding has_byte
deep_names = (
  ((λ e. cc), refl),
  (((λ e. cc), refl), (((λ e. cc), refl), (((λ e. cc), refl), (((λ e. cc), refl), tt)))),
)

find_makefile-nearest_example :
    ((find_makefile walker deep).0 ≡ done tt)
    × ((find_makefile walker deep).1.world
        ≡ first_with has_makefile
            (take 9 (folders (codes "core" ∷ outer_names)))
            (folder (codes "core" ∷ outer_names)))
find_makefile-nearest_example =
    find_makefile-nearest walker (codes "cake.lua") has_makefile
      (λ w. walker_found (has_makefile w)) (codes "core") outer_names deep deep_names refl
      ((λ w. refl), ((λ w. refl), ((λ w. refl), ((λ w. refl), tt)))) refl

nearest_there :
    first_with has_makefile (take 9 (folders (codes "core" ∷ outer_names))) deep.world
    ≡ codes "/home/joe/src"
unfolding has_makefile
nearest_there = refl

joe_plain : has_byte b'/' (codes "joe") ≡ false
unfolding has_byte
joe_plain = refl

parent_of-slash_example :
    parent_of (codes "/home/joe")
    ≡ (if has_byte b'/' (codes "/home") then some (codes "/home") else none)
parent_of-slash_example = parent_of-slash (codes "/home") (codes "joe") (λ e. cc) joe_plain

-- An interpreter with three values on its stack: the table of project 0, and twice `a.c`.
abbrev giver : Lua ℕ
giver = record tiny {
  gettop = λ w. 3;
  touserdata = λ i w. some 0;
  tostring = λ i w. (some (codes "a.c"), w);
}

abbrev app : Project
unfolding new_project
app = new_project program (codes "app") first_table

app_table :
    getproject giver (bottom 1) (at machine 0 (app ∷ [])) ≡ (done (some 0), at machine 0 (app ∷ []))
unfolding getproject
app_table = refl

two_files : Reads giver 3 2 (codes "a.c" ∷ codes "a.c" ∷ []) 0 0
two_files = next refl (omega arith) refl (next refl (omega arith) refl (over refl))

add_files-appends_example : add_files giver (at machine 0 (app ∷ [])) ≡ (
  done 0,
  at machine 0 (record app { files = app.files ++ codes "a.c" ∷ codes "a.c" ∷ [] } ∷ []),
)
add_files-appends_example =
    add_files-appends giver machine 0 3 (codes "a.c" ∷ codes "a.c" ∷ []) 0 0 0 app (app ∷ [])
      app_table two_files refl

-- Each step adds files to the project.
abbrev adder : Interpreter ℕ
adder = record maker { pcall = λ calls s. (done true, (calls s_add_files s).1) }

build_from-IsGrown_example :
    (q : Project) × (get_elem?
        (build_from small giver adder 3 0 (at machine 0 (app ∷ []))).1.projects
        0
      ≡ some q)
    × IsGrown app q
build_from-IsGrown_example =
    build_from-IsGrown small giver adder (λ name P keeps s p. keeps s_create_program s p)
      (λ P keeps s p. keeps s_add_files s p) 3 0 (at machine 0 (app ∷ [])) 0 app refl
