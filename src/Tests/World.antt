-- ===== src/Tests/World.antt =====
-- A system whose world is the number of processes that were started. Every command ends well, and
-- the file system does not change: `a.c` is older than its object `obj/a.o`, whose dependencies
-- are in `obj/a.d`, and `b.c` is newer than `obj/b.o`.
use cake.Prelude.{
  ℕ, suc, true, false, Option, none, some, [], ◌∷◌, arith, if◌then◌else◌, pos, negsuc, ◌==◌,
}
use cake.Text.{Text, codes, str_eq}
use cake.System.{Os, Stat, Machine}
use cake.Build.{Build, Site, idle_job}
use cake.Build.Jobs.Slots.{ForksApart}

abbrev pub file_at : ℕ → Stat
file_at t = record { mtime = t; is_directory = false }

abbrev pub stat_of : Text → Option Stat
unfolding str_eq
stat_of name =
    if str_eq name (codes "a.c")
    then some (file_at 5)
    else if str_eq name (codes "b.c")
    then some (file_at 30)
    else if str_eq name (codes "obj/a.o")
    then some (file_at 20)
    else if str_eq name (codes "obj/b.o")
    then some (file_at 20)
    else if str_eq name (codes "obj/a.d")
    then some (file_at 20)
    else if str_eq name (codes "bin/x")
    then some (file_at 25)
    else if str_eq name (codes "obj/")
    then some (record { mtime = 1; is_directory = true })
    else none

abbrev pub deps : Text
deps = codes "obj/a.o: a.c"

-- The pipe has the ends 3 and 4, and gives one chunk in world 1.
abbrev pub small : Os ℕ
small = record {
  stat = λ name w. stat_of name;
  mkdir = λ name w. (true, w);
  fopen = λ name w. (some 7, w);
  file_size = λ h w. 12;
  fread = λ h n w. (deps, w);
  fclose = λ h w. w;
  getenv = λ name w. none;
  setenv = λ name value w. w;
  getcwd = λ w. codes "/src";
  chdir = λ name w. (true, w);
  glob = λ pattern w. [];
  fork = λ child w. (pos (suc w), suc w);
  execvp = λ argv w. (true, w);
  waitpid = λ pid nohang w. ((pid, 0), w);
  pipe = λ w. (some (pos 3, pos 4), w);
  read = λ fd n w. if w == 1 then (some (codes "processor"), 2) else (none, w);
  close = λ fd w. w;
  dup = λ fd w. w;
  print_out = λ t w. w;
  print_err = λ t w. w;
  beyond = [];
  rounds = 9;
}

pub small_apart : ForksApart small
small_apart child w e = ground arith

-- A system on which `fork` fails, and `waitpid` with it.
abbrev pub full : Os ℕ
full = record small {
  fork = λ child w. (negsuc 0, w);
  waitpid = λ pid nohang w. ((negsuc 0, 0), w);
}

-- A system on which every child is killed by signal 11.
abbrev pub deadly : Os ℕ
deadly = record small { waitpid = λ pid nohang w. ((pid, 11), w) }

abbrev pub machine : Machine ℕ
machine = record {
  world = 0;
  makefile_time = 10;
  newest_time = 0;
  seed = 1;
  objdir = codes "obj/";
  makefile = codes "cake.lua";
  verbose_flag = false;
  silent_flag = false;
  rebuild_flag = false;
  making_cpp = false;
  print_colors = true;
  target = some (codes "debug");
  home = none;
}

abbrev pub new_build : Build
new_build = record {
  jobs = idle_job ∷ [];
  nprocessed = 0;
  nskipped = 0;
  ncompiled = 0;
  nfailed = 0;
  nlinked = 0;
  linklist = [];
  pchname = [];
}

abbrev pub site : Site ℕ
site = record { machine = machine; build = new_build }
