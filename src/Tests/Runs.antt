-- ===== src/Tests/Runs.antt =====
-- Runs of a whole build.
use cake.Prelude.{length, ℕ, ◌≡◌, refl, Bool, true, false, some, [], ◌∷◌, arith, inl}
use cake.Text.{
  codes, has_byte, strchr, strrchr, c_str, strtok_from, tokens, is_prefix, find, str_eq,
}
use cake.System.{Outcome, done, each}
use cake.Utility.{endswith1of}
use cake.Utility.Print.{printerr, cprintf, decimal, line}
use cake.ArgList.{contains, add_arg, add_args, line_buffer, insert_spacedelim}
use cake.File.{
  exists, is_dir, is_changed, compare_times, note_time, is_older, path, makedir, mkpath_loop,
  mkpath, read_open, read_file,
}
use cake.File.Path.{basename_at, path_of}
use cake.Command.{begin, query_complete, wait, execute_command, fork_child, run_child, execute_grab}
use cake.Project.{Project, static_library}
use cake.Project.Kinds.{is_header}
use cake.Project.Compile.{
  first_header, compile_header, compile_rest, make_library, make_program, make_target, build_files,
}
use cake.Project.Compile.Whole.{build_files-IsWhole}
use cake.Build.{Site, start}
use cake.Build.Start.{IsBlank, start-IsBlank}
use cake.Build.Processors.{find_num_processors, max_one, count, count_from}
use cake.Build.Names.{with_extension, objname_of, depname_of, mkobjname, mkdepname, mkpchname}
use cake.Build.Rebuild.{file_is_newer, any_newer, check_deps, read_deps, needs_rebuild}
use cake.Build.Jobs.{
  settle, set_jobs, start_job, place, pass_by, try_slot, find_slot, frand, next_seed, steal_from,
  steal_slot, add_compile_job, wait_job, complete_job, complete_each, complete_jobs,
}
use cake.Build.Compile.{
  is_debug, debug_flag, add_pch, print_args, compile_args, announce, skip_file, compile_file,
  do_compile, compile_each, compile,
}
use cake.Build.Compile.Balance.{Balance, compile_accounts}
use cake.Build.Link.{
  up_to_date, verbose_args, fail, built, count_tool, run_tool, do_staticlib, staticlib,
}
use cake.Build.Link.Balance.{IsWhole}
use cake.Build.Pch.{make_pch, pch_is_current, pch_args, announce_pch, count_pch, build_pch}
use cake.Tests.World.{small, small_apart, machine, new_build, site}

abbrev pub library : Project
library = record {
  kind = static_library;
  registry = some (record { state = 0; key = 1 });
  files = codes "a.c" ∷ codes "b.c" ∷ codes "a.h" ∷ [];
  libs = [];
  flags = [];
  pkgdepends = [];
  depends = [];
  name = codes "x";
  output_suffix = codes "d";
}

unfoldable pub built_site : Outcome Bool × Site ℕ
unfolding has_byte strchr strrchr c_str strtok_from tokens is_prefix find str_eq each endswith1of
    printerr cprintf decimal line contains add_arg add_args line_buffer insert_spacedelim exists
    is_dir is_changed compare_times note_time is_older path makedir mkpath_loop mkpath read_open
    read_file basename_at path_of begin query_complete wait execute_command fork_child run_child
    is_header first_header compile_header compile_rest make_library make_program make_target
    build_files with_extension objname_of depname_of mkobjname mkdepname mkpchname file_is_newer
    any_newer check_deps read_deps needs_rebuild settle set_jobs start_job place pass_by try_slot
    find_slot frand next_seed steal_from steal_slot add_compile_job wait_job complete_job
    complete_each complete_jobs is_debug debug_flag add_pch print_args compile_args announce
    skip_file compile_file do_compile compile_each compile up_to_date verbose_args fail built
    count_tool run_tool do_staticlib staticlib make_pch pch_is_current pch_args announce_pch
    count_pch build_pch
built_site = build_files small (library ∷ []) library (codes " -O2") false site

site-Balance : Balance 0 0 0 site.build
site-Balance = record { some_slot = omega arith; counted = refl; linked = refl; header = inl refl }

-- The object that is up to date is linked too, and the header is not.
built_linklist : built_site.1.build.linklist ≡ codes "obj/a.o" ∷ codes "obj/b.o" ∷ []
unfolding built_site
built_linklist = refl

pub built_ok : (build_files small (library ∷ []) library (codes " -O2") false site).0 ≡ done true
unfolding built_site
built_ok = refl

build_files-IsWhole_example :
    IsWhole (build_files small (library ∷ []) library (codes " -O2") false site).1.build
build_files-IsWhole_example =
    build_files-IsWhole small small_apart (library ∷ []) library (codes " -O2") false site
      site-Balance built_ok

compiled : (compile small (codes "b.c") [] site).0 ≡ done tt
unfolding built_site
compiled = refl

compile_accounts_example : Balance 0 0 0 (compile small (codes "b.c") [] site).1.build
compile_accounts_example =
    compile_accounts small small_apart 0 0 (codes "b.c") [] site site-Balance compiled

started : (start small machine).0 ≡ done new_build
unfolding start find_num_processors execute_grab add_args add_arg contains str_eq c_str count
    count_from find is_prefix max_one
started = refl

start-IsBlank_example :
    ((find_num_processors small machine).0 ≡ done (length new_build.jobs)) × IsBlank new_build
start-IsBlank_example = start-IsBlank small machine new_build started
