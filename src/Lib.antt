-- ===== src/Lib.antt =====
-- cake, a build tool that compiles and links C and C++ projects which a Lua script describes
-- (cake/). Lua itself (cake/lua/) is a library of another project and is not modelled.
--
-- `Project::compile` makes a `build`, asks pkg-config for flags, and hands the source files to the
-- build: `make_pch`, `compile` and `link` or `staticlib`. The build decides by time stamps what is
-- out of date, runs the compiler in a fixed number of child processes, and counts what became of
-- each file.
--
-- System: the operating system as an interface (a world and the calls on it), the globals of
--   cake/cake.cpp and cake/file.cpp as the record Machine, and actions `Act S A`: a state in, a
--   result or the end of the process and a state out. An overrun of a buffer, a division by zero
--   and exit() end the process; a Lua error ends the function.
-- Text: C strings as lists of bytes; strchr, strrchr, strtok, strstr. A pointer is an offset.
-- Config: the constants of cake/cake.cpp.
-- Utility, Utility/Print: cake/utility.h (endswith1of, strfmt, printerr, cprintf, verbed).
-- ArgList: cake/arglist.h (struct arglist).
-- File, File/Path, File/Trim: cake/file.cpp. The theorems on time stamps are in File/Times.
-- Globber: cake/globber.h. Build/Compile/Loop has the loop over it.
-- Command: cake/command.cpp. A child is an action which the interface's `fork` is given. The loop of
--   ExecuteCommand over the child's output is followed for `rounds` rounds, a parameter; with more
--   rounds than chunks it ends (Command/Output).
-- Build: struct build of cake/build.h. Build/Names, Processors, Rebuild, Jobs, Compile, Pch and Link
--   are the parts of cake/build.cpp. A method is an action on a Site, the machine and the build
--   together. Loops over the vector of jobs give back the list of jobs.
-- Build/Compile/Arguments, Build/Link/Arguments: the command lines of the tools.
-- Build/Keeps: rules for what holds of a build when a method comes back.
-- System/Ends: rules for what holds at the end of an action, and by which stops it may end.
-- Build/Objects: how often a name is linked or being compiled, through each method of the build;
--   Project/Compile/Objects and Links put them together for the files of a project, and
--   Project/Compile/Success for `Project::compile`. The order of the link list, which is that in
--   which the jobs ended, is forgotten by a quotient.
-- File/Steady, Build/Rebuild/Steady: what the functions that look at files leave, whatever it is that
--   the calls they make leave. Build/Rest and Project/Compile/Rest use them for a project that has
--   nothing to be done.
-- Project: cake/project.h and Project::compile of cake/project.cpp. A Project* is an index.
-- Lua: the calls of the interpreter's stack, as an interface.
-- Project/Scripts: the functions of cake/project.cpp that a makefile calls. Shop is the machine and
--   g_projects. Project/Scripts/Kept, Main/Calls and Main/Kept carry any property of the projects that stays under
--   writes and additions through a script and through main. Project/Steps: do_build_step. The calls that run a script, lua_pcall and
--   luaL_dofile, are given the functions that the script may call (Interpreter).
-- Main, Main/Options: cake/cake.cpp. The loop over the projects is followed for `rounds` rounds,
--   since a step of a project may create more of them.
-- Tests: a small system, runs of a build on it, and the theorems at concrete inputs.
--
-- Bounds and fuel: counters are natural numbers and taken not to reach 2 ^ 31; the seed of frand
-- wraps at 2 ^ 32 as in the source; times are seconds from the epoch on; the loop of mkpath has the
-- length of its path and one as fuel and moves on by one byte at least in each round, and so does
-- the loop of count.
--
-- Not modelled: argp and the help texts, build::start_build and build::start_jobs, which
-- do nothing, and memory management.
pub mod Prelude
pub mod Text
pub mod Utility
pub mod ArgList
pub mod System
pub mod Command
pub mod Config
pub mod Lua
pub mod Main
pub mod File
pub mod Globber
pub mod Project
pub mod Build
pub mod Tests
