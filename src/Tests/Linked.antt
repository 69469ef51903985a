-- ===== src/Tests/Linked.antt =====
-- What a build links, run on the small system.
use cake.Prelude.{ℕ, ◌≡◌, refl, Bool, true, false, some, List, [], ◌∷◌, ◌++◌, All, inl, arith}
use cake.Text.Tokens.{IsWord}
use cake.Text.{Text, codes, str_eq, tokens, strtok_from, has_byte, find, is_prefix}
use cake.ArgList.{blanks, contains, add_arg, add_args, line_buffer}
use cake.System.{Outcome, Machine, done}
use cake.Utility.Print.{verbed}
use cake.Command.{execute_grab}
use cake.Project.{Project, program}
use cake.Project.Packages.{ask_packages}
use cake.Project.Compile.{
  build_files, compile_project, compile_with, all_flags, any_cppfile, set_making_cpp, set_objdir,
  objdir_for, in_build,
}
use cake.Project.Kinds.{is_cppfile}
use cake.Project.Compile.Objects.{objects}
use cake.Project.Compile.Links.{bag, build_files-links, build_files-returns}
use cake.Project.Compile.Result.{compile_project-keeps}
use cake.File.{mkpath}
use cake.Build.Jobs.{add_compile_job}
use cake.Build.Compile.{debug_flag, is_debug, announce, compile_file}
use cake.Build.Compile.Arguments.{source_and_object, options_of, compile_file-command}
use cake.ArgList.Laws.{IsDistinct}
use cake.Build.Link.{do_link, run_tool, verbose_args}
use cake.Build.Link.Arguments.{link_command, link_start, do_link-command}
use cake.Build.{start, finish}
use cake.Build.Processors.{find_num_processors, max_one, count, count_from}
use cake.Build.Start.{IsNew}
use cake.Tests.World.{small, small_apart, machine, site}
use cake.Tests.Runs.{library, built_site, built_ok}

-- The small system's glob finds nothing, so that a pattern stands for itself.
abbrev no_matches : Text → List Text
no_matches f = []

site-IsNew : IsNew site.build
site-IsNew = record { slot = omega arith; idle = refl; unlinked = refl; no_header = refl }

build_files-links_example :
    bag (build_files small (library ∷ []) library (codes " -O2") false site).1.build.linklist
    ≡ bag (objects (codes "obj/") no_matches library.files)
build_files-links_example =
    build_files-links small small_apart no_matches (λ f w. refl) (library ∷ []) library
      (codes " -O2") false site site-IsNew built_ok

build_files-returns_example :
    (ok : Bool) × ((build_files small (library ∷ []) library (codes " -O2") false site).0 ≡ done ok)
build_files-returns_example =
    build_files-returns small small_apart no_matches (λ f w. refl) (library ∷ []) library
      (codes " -O2") false site site-IsNew
      (
        (inl (omega arith), (inl (omega arith), tt)),
        (
          (inl (omega arith), (inl (omega arith), tt)),
          ((inl (omega arith), (inl (omega arith), tt)), tt),
        ),
      )
      (inl (omega arith))

compiled_project : Outcome (Bool × Project) × Machine ℕ
unfolding built_site start find_num_processors execute_grab count count_from max_one compile_project
    compile_with all_flags any_cppfile is_cppfile set_making_cpp set_objdir objdir_for in_build
    ask_packages finish verbed
compiled_project = compile_project small (library ∷ []) library machine

compiled_ok : (compile_project small (library ∷ []) library machine).0 ≡ done (true, library)
unfolding compiled_project
compiled_ok = refl

compile_project-keeps_example :
    (words : List Text) × All (IsWord blanks) words
    × (library ≡ record library { libs = library.libs ++ words })
compile_project-keeps_example =
    compile_project-keeps small (library ∷ []) library machine true library compiled_ok

-- A program that depends on the library.
abbrev app : Project
app = record library { kind = program; name = codes "app"; depends = some 0 ∷ [] }

do_link-command_example :
    do_link small (library ∷ []) app (codes "app") (codes " -O2") (some []) (codes "bin/app") site
    ≡ run_tool small
        (codes "app")
        (add_args [] (
          link_command small
            (library ∷ [])
            app.depends
            (some [])
            []
            (codes " -O2")
            (codes "bin/app")
            []))
        (codes "/src")
        (record site {
          machine =
              (verbose_args small
                (add_args [] (link_start small [] (codes " -O2") (codes "bin/app") []))
                (mkpath small (codes "bin/app") machine).1).1;
        })
do_link-command_example =
    do_link-command small (library ∷ []) app (codes "app") (codes " -O2") (some [])
      (codes "bin/app") site (omega arith) (inl (omega arith), tt)

-- What the compiler is called with.
linked_command :
    add_args [] (
      link_command small
        (library ∷ [])
        app.depends
        (some [])
        []
        (codes " -O2")
        (codes "bin/app")
        (codes "obj/a.o" ∷ []))
    ≡ codes "gcc"
      ∷ codes "-O2"
      ∷ codes "-o"
      ∷ codes "bin/app"
      ∷ codes "obj/a.o"
      ∷ codes "-Llib/"
      ∷ codes "-lxd"
      ∷ []
unfolding add_args add_arg contains str_eq line_buffer tokens strtok_from has_byte
linked_command = refl

-- The file `b.c` and its object.
b-IsDistinct : IsDistinct (source_and_object (codes "b.c") (codes "obj/b.o"))
b-IsDistinct = (((λ e. cc), ((λ e. cc), tt)), (((λ e. cc), tt), (tt, tt)))

abbrev b_options : List Text
b_options = options_of small [] (codes " -O2") machine

b_new : All (λ t. contains b_options t ≡ false) (source_and_object (codes "b.c") (codes "obj/b.o"))
unfolding contains str_eq debug_flag is_debug find is_prefix line_buffer tokens strtok_from has_byte
b_new = (refl, (refl, (refl, tt)))

abbrev b_command : List Text
b_command = add_args [] b_options ++ source_and_object (codes "b.c") (codes "obj/b.o")

compile_file-command_example :
    compile_file small (codes "b.c") (codes " -O2") (codes "obj/b.o") site
    ≡ add_compile_job small
        (codes "obj/b.o")
        b_command
        (record site { machine = (announce small (codes "b.c") b_command machine).1 })
compile_file-command_example =
    compile_file-command small (codes "b.c") (codes " -O2") (codes "obj/b.o") site (omega arith)
      b-IsDistinct b_new

compiled_command :
    b_command
    ≡ codes "gcc"
      ∷ codes "-c"
      ∷ codes "-MMD"
      ∷ codes "-I."
      ∷ codes "-fpch-deps"
      ∷ codes "-D_DEBUG"
      ∷ codes "-O2"
      ∷ codes "b.c"
      ∷ codes "-o"
      ∷ codes "obj/b.o"
      ∷ []
unfolding add_args add_arg contains str_eq debug_flag is_debug find is_prefix line_buffer tokens
    strtok_from has_byte
compiled_command = refl
