-- ===== src/Tests/Files.antt =====
-- The theorems on files, names and dependencies, at inputs that meet their hypotheses.
use cake.Prelude.{
  ◌≡◌, refl, ◌↔◌, ◌≤◌, true, false, ◌||◌, List, [], ◌∷◌, arith, if◌then◌else◌, ltb, length, All,
}
use cake.Text.{Text, codes, has_byte, strchr, strrchr, c_str, strtok_from, tokens, str_eq}
use cake.Text.Tokens.{spaced}
use cake.System.{done, stopped, overrun, each, pure, ◌>>◌}
use cake.File.Folders.{mkpath_loop-folders}
use cake.Utility.{endswith1of}
use cake.Utility.Laws.{HasSuffix, endswith1of_iff}
use cake.ArgList.{contains, add_args, insert_spacedelim}
use cake.ArgList.Laws.{IsDistinct, add_args-IsDistinct, contains-add_args, insert_spacedelim-spaced}
use cake.File.{mkpath_loop, makedir, is_changed, is_older, read_file, read_open}
use cake.File.Path.{basename, path_of}
use cake.File.Path.Laws.{basename-splits}
use cake.File.Times.{IsFresh, is_changed_iff, is_older-is_changed}
use cake.Build.Names.{with_extension, objname_of, depname_of, mkobjname, mkdepname}
use cake.Build.Names.Laws.{
  objname_of-stem, objname_of-collides, objname_of_iff, depname_of-header, mkobjname_lem,
}
use cake.Build.Rebuild.{needs_rebuild}
use cake.Build.Rebuild.Fresh.{IsUpToDate, needs_rebuild_iff}
use cake.Tests.World.{small, machine, file_at, deps}

a-IsUpToDate : IsUpToDate small machine (codes "a.c") (codes "obj/a.o")
unfolding mkdepname depname_of with_extension endswith1of str_eq strrchr read_file read_open c_str
    strchr tokens strtok_from has_byte
a-IsUpToDate = (
  codes "obj/a.d",
  file_at 20,
  deps,
  7,
  0,
  refl,
  refl,
  refl,
  refl,
  ((file_at 5, file_at 20, refl, refl, omega arith, omega arith), tt),
)

needs_rebuild_iff_example :
    (needs_rebuild small (codes "a.c") (codes "obj/a.o") machine).0 ≡ done false
needs_rebuild_iff_example =
    (needs_rebuild_iff small (codes "a.c") (codes "obj/a.o") machine).1 (refl, a-IsUpToDate)

is_changed_iff_example :
    ((is_changed small (codes "b.c") (codes "obj/b.o") machine).0 ≡ done false)
    ↔ IsFresh small 0 10 (codes "b.c") (codes "obj/b.o")
is_changed_iff_example = is_changed_iff small (codes "b.c") (codes "obj/b.o") machine

is_older-is_changed_example :
    (is_older small (codes "bin/x") (is_changed small (codes "b.c") (codes "obj/b.o") machine).1).0
    ≡ done true
unfolding str_eq
is_older-is_changed_example =
    is_older-is_changed small (codes "bin/x") (codes "b.c") (codes "obj/b.o") machine (file_at 25)
      (file_at 30) (file_at 20) refl refl refl (omega arith)

basename-splits_example :
    ((basename (codes "src/a.c") ≡ codes "a.c") × (path_of (codes "src/a.c") ≡ codes "src/"))
    × ((basename (codes "a.c") ≡ codes "a.c") × (path_of (codes "a.c") ≡ codes "a.c"))
    × ((basename (codes "src/") ≡ codes "src/") × (path_of (codes "src/") ≡ codes "src/"))
unfolding has_byte
basename-splits_example = basename-splits (codes "src") (codes "a.c") (λ e. cc) refl

objname_of-stem_example : objname_of (codes "obj/") (codes "a.c") ≡ codes "obj/a.o"
unfolding has_byte
objname_of-stem_example = objname_of-stem (codes "obj/") (codes "a") (codes "c") (λ e. cc) refl

one_object : objname_of (codes "obj/") (codes "a.c") ≡ objname_of (codes "obj/") (codes "a.cpp")
unfolding has_byte
one_object =
    objname_of-collides (codes "obj/") (codes "a") (codes "c") (codes "cpp") (λ e. cc) (λ e. cc)
      refl refl

objname_of_iff_example :
    (objname_of (codes "obj/") (codes "a.c") ≡ objname_of (codes "obj/") (codes "b.cpp"))
    ↔ (codes "a" ≡ codes "b")
unfolding has_byte
objname_of_iff_example =
    objname_of_iff (codes "obj/") (codes "a") (codes "b") (codes "c") (codes "cpp") (λ e. cc)
      (λ e. cc) refl refl

header_depname : depname_of (codes "obj/") (codes "stdafx.h") ≡ codes "obj/stdafx.h.d"
header_depname = depname_of-header (codes "obj/") (codes "stdafx")

mkobjname_lem_example :
    (mkobjname (codes "a.c") machine ≡ (
      (if ltb 7 260 then done (objname_of (codes "obj/") (codes "a.c")) else stopped overrun),
      machine,
    ))
    × (length (objname_of (codes "obj/") (codes "a.c")) ≤ 7)
mkobjname_lem_example = mkobjname_lem (codes "a.c") machine

endswith1of_iff_example :
    (endswith1of (codes "a.hpp") (codes ".h" ∷ codes ".hpp" ∷ []) ≡ true)
    ↔ HasSuffix (codes "a.hpp") (codes ".h" ∷ codes ".hpp" ∷ [])
endswith1of_iff_example = endswith1of_iff (codes "a.hpp") (codes ".h" ∷ codes ".hpp" ∷ [])

abbrev flags : List Text
flags = codes "-g" ∷ codes "-O2" ∷ codes "-g" ∷ []

add_args-IsDistinct_example : IsDistinct (add_args (codes "gcc" ∷ []) flags)
add_args-IsDistinct_example = add_args-IsDistinct flags (codes "gcc" ∷ []) (tt, tt)

inserted_flag :
    contains (add_args (codes "gcc" ∷ []) flags) (codes "-O2")
    ≡ (contains (codes "gcc" ∷ []) (codes "-O2") || contains flags (codes "-O2"))
inserted_flag = contains-add_args flags (codes "gcc" ∷ []) (codes "-O2")

insert_spacedelim-spaced_example :
    insert_spacedelim [] (codes "gcc" ∷ []) (codes "-g -O2 -g ") ≡ add_args (codes "gcc" ∷ []) flags
unfolding spaced has_byte
insert_spacedelim-spaced_example =
    insert_spacedelim-spaced [] (codes "gcc" ∷ []) flags
      (
        ((λ e. cc), (refl, (refl, tt))),
        (((λ e. cc), (refl, (refl, (refl, tt)))), (((λ e. cc), (refl, (refl, tt))), tt)),
      )
      (omega arith)

plain_folders : All (λ d. has_byte b'/' d ≡ false) (codes "obj" ∷ codes "debug" ∷ [])
unfolding has_byte
plain_folders = (refl, (refl, tt))

mkpath_loop-folders_example :
    mkpath_loop small 11 [] (codes "obj/debug/") machine
    ≡ each (λ d. makedir small d >> pure tt) (codes "obj" ∷ codes "obj/debug" ∷ []) machine
mkpath_loop-folders_example =
    mkpath_loop-folders small 11 [] (codes "obj" ∷ codes "debug" ∷ []) machine plain_folders
      (omega arith)
