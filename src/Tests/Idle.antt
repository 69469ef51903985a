-- ===== src/Tests/Idle.antt =====
-- A project that has nothing to be done.
use cake.Prelude.{
  ℕ, ◌≤◌, ◌≡◌, refl, sym, subst, inl, Bool, true, false, Option, none, some, [], ◌∷◌, arith,
  if◌then◌else◌,
}
use cake.Text.{Text, codes, str_eq, strchr, strrchr, tokens, strtok_from, has_byte, c_str}
use cake.Utility.{endswith1of}
use cake.System.{Os, Stat, Machine, done}
use cake.File.{read_file, read_open}
use cake.File.Path.{path_of, basename_at}
use cake.Project.{Project}
use cake.Project.Compile.{build_files, first_header}
use cake.Project.Compile.Objects.{objects}
use cake.Project.Compile.Rest.{IsCurrent, build_files-Idle}
use cake.Project.Kinds.{is_header}
use cake.Build.Names.{mkdepname, depname_of, objname_of, with_extension}
use cake.Build.Rebuild.Fresh.{IsUpToDate}
use cake.Build.Rest.{IsCalm, Current}
use cake.Build.Rest.Sites.{Idle}
use cake.Tests.World.{small, file_at, deps, site}
use cake.Tests.Runs.{library}

abbrev object_folder : Stat
object_folder = record { mtime = 1; is_directory = true }

-- The objects are younger than the sources and the makefile, and the library is younger than they.
abbrev settled_stat : Text → Option Stat
unfolding str_eq
settled_stat name =
    if str_eq name (codes "a.c")
    then some (file_at 5)
    else if str_eq name (codes "obj/a.o")
    then some (file_at 20)
    else if str_eq name (codes "obj/a.d")
    then some (file_at 20)
    else if str_eq name (codes "lib/libxd.a")
    then some (file_at 25)
    else if str_eq name (codes "obj/")
    then some object_folder
    else none

abbrev settled : Os ℕ
settled = record small { stat = λ name w. settled_stat name }

-- No process was started.
abbrev IsUnused : ℕ → Type 0
IsUnused w = w ≡ 0

file_le :
    (b : Bool) (t : Stat) (rest : Option Stat) (f : Stat)
    → t.mtime ≤ 25
    → (rest ≡ some f → f.mtime ≤ 25)
    → (if b then some t else rest) ≡ some f
    → f.mtime ≤ 25
file_le true t rest f h k e = let same : t ≡ f = cc in subst (λ o. o.mtime ≤ 25) same h
file_le false t rest f h k e = k e

settled_young : (name : Text) (f : Stat) → settled_stat name ≡ some f → f.mtime ≤ 25
unfolding settled_stat
settled_young name f e =
    file_le (str_eq name (codes "a.c")) (file_at 5) _ f (omega arith)
      (file_le (str_eq name (codes "obj/a.o")) (file_at 20) _ f (omega arith) (
        file_le (str_eq name (codes "obj/a.d")) (file_at 20) _ f (omega arith) (
          file_le (str_eq name (codes "lib/libxd.a")) (file_at 25) _ f (omega arith)
            (file_le (str_eq name (codes "obj/")) object_folder _ f (omega arith) (λ q. cc)))))
      e

settled-IsCalm : IsCalm settled IsUnused 25
settled-IsCalm = record {
  fopen = λ t w p. p;
  fread = λ h n w p. p;
  fclose = λ h w p. p;
  complain = λ t w p. p;
  none_younger = λ t f w p e. settled_young t f e;
}

a_now :
    (s : Machine ℕ)
    → s.world ≡ 0
    → IsUpToDate settled
        (record s { objdir = codes "obj/"; makefile_time = 10 })
        (codes "a.c")
        (codes "obj/a.o")
unfolding mkdepname depname_of with_extension endswith1of str_eq strrchr read_file read_open c_str
    strchr tokens strtok_from has_byte
a_now s unused = (
  codes "obj/a.d",
  file_at 20,
  deps,
  7,
  s.world,
  refl,
  refl,
  refl,
  refl,
  ((file_at 5, file_at 20, refl, refl, omega arith, omega arith), tt),
)

a-Current :
    Current settled IsUnused
      (codes "obj/")
      10
      25
      settled-IsCalm
      (codes "a.c")
      (objname_of (codes "obj/") (codes "a.c"))
unfolding objname_of with_extension strrchr settled_stat path_of basename_at
a-Current = (
  λ s p.
      subst
        (λ m. IsUpToDate settled (record s { makefile_time = m }) (codes "a.c") (codes "obj/a.o"))
        (sym p.makefile)
        (subst
          (λ o.
            IsUpToDate settled (record s { objdir = o; makefile_time = 10 }) (codes "a.c")
              (codes "obj/a.o"))
          (sym p.folder) (a_now s p.world)),
  λ w i. (object_folder, refl, refl),
)

abbrev one_file : Project
one_file = record library { files = codes "a.c" ∷ [] }

no_matches_here : (f : Text) (w : ℕ) → w ≡ 0 → settled.glob f w ≡ []
no_matches_here f w e = refl

one_file-IsCurrent :
    IsCurrent settled IsUnused
      (codes "obj/")
      10
      25
      settled-IsCalm
      (λ f. [])
      no_matches_here
      one_file
unfolding first_header is_header endswith1of str_eq
one_file-IsCurrent = record {
  files = ((λ e. ((inl (omega arith), tt), (a-Current, tt))), tt);
  header = λ h e. cc;
  target = (
    (λ e. cc),
    omega arith,
    record {
      stat = file_at 25;
      there = λ w p. refl;
      after_makefile = omega arith;
      youngest = omega arith;
    },
  );
}

site-Idle : Idle settled IsUnused (codes "obj/") 10 25 settled-IsCalm [] site
site-Idle = (
  record { folder = refl; free = refl; makefile = refl; noted = omega arith; world = refl },
  record { idle = refl; linked = refl; skipped = refl; none_failed = refl; none_compiled = refl },
)

build_files-Idle_example :
    ((build_files settled (one_file ∷ []) one_file [] false site).0 ≡ done true)
    × Idle settled IsUnused
        (codes "obj/")
        10
        25
        settled-IsCalm
        (objects (codes "obj/") (λ f. []) one_file.files)
        (build_files settled (one_file ∷ []) one_file [] false site).1
build_files-Idle_example =
    build_files-Idle settled IsUnused (codes "obj/") 10 25 settled-IsCalm (λ f. []) no_matches_here
      (one_file ∷ []) one_file [] false site one_file-IsCurrent site-Idle
