-- ===== src/File.antt =====
-- file.cpp: paths, time stamps, directories and whole files.
pub mod Path
pub mod Times
pub mod Read
pub mod Folders
pub mod Trim
pub mod Steady
use cake.Prelude.{
  ℕ, zero, suc, ◌+◌, Bool, true, false, Option, none, some, List, [], ◌∷◌, ◌++◌, ltb, if◌then◌else◌,
  length, take, drop,
}
use cake.Text.{Text, codes, strchr, c_str}
use cake.System.{Os, Stat, Machine, M, done, ◌>>=◌, ◌>>◌, pure, gets, look, system, change}
use cake.Utility.Print.{printerr}
use Path.{path_of}

unfoldable pub no_access : Text → Text
no_access filename = codes "ERROR: Unable to access " ++ filename ++ codes " for date comparison."

unfoldable pub in_the_way : Text → Text
in_the_way filename =
    codes "ERROR: trying to create dir '" ++ filename ++ codes "', but it's a file!"

module _ {W : Type 0} where
  unfoldable pub set_times : ℕ → M W (Unit {0})
  set_times t s = (done tt, record s { makefile_time = t })

  unfoldable pub note_time : ℕ → M W (Unit {0})
  note_time t s = (done tt, if ltb s.newest_time t then record s { newest_time = t } else s)

module _ {W : Type 0} (os : Os W) where
  unfoldable pub set_makefile_time : Text → M W (Unit {0})
  set_makefile_time filename = do
    fstat ← look (os.stat filename)
    elim fstat [ none ↦ printerr os (no_access filename) | some f ↦ set_times f.mtime ]

  unfoldable pub get_env : Text → M W (Option Text)
  get_env var = look (os.getenv var)

  unfoldable pub set_env : Text → Text → M W (Unit {0})
  set_env var val = change (os.setenv var val)

  unfoldable pub exists : Text → M W Bool
  exists filename = do
    s ← look (os.stat filename)
    elim s [ none ↦ pure false | some _ ↦ pure true ]

  unfoldable pub is_dir : Text → M W Bool
  is_dir fname = do
    s ← look (os.stat fname)
    elim s [ none ↦ pure false | some st ↦ pure st.is_directory ]

  -- Both files at hand: the makefile is compared first.
  unfoldable pub compare_times : Stat → Stat → M W Bool
  compare_times f c = do
    limit ← gets (λ s. s.makefile_time)
    if ltb c.mtime limit then pure true else (note_time f.mtime >> pure (ltb c.mtime f.mtime))

  unfoldable pub is_changed : Text → Text → M W Bool
  is_changed filename compared = do
    fstat ← look (os.stat filename)
    cstat ← look (os.stat compared)
    elim fstat [
      | none ↦ (printerr os (no_access filename) >> pure true)
      | some f ↦ elim cstat [
        | none ↦ (printerr os (no_access compared) >> pure true)
        | some c ↦ compare_times f c
      ]
    ]

  unfoldable pub is_older : Text → M W Bool
  is_older filename = do
    fstat ← look (os.stat filename)
    limit ← gets (λ s. s.makefile_time)
    newest ← gets (λ s. s.newest_time)
    elim fstat [
      | none ↦ (printerr os (no_access filename) >> pure true)
      | some f ↦ if ltb f.mtime limit then pure true else pure (ltb f.mtime newest)
    ]

  unfoldable pub path : Text → M W Text
  path full_path = do d ← is_dir full_path; if d then pure full_path else pure (path_of full_path)

  unfoldable pub makedir : Text → M W Bool
  makedir dir = system (os.mkdir dir)

  -- The loop of `mkpath`. The path is what stands before the pointer `at` and what it points to.
  -- Each round moves `at` forward, so the length of the path and one are enough fuel.
  unfoldable pub mkpath_loop : ℕ → Text → Text → M W (Unit {0})
  mkpath_loop zero before at = pure tt
  mkpath_loop (suc fuel) before [] = pure tt
  mkpath_loop (suc fuel) before (c ∷ cs) = elim (strchr b'/' (c ∷ cs)) [
    | none ↦ (makedir (c ∷ cs) >> pure tt)
    | some n ↦
        (makedir (before ++ take n (c ∷ cs))
          >> mkpath_loop fuel (before ++ take (suc n) (c ∷ cs)) (drop (suc n) (c ∷ cs)))
  ]

  unfoldable pub mkpath : Text → M W (Unit {0})
  mkpath filename = do
    xpath ← path filename
    there ← exists xpath
    folder ← is_dir xpath
    (if there
        then (if folder then pure tt else printerr os (in_the_way filename))
        else mkpath_loop (suc (length xpath)) [] xpath)

  unfoldable pub read_open : ℕ → M W (Option Text)
  read_open h = do
    size ← look (os.file_size h)
    (if ltb 0 size
        then (system (os.fread h size) >>= λ contents. pure (some (c_str contents)))
        else (change (os.fclose h) >> pure none))

  -- The C string that the buffer holds. The file stays open if it is not empty.
  unfoldable pub read_file : Text → M W (Option Text)
  read_file fname = do
    f ← system (os.fopen fname)
    elim f [ none ↦ pure none | some h ↦ read_open h ]
