-- ===== src/Build.antt =====
-- build.h and build.cpp: one build of a project. Its methods change the `build` object and the
-- machine. The counters are `int`s that go up by one; they are taken not to reach 2 ^ 31.
pub mod Names
pub mod Processors
pub mod Start
pub mod Keeps
pub mod Rebuild
pub mod Jobs
pub mod Compile
pub mod Link
pub mod Pch
pub mod Objects
pub mod Rest
use cake.Prelude.{ℕ, suc, ◌+◌, Bool, true, false, List, [], ◌∷◌, ◌++◌, if◌then◌else◌, replicate}
use cake.Text.{Text, codes}
use cake.System.{Os, Machine, M, Act, Outcome, ◌>>=◌, ◌>>◌, pure, gets, modify, skip, change}
use cake.Utility.Print.{verbed, decimal, yellow, white, green, red}
use cake.Command.{Command}
use cake.Command
use Processors.{find_num_processors}

pub record Job : Type 0 where
  pub cmd : Command
  pub objname : Text

pub record Build : Type 0 where
  pub jobs : List Job
  pub nprocessed : ℕ
  pub nskipped : ℕ
  pub ncompiled : ℕ
  pub nfailed : ℕ
  pub nlinked : ℕ
  pub linklist : List Text
  pub pchname : Text

pub record Site (W : Type 0) : Type 0 where
  pub machine : Machine W
  pub build : Build

abbrev pub B : Type 0 → Type 0 → Type 0
B W A = Act (Site W) A

module _ {W : Type 0} where
  abbrev pub on_machine : {A : Type 0} → M W A → B W A
  on_machine m s = ((m s.machine).0, record s { machine = (m s.machine).1 })

  abbrev pub of_build : {A : Type 0} → (Build → A) → B W A
  of_build f = gets (λ s. f s.build)

  abbrev pub on_build : (Build → Build) → B W (Unit {0})
  on_build f = modify (λ s. record s { build = f s.build })

abbrev pub idle_job : Job
idle_job = record { cmd = Command.new; objname = [] }

module _ {W : Type 0} (os : Os W) where
  -- `build()`
  unfoldable pub start : M W Build
  start = do
    nprocessors ← find_num_processors os
    verbose ← gets (λ s. s.verbose_flag)
    (if verbose
        then change (os.print_out (codes "processors: " ++ decimal nprocessors ++ 10 ∷ []))
        else skip)
    pure (record {
      jobs = replicate nprocessors idle_job;
      nprocessed = 0;
      nskipped = 0;
      ncompiled = 0;
      nfailed = 0;
      nlinked = 0;
      linklist = [];
      pchname = [];
    })

  -- `~build()`
  unfoldable pub finish : Build → M W (Unit {0})
  finish b = do
    verbose ← gets (λ s. s.verbose_flag)
    (if verbose
        then (verbed os b.nskipped (codes "skipped") yellow
            >> verbed os b.ncompiled (codes "compiled") white
            >> verbed os b.nlinked (codes "built") green)
        else skip)
    verbed os b.nfailed (codes "failed") red
