-- ===== src/Build/Objects.antt =====
-- Which objects a build links: the vocabulary.
pub mod Machine
pub mod Files
pub mod Steps
pub mod Sites
pub mod Jobs
pub mod Add
pub mod Complete
pub mod Compile
pub mod Pch
pub mod Arguments
pub mod Link
use cake.Prelude.{
  ℕ, suc, ◌+◌, ◌<◌, ◌≡◌, ◌⊎◌, true, false, not, ◌&&◌, List, [], ◌∷◌, ◌++◌, if◌then◌else◌, arith,
  length,
}
use cake.Text.{Text, str_eq}
use cake.System.{Stop, overrun}
use cake.Command.{is_active}
use cake.Build.{Job, Site}

-- 1 if the name is `x`.
abbrev pub one : Text → Text → ℕ
one x y = if str_eq y x then 1 else 0

-- How often a name is in a list.
abbrev pub occurrences : Text → List Text → ℕ
occurrences x [] = 0
occurrences x (y ∷ ys) = one x y + occurrences x ys

pub occurrences-append :
    (x : Text) (ys zs : List Text) → occurrences x (ys ++ zs) ≡ occurrences x ys + occurrences x zs
occurrences-append x [] zs = omega arith
occurrences-append x (y ∷ ys) zs = omega (arith, occurrences-append x ys zs)

-- How many jobs for the object `x` run.
abbrev pub running : Text → List Job → ℕ
running x [] = 0
running x (j ∷ js) = (if is_active j.cmd then one x j.objname else 0) + running x js

-- The object folder is `d`, there is a slot, the name of the precompiled header leaves room in a
-- buffer, and unless something failed, the links to `x` and the `n` jobs for it make up `o`.
pub record Objects {W : Type 0} (E : Stop → Type 0) (d x : Text) (n o : ℕ) (s : Site W)
    : Type 0 where
  pub folder : s.machine.objdir ≡ d
  pub slot : 0 < length s.build.jobs
  pub room : (2 + length s.build.pchname < 260) ⊎ E overrun
  pub links : s.build.nfailed ≡ 0 → occurrences x s.build.linklist + n ≡ o
