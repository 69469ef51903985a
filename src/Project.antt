-- ===== src/Project.antt =====
-- project.h and project.cpp: the record of a project.
pub mod Kinds
pub mod Packages
pub mod Compile
pub mod Scripts
pub mod Steps
use cake.Prelude.{ℕ, Option, List}
use cake.Text.{Text}

pub data Kind : Type 0 where
  program static_library shared_library : Kind

-- `m_L`, as the identity of the state, and `m_registrykey`, which are set together.
pub record Handle : Type 0 where
  pub state : ℕ
  pub key : ℕ

-- A `Project*` is the place in `g_projects`, or null. `registry` is `none` where `m_L` is null.
pub record Project : Type 0 where
  pub kind : Kind
  pub registry : Option Handle
  pub files : List Text
  pub libs : List Text
  pub flags : List Text
  pub pkgdepends : List Text
  pub depends : List (Option ℕ)
  pub name : Text
  pub output_suffix : Text
