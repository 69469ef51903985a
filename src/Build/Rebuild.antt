-- ===== src/Build/Rebuild.antt =====
-- build.cpp: `file_is_newer` and `needs_rebuild`.
pub mod Fresh
pub mod Steady
use cake.Prelude.{
  suc, Bool, true, false, not, Option, none, some, List, [], ◌∷◌, if◌then◌else◌, drop,
}
use cake.Text.{Text, strchr, tokens}
use cake.System.{Os, M, ◌>>=◌, pure, gets}
use cake.File.{exists, is_changed, read_file}
use cake.Build.Names.{mkdepname}

-- " \\\n\r\t"
abbrev pub dep_blanks : Text
dep_blanks = b' ' ∷ 92 ∷ 10 ∷ 13 ∷ 9 ∷ []

module _ {W : Type 0} (os : Os W) where
  unfoldable pub file_is_newer : Text → Text → M W Bool
  file_is_newer fname compared_to = do
    there ← exists os compared_to
    if there then is_changed os fname compared_to else pure true

  -- The `while (token)` loop.
  unfoldable pub any_newer : List Text → Text → M W Bool
  any_newer [] objname = pure false
  any_newer (token ∷ rest) objname = do
    newer ← file_is_newer token objname
    if newer then pure true else any_newer rest objname

  -- What is done with the contents of the dependency file.
  unfoldable pub check_deps : Text → Text → M W Bool
  check_deps contents objname = elim (strchr b':' contents) [
    | none ↦ pure true
    | some colon ↦ any_newer (tokens dep_blanks (drop (suc colon) contents)) objname
  ]

  -- What is done with the dependency file.
  unfoldable pub read_deps : Text → Text → M W Bool
  read_deps dep objname = do
    there ← exists os dep
    if not there then pure true else do
      contents ← read_file os dep
      elim contents [ none ↦ pure true | some text ↦ check_deps text objname ]

  unfoldable pub needs_rebuild : Text → Text → M W Bool
  needs_rebuild fname objname = do
    rebuild ← gets (λ s. s.rebuild_flag)
    (if rebuild then pure true else (mkdepname fname >>= λ dep. read_deps dep objname))
