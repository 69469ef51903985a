-- ===== src/File/Path.antt =====
-- file.cpp: the parts of a path.
pub mod Laws
use cake.Prelude.{
  ℕ, zero, suc, Bool, true, false, Option, none, some, ltb, if◌then◌else◌, length, take, drop, ◌==◌,
}
use cake.Text.{Text, strrchr}

-- `basename` returns a pointer into its argument: this is its offset.
unfoldable pub basename_at : Text → ℕ
basename_at full_path = elim (strrchr b'/' full_path) [
  | none ↦ 0
  | some slash ↦ if ltb (suc slash) (length full_path) then suc slash else 0
]

unfoldable pub basename : Text → Text
basename full_path = drop (basename_at full_path) full_path

unfoldable pub extension : Text → Option Text
extension full_path = elim (strrchr b'.' full_path) [
  | none ↦ none
  | some dot ↦ if ltb (suc dot) (length full_path) then some (drop (suc dot) full_path) else none
]

-- The part of `path` below the test for a directory.
unfoldable pub path_of : Text → Text
path_of full_path =
    let base = basename_at full_path in if base == 0 then full_path else take base full_path
