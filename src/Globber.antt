-- ===== src/Globber.antt =====
-- globber.h: struct globber, the paths that patterns match.
use cake.Prelude.{ℕ, none, some, List, [], ◌++◌, length, get_elem?}
use cake.Text.{Text}
use cake.System.{Os, M, ◌>>=◌, pure, look}

-- `m_glob`: its `gl_pathv`, of the length `gl_pathc`.
pub record Globber : Type 0 where
  pub paths : List Text

-- `globber()` and `clear()`. A second `clear()` does nothing.
unfoldable pub empty : Globber
empty = record { paths = [] }

unfoldable pub size : Globber → ℕ
size g = length g.paths

-- `operator[]`: out of range, it is the empty string.
unfoldable pub at : Globber → ℕ → Text
at g index = elim (get_elem? g.paths index) [ none ↦ [] | some p ↦ p ]

module _ {W : Type 0} (os : Os W) where
  -- `start`, and the constructor with a pattern. What was there is not freed.
  unfoldable pub start : Text → M W Globber
  start pattern = do found ← look (os.glob pattern); pure (record { paths = found })

  -- `append`: GLOB_APPEND adds to what is there.
  unfoldable pub append : Globber → Text → M W Globber
  append g pattern = do found ← look (os.glob pattern); pure (record { paths = g.paths ++ found })
