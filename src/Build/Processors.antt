-- ===== src/Build/Processors.antt =====
-- build.cpp: `count` and `find_num_processors`.
pub mod Count
use cake.Prelude.{ℕ, zero, suc, ◌+◌, none, some, List, [], ◌∷◌, ltb, if◌then◌else◌, length, drop}
use cake.Text.{Text, codes, find}
use cake.ArgList.{add_args}
use cake.System.{Os, M, ◌>>=◌, pure, gets}
use cake.Command.{execute_grab}

-- The loop of `count`. Each round passes at least one byte if the needle is not empty, so the
-- length of the haystack and one are enough fuel.
unfoldable pub count_from : ℕ → Text → Text → ℕ
count_from zero haystack needle = 0
count_from (suc fuel) haystack needle = elim (find needle haystack) [
  | none ↦ 0
  | some pos1 ↦ suc (count_from fuel (drop (pos1 + length needle) haystack) needle)
]

unfoldable pub count : Text → Text → ℕ
count haystack [] = 0
count haystack (x ∷ xs) = count_from (suc (length haystack)) haystack (x ∷ xs)

abbrev pub cpuinfo : List Text
cpuinfo = codes "cat" ∷ codes "/proc/cpuinfo" ∷ []

unfoldable pub max_one : ℕ → ℕ
max_one n = if ltb n 1 then 1 else n

unfoldable pub find_num_processors : {W : Type 0} → Os W → M W ℕ
find_num_processors os = do
  home ← gets (λ s. s.home)
  r ← execute_grab os (add_args [] cpuinfo) home
  if r.0 then pure (max_one (count r.2 (codes "processor"))) else pure 1
