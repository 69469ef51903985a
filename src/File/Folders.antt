-- ===== src/File/Folders.antt =====
-- The folders that `mkpath` makes.
use cake.Prelude.{
  ℕ, zero, suc, ◌<◌, ◌≡◌, refl, ap, ◌∙◌, false, List, [], ◌∷◌, ◌++◌, arith, All, length,
  length-append, take, drop, take-length-append, append-nil,
}
use cake.Text.{Text, has_byte, strchr}
use cake.Text.Search.{strchr_first}
use cake.System.{Os, Machine, ◌>>◌, pure, each}
use cake.File.{makedir, mkpath_loop}

-- The path of nested folders, each name followed by a slash.
abbrev pub nested : List Text → Text
nested [] = []
nested (d ∷ ds) = d ++ b'/' ∷ nested ds

-- The path of each of the folders, below `before`.
abbrev pub folders : Text → List Text → List Text
folders before [] = []
folders before (d ∷ ds) = (before ++ d) ∷ folders (before ++ (d ++ b'/' ∷ [])) ds

take-past : (d rest : Text) → take (suc (length d)) (d ++ b'/' ∷ rest) ≡ d ++ b'/' ∷ []
take-past [] rest = refl
take-past (x ∷ d) rest = ap (◌∷◌ x) (take-past d rest)

drop-past : (d rest : Text) → drop (suc (length d)) (d ++ b'/' ∷ rest) ≡ rest
drop-past [] rest = refl
drop-past (x ∷ d) rest = drop-past d rest

module _ {W : Type 0} (os : Os W) where
  mkpath_loop-next :
      (fuel : ℕ) (before d rest : Text)
      → has_byte b'/' d ≡ false
      → mkpath_loop os (suc fuel) before (d ++ b'/' ∷ rest)
        ≡ (makedir os (before ++ d) >> mkpath_loop os fuel (before ++ (d ++ b'/' ∷ [])) rest)
  unfolding mkpath_loop strchr
  mkpath_loop-next fuel before [] rest plain = rw (append-nil before) refl
  mkpath_loop-next fuel before (c ∷ cs) rest plain =
      rw
        (
          mkpath_loop,
          strchr_first b'/' (c ∷ cs) rest plain,
          take-length-append cs (b'/' ∷ rest),
          take-past cs rest,
          drop-past cs rest,
        )
        refl

  -- With more fuel than the path has bytes, as `mkpath` gives, the loop over a path of nested folders
  -- makes each of them in order, from the outermost on, and comes back, whether they can be made or
  -- not.
  pub mkpath_loop-folders :
      (fuel : ℕ) (before : Text) (ds : List Text) (s : Machine W)
      → All (λ d. has_byte b'/' d ≡ false) ds
      → length (nested ds) < fuel
      → mkpath_loop os fuel before (nested ds) s
        ≡ each (λ d. makedir os d >> pure tt) (folders before ds) s
  unfolding each mkpath_loop makedir
  mkpath_loop-folders zero before ds s plain h = absurd (omega arith)
  mkpath_loop-folders (suc fuel) before [] s plain h = refl
  mkpath_loop-folders (suc fuel) before (d ∷ ds) s plain h =
      ap (λ m. m s) (mkpath_loop-next fuel before d (nested ds) plain.0)
      ∙ mkpath_loop-folders fuel (before ++ (d ++ b'/' ∷ [])) ds (makedir os (before ++ d) s).1
          plain.1 (omega (arith, length-append d (b'/' ∷ nested ds), h))
