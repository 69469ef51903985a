-- ===== src/Build/Names.antt =====
-- build.cpp: `mkobjname`, `mkdepname`, `mkpchname`. Each fills a buffer of 260 bytes.
pub mod Laws
use cake.Prelude.{
  ℕ, suc, ◌-◌, Bool, true, false, Option, none, some, List, [], ◌∷◌, ◌++◌, ltb, if◌then◌else◌,
  length, take,
}
use cake.Text.{Text, codes, strrchr}
use cake.Utility.{endswith1of}
use cake.System.{Machine, M, ◌>>=◌, ◌>>◌, pure, gets, fits}

-- `dot[1] = c; dot[2] = '\0'` at the last dot, unless nothing follows it.
unfoldable pub with_extension : ℕ → Text → Text
with_extension c tmp = elim (strrchr b'.' tmp) [
  | none ↦ tmp
  | some dot ↦ if ltb dot (length tmp - 1) then take (suc dot) tmp ++ c ∷ [] else tmp
]

abbrev pub header_endings : List Text
header_endings = codes "h" ∷ codes "hpp" ∷ codes "hh" ∷ codes "hxx" ∷ codes "inc" ∷ []

unfoldable pub objname_of : Text → Text → Text
objname_of objdir fname = with_extension b'o' (objdir ++ fname)

unfoldable pub depname_of : Text → Text → Text
depname_of objdir fname =
    if endswith1of (objdir ++ fname) header_endings
    then objdir ++ fname ++ codes ".d"
    else with_extension b'd' (objdir ++ fname)

module _ {W : Type 0} where
  unfoldable pub mkobjname : Text → M W Text
  mkobjname fname = do
    objdir ← gets (λ s. s.objdir)
    tmp ← fits 260 (objdir ++ fname)
    pure (objname_of objdir fname)

  unfoldable pub mkdepname : Text → M W Text
  mkdepname fname = do
    objdir ← gets (λ s. s.objdir)
    tmp ← fits 260 (objdir ++ fname)
    fits 260 (depname_of objdir fname)

  unfoldable pub mkpchname : Text → M W Text
  mkpchname fname = do objdir ← gets (λ s. s.objdir); fits 260 (objdir ++ fname ++ codes ".gch")
