-- ===== src/Project/Kinds.antt =====
-- project.cpp: `is_header` and `is_cppfile`.
use cake.Prelude.{Bool, List, [], ◌∷◌}
use cake.Text.{Text, codes}
use cake.Utility.{endswith1of}

abbrev pub header_suffixes : List Text
header_suffixes = codes ".h" ∷ codes ".hpp" ∷ codes ".hxx" ∷ codes ".inc" ∷ []

abbrev pub cpp_suffixes : List Text
cpp_suffixes = codes "cpp" ∷ codes "cxx" ∷ codes "cc" ∷ codes "C" ∷ []

unfoldable pub is_header : Text → Bool
unfolding endswith1of
is_header fname = endswith1of fname header_suffixes

unfoldable pub is_cppfile : Text → Bool
unfolding endswith1of
is_cppfile fname = endswith1of fname cpp_suffixes
