-- ===== src/Config.antt =====
-- The constants among the globals of cake.cpp.
use cake.Prelude.{List, [], ◌∷◌}
use cake.Text.{Text, codes}

abbrev pub compiler : Text
compiler = codes "gcc"

abbrev pub pch_options : List Text
pch_options = codes "-MMD" ∷ codes "-I." ∷ codes "-fpch-deps" ∷ []

abbrev pub compile_options : List Text
compile_options = codes "-c" ∷ codes "-MMD" ∷ codes "-I." ∷ codes "-fpch-deps" ∷ []

abbrev pub link_options : List Text
link_options = []

abbrev pub baseobjdir : Text
baseobjdir = codes "obj/"

abbrev pub bindir : Text
bindir = codes "bin/"

abbrev pub libdir : Text
libdir = codes "lib/"
