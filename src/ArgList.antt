-- ===== src/ArgList.antt =====
-- arglist.h: the arguments of a command.
pub mod Laws
use cake.Prelude.{
  ℕ, Bool, true, false, ◌||◌, List, [], ◌∷◌, ◌++◌, foldl, ltb, if◌then◌else◌, length, take,
}
use cake.Text.{Text, codes, str_eq, tokens}

-- The vector `args`.
abbrev pub ArgList : Type 0
ArgList = List Text

unfoldable pub contains : ArgList → Text → Bool
contains [] str = false
contains (x ∷ xs) str = str_eq str x || contains xs str

unfoldable pub add_arg : ArgList → Text → ArgList
add_arg args str = if contains args str then args else args ++ str ∷ []

-- `args << a << b << …`
unfoldable pub add_args : ArgList → List Text → ArgList
add_args args strs = foldl add_arg args strs

abbrev pub blanks : Text
blanks = b' ' ∷ 9 ∷ 13 ∷ 10 ∷ []

-- `strncpy(tmp, str, 1024)` writes no NUL if `str` has 1024 bytes or more: `strtok` then reads on
-- into what lies behind the buffer, `beyond`.
unfoldable pub line_buffer : Text → Text → Text
line_buffer beyond str = if ltb (length str) 1024 then str else take 1024 str ++ beyond

unfoldable pub insert_spacedelim : Text → ArgList → Text → ArgList
insert_spacedelim beyond args str = add_args args (tokens blanks (line_buffer beyond str))
