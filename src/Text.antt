-- ===== src/Text.antt =====
-- C strings, as the list of their bytes before the terminating NUL, and what the program uses of
-- <string.h>. A pointer into a string is an offset.
pub mod Search
pub mod Tokens
pub mod Find
use Prim.Native.Char.{code}
use Prim.Native.String.{String}
use mathlib.Core.Option
use cake.Prelude.{
  ℕ, zero, suc, ◌≡◌, refl, ◌↔◌, Bool, true, false, ◌&&◌, ◌||◌, Option, none, some, List, [], ◌∷◌,
  ◌++◌, arith, ◌==◌, ==_iff, if◌then◌else◌,
}

abbrev pub Text : Type 0
Text = List ℕ

-- A literal.
abbrev pub codes : String → Text
codes String.[] = []
codes (String.◌∷◌ c s) = code c ∷ codes s

-- `strcmp(a, b) == 0`
unfoldable pub str_eq : Text → Text → Bool
str_eq [] [] = true
str_eq (x ∷ xs) (y ∷ ys) = x == y && str_eq xs ys
str_eq _ _ = false

pub str_eq_iff : (a b : Text) → (str_eq a b ≡ true) ↔ (a ≡ b)
unfolding str_eq
str_eq_iff [] [] = ground arith
str_eq_iff [] (y ∷ ys) = ground arith
str_eq_iff (x ∷ xs) [] = ground arith
str_eq_iff (x ∷ xs) (y ∷ ys) = ground (arith, str_eq_iff xs ys)

-- Whether a byte stands in a string.
unfoldable pub has_byte : ℕ → Text → Bool
has_byte c [] = false
has_byte c (x ∷ xs) = x == c || has_byte c xs

-- `strchr`: the offset of the first `c`.
unfoldable pub strchr : ℕ → Text → Option ℕ
strchr c [] = none
strchr c (x ∷ xs) = let rest = Option.map suc (strchr c xs) in if x == c then some 0 else rest

-- `strrchr`: the offset of the last `c`.
unfoldable pub strrchr : ℕ → Text → Option ℕ
strrchr c [] = none
strrchr c (x ∷ xs) = elim (strrchr c xs) [
  | some i ↦ some (suc i)
  | none ↦ if x == c then some 0 else none
]

unfoldable pub is_prefix : Text → Text → Bool
is_prefix [] ys = true
is_prefix (x ∷ xs) [] = false
is_prefix (x ∷ xs) (y ∷ ys) = x == y && is_prefix xs ys

-- `strstr` and `std::string::find`: the offset of the first occurrence.
unfoldable pub find : Text → Text → Option ℕ
unfolding is_prefix
find needle [] = if is_prefix needle [] then some 0 else none
find needle (x ∷ xs) =
    let rest = Option.map suc (find needle xs) in if is_prefix needle (x ∷ xs) then some 0 else rest

-- The C string that a buffer of bytes holds: all up to the first NUL.
unfoldable pub c_str : Text → Text
c_str [] = []
c_str (x ∷ xs) = let rest = x ∷ c_str xs in if x == 0 then [] else rest

-- Successive calls of `strtok(s, delims)`, with the token that is being read.
unfoldable pub strtok_from : Text → Text → Text → List Text
strtok_from delims [] [] = []
strtok_from delims (c ∷ cur) [] = (c ∷ cur) ∷ []
strtok_from delims [] (x ∷ xs) = strtok_from delims (if has_byte x delims then [] else x ∷ []) xs
strtok_from delims (c ∷ cur) (x ∷ xs) =
    let ended = (c ∷ cur) ∷ strtok_from delims [] xs in
    let longer = strtok_from delims (c ∷ cur ++ x ∷ []) xs in
    if has_byte x delims then ended else longer

unfoldable pub tokens : Text → Text → List Text
unfolding strtok_from has_byte
tokens delims s = strtok_from delims [] s
