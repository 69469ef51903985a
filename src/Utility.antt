-- ===== src/Utility.antt =====
-- utility.h: `endswith1of` and `strfmt`.
pub mod Laws
pub mod Print
use cake.Prelude.{ℕ, ◌-◌, Bool, true, false, List, [], ◌∷◌, ltb, if◌then◌else◌, length, drop, take}
use cake.Text.{Text, str_eq}

-- A suffix that is longer than the text is passed over; else the tail of its length is compared.
unfoldable pub endswith1of : Text → List Text → Bool
unfolding str_eq
endswith1of str [] = false
endswith1of str (end ∷ ends) =
    let rest = endswith1of str ends in
    if ltb (length str) (length end)
    then rest
    else if str_eq (drop (length str - length end) str) end
    then true
    else rest

-- `strfmt<size>`, with its values filled in: `vsnprintf` leaves room for the NUL.
unfoldable pub strfmt : ℕ → Text → Text
strfmt size text = take (size - 1) text
