-- ===== src/Text/Search.antt =====
-- `strchr` and `strrchr` on texts with a known byte.
use cake.Prelude.{
  ℕ, ◌<◌, ◌≡◌, refl, false, none, some, [], ◌∷◌, ◌++◌, arith, length, Option-cases, inl, inr,
}
use cake.Text.{Text, has_byte, strchr, strrchr}

pub strrchr_absent : (c : ℕ) (xs : Text) → has_byte c xs ≡ false → strrchr c xs ≡ none
unfolding has_byte strrchr
strrchr_absent c [] h = refl
strrchr_absent c (x ∷ xs) h = ground (arith, strrchr_absent c xs)

pub strrchr_last :
    (c : ℕ) (xs ys : Text) → has_byte c ys ≡ false → strrchr c (xs ++ c ∷ ys) ≡ some (length xs)
unfolding strrchr
strrchr_last c [] ys h = ground (arith, strrchr_absent c ys h)
strrchr_last c (x ∷ xs) ys h = rw (strrchr_last c xs ys h)

pub strrchr-lt : (c : ℕ) (xs : Text) (i : ℕ) → strrchr c xs ≡ some i → i < length xs
unfolding strrchr
strrchr-lt c [] i h = ground arith
strrchr-lt c (x ∷ xs) i h = elim (Option-cases (strrchr c xs)) [
  | inl e ↦ ground arith
  | inr (j, e) ↦ ground (arith, strrchr-lt c xs j e)
]

pub strchr_first :
    (c : ℕ) (xs ys : Text) → has_byte c xs ≡ false → strchr c (xs ++ c ∷ ys) ≡ some (length xs)
unfolding has_byte strchr
strchr_first c [] ys h = ground arith
strchr_first c (x ∷ xs) ys h = ground (arith, strchr_first c xs ys)

pub strchr_absent : (c : ℕ) (xs : Text) → has_byte c xs ≡ false → strchr c xs ≡ none
unfolding has_byte strchr
strchr_absent c [] h = refl
strchr_absent c (x ∷ xs) h = ground (arith, strchr_absent c xs)
