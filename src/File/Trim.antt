-- ===== src/File/Trim.antt =====
-- file.cpp: `trim`, which nothing calls.
use cake.Prelude.{
  ℕ, zero, suc, ◌≡◌, refl, subst, ap, ◌∙◌, sym, inl, inr, Bool-cases, true, false, Option, none,
  some, get_elem?, [], ◌∷◌, ◌++◌, length, take, if◌then◌else◌, All, All-append, append-nil,
  append_assoc, length-append, arith,
}
use cake.Text.{Text, has_byte}

-- The loop, with `end` at the last of `k` bytes. A NUL written there cuts the string.
unfoldable pub trim_from : Text → ℕ → Text → Text
trim_from chars zero str = str
trim_from chars (suc k) str =
    let rest = trim_from chars k (take k str) in
    elim (get_elem? str k) [ none ↦ str | some c ↦ if has_byte c chars then rest else str ]

unfoldable pub trim : Option Text → Text → Option Text
trim none chars = none
trim (some str) chars = some (trim_from chars (length str) str)

ends_at :
    (k : ℕ) (str : Text)
    → length str ≡ suc k
    → (c : ℕ) × (get_elem? str k ≡ some c)
      × (str ≡ take k str ++ c ∷ [])
      × (length (take k str) ≡ k)
ends_at k [] h = ground arith
ends_at zero (x ∷ []) h = (x, refl, refl, refl)
ends_at zero (x ∷ y ∷ ys) h = ground arith
ends_at (suc k) (x ∷ xs) h =
    let (c, at, e, l) = ends_at k xs (omega arith) in (c, at, ap (◌∷◌ x) e, omega (arith, l))

nil_snoc : (a : Text) (c : ℕ) → [] ≡ a ++ c ∷ [] → ⊥
nil_snoc a c q = omega (arith, ap length q, length-append a (c ∷ []))

last_of : Text → ℕ
last_of [] = 0
last_of (x ∷ []) = x
last_of (x ∷ y ∷ ys) = last_of (y ∷ ys)

last_of-snoc : (a : Text) (c : ℕ) → last_of (a ++ c ∷ []) ≡ c
unfolding last_of
last_of-snoc [] c = refl
last_of-snoc (x ∷ []) c = refl
last_of-snoc (x ∷ y ∷ a) c = last_of-snoc (y ∷ a) c

same_last : (a b : Text) (c d : ℕ) → a ++ c ∷ [] ≡ b ++ d ∷ [] → c ≡ d
same_last a b c d e = sym (last_of-snoc a c) ∙ ap last_of e ∙ last_of-snoc b d

-- What is kept of `str`: the rest of it is of these bytes, and what is kept does not end in one.
pub record Trimmed (str chars kept : Text) : Type 0 where
  pub cut : Text
  pub parts : str ≡ kept ++ cut
  pub cut_bytes : All (λ c. has_byte c chars ≡ true) cut
  pub last_byte : (a : Text) (c : ℕ) → kept ≡ a ++ c ∷ [] → has_byte c chars ≡ false

trim_from-Trimmed :
    (chars : Text) (k : ℕ) (str : Text) → length str ≡ k → Trimmed str chars (trim_from chars k str)
unfolding trim_from
trim_from-Trimmed chars zero [] h = record {
  cut = [];
  parts = refl;
  cut_bytes = tt;
  last_byte = λ a c q. absurd (nil_snoc a c q);
}
trim_from-Trimmed chars zero (x ∷ xs) h = ground arith
trim_from-Trimmed chars (suc k) str h =
    let (c, at, e, l) = ends_at k str h in
    let t = trim_from-Trimmed chars k (take k str) l in
    elim (Bool-cases (has_byte c chars)) [
      | inl b ↦
          rw (trim_from, at, b)
            (record {
              cut = t.cut ++ c ∷ [];
              parts = e ∙ ap (λ z. z ++ c ∷ []) t.parts ∙ append_assoc _ t.cut (c ∷ []);
              cut_bytes =
                  All-append (λ c. has_byte c chars ≡ true) t.cut (c ∷ []) t.cut_bytes (b, tt);
              last_byte = t.last_byte;
            })
      | inr b ↦
          rw (trim_from, at, b)
            (record {
              cut = [];
              parts = sym (append-nil str);
              cut_bytes = tt;
              last_byte = λ a d q.
                  subst (λ z. has_byte z chars ≡ false) (same_last (take k str) a c d (sym e ∙ q))
                    b;
            })
    ]

-- `trim` cuts the bytes in `chars` off the end of the string, all of them and nothing else.
pub trim-Trimmed :
    (str chars : Text)
    → (kept : Text) × (trim (some str) chars ≡ some kept) × Trimmed str chars kept
unfolding trim
trim-Trimmed str chars =
    (trim_from chars (length str) str, refl, trim_from-Trimmed chars (length str) str refl)
