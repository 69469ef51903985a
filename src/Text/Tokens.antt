-- ===== src/Text/Tokens.antt =====
-- What `strtok` splits a text into.
use cake.Prelude.{
  ℕ, ◌≡◌, ◌≢◌, refl, ◌∙◌, true, false, List, [], ◌∷◌, ◌++◌, All, Bool-cases, inl, inr, append_assoc,
  append-nil, All-append,
}
use cake.Text.{Text, has_byte, strtok_from, tokens}

-- Free of delimiters.
abbrev pub Clean : Text → Text → Type 0
Clean delims w = All (λ c. has_byte c delims ≡ false) w

-- A word: not empty, and free of delimiters.
abbrev pub IsWord : Text → Text → Type 0
IsWord delims w = (w ≢ []) × Clean delims w

-- Words, each followed by one separator.
unfoldable pub spaced : ℕ → List Text → Text
spaced sep [] = []
spaced sep (w ∷ ws) = w ++ sep ∷ spaced sep ws

module _ (delims : Text) where
  strtok_from-IsWord :
      (cur s : Text) → Clean delims cur → All (IsWord delims) (strtok_from delims cur s)
  unfolding strtok_from
  strtok_from-IsWord [] [] k = tt
  strtok_from-IsWord (c ∷ cur) [] k = (((λ e. cc), k), tt)
  strtok_from-IsWord [] (x ∷ xs) k = elim (Bool-cases (has_byte x delims)) [
    | inl e ↦ rw (All, e) (strtok_from-IsWord [] xs tt)
    | inr e ↦ rw (All, e) (strtok_from-IsWord (x ∷ []) xs (e, tt))
  ]
  strtok_from-IsWord (c ∷ cur) (x ∷ xs) k = elim (Bool-cases (has_byte x delims)) [
    | inl e ↦ rw (All, e) (((λ e. cc), k), strtok_from-IsWord [] xs tt)
    | inr e ↦
        rw (All, e)
          (strtok_from-IsWord (c ∷ cur ++ x ∷ []) xs
            (k.0, All-append (λ c. has_byte c delims ≡ false) cur (x ∷ []) k.1 (e, tt)))
  ]

  -- Every token is a word.
  pub tokens-IsWord : (s : Text) → All (IsWord delims) (tokens delims s)
  unfolding tokens
  tokens-IsWord s = strtok_from-IsWord [] s tt

  strtok_from-word :
      (sep c : ℕ) (cur w rest : Text)
      → has_byte sep delims ≡ true
      → Clean delims w
      → strtok_from delims (c ∷ cur) (w ++ sep ∷ rest) ≡ (c ∷ cur ++ w) ∷ strtok_from delims [] rest
  unfolding strtok_from
  strtok_from-word sep c cur [] rest h k = rw (h, append-nil)
  strtok_from-word sep c cur (x ∷ xs) rest h k =
      rw k.0 (strtok_from-word sep c (cur ++ x ∷ []) xs rest h k.1 ∙ rw append_assoc)

  -- Splitting undoes joining.
  pub tokens-spaced :
      (sep : ℕ) (ws : List Text)
      → has_byte sep delims ≡ true
      → All (IsWord delims) ws
      → tokens delims (spaced sep ws) ≡ ws
  unfolding tokens strtok_from spaced
  tokens-spaced sep [] h k = refl
  tokens-spaced sep ([] ∷ ws) h k = absurd (k.0.0 refl)
  tokens-spaced sep ((c ∷ cur) ∷ ws) h k =
      rw (tokens, spaced, ◌++◌, strtok_from, k.0.1.0)
        (strtok_from-word sep c [] cur (spaced sep ws) h k.0.1.1 ∙ rw (tokens-spaced sep ws h k.1))
