-- ===== src/Build/Processors/Count.antt =====
-- `count` counts the occurrences that do not overlap.
use cake.Prelude.{
  ℕ, zero, suc, ◌+◌, ◌≤◌, ◌<◌, ap, length-append, [], ◌∷◌, length, drop, arith, inl, inr,
  Option-cases, length-drop,
}
use cake.Text.{Text, find}
use cake.Text.Find.{OccursAt, find-none, find-some}
use cake.Build.Processors.{count, count_from}

-- Looking for the needle from left to right, behind one occurrence for the next, there are `n`.
pub data Splits (needle : Text) : Text → ℕ → Type 0 where
  last : {t : Text} → ((k : ℕ) → OccursAt needle t k → ⊥) → Splits needle t 0
  next :
      {t : Text} {n : ℕ} (k : ℕ)
      → OccursAt needle t k
      → ((j : ℕ) → OccursAt needle t j → k ≤ j)
      → Splits needle (drop (k + length needle) t) n
      → Splits needle t (suc n)

shorter :
    {fuel : ℕ} (needle t : Text) (k : ℕ)
    → OccursAt needle t k
    → 0 < length needle
    → length t < suc fuel
    → length (drop (k + length needle) t) < fuel
shorter needle t k (b, q) some_byte enough =
    omega (
      arith,
      length-drop (k + length needle) t,
      length-drop k t,
      ap length q,
      length-append needle b,
    )

count_from-Splits :
    (fuel : ℕ) (needle t : Text)
    → 0 < length needle
    → length t < fuel
    → Splits needle t (count_from fuel t needle)
unfolding count_from
count_from-Splits zero needle t some_byte enough = absurd (omega arith)
count_from-Splits (suc fuel) needle t some_byte enough = elim (Option-cases (find needle t)) [
  | inl e ↦ rw (count_from, e) (last (λ k. find-none needle t k e))
  | inr (k, e) ↦
      let (o, le, first) = find-some needle t k e in
      rw (count_from, e)
        (next k o first (
          count_from-Splits fuel needle (drop (k + length needle) t) some_byte
            (shorter needle t k o some_byte enough)))
]

-- If the needle is not empty, then `count` is the number of its occurrences that a search from left
-- to right finds, each behind the one before.
pub count-Splits : (t needle : Text) → 0 < length needle → Splits needle t (count t needle)
unfolding count
count-Splits t [] some_byte = absurd (omega arith)
count-Splits t (x ∷ xs) some_byte =
    count_from-Splits (suc (length t)) (x ∷ xs) t some_byte (omega arith)
