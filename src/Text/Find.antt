-- ===== src/Text/Find.antt =====
-- `strstr` finds the first occurrence.
use cake.Prelude.{
  ℕ, zero, suc, ◌≤◌, ◌≡◌, ◌≢◌, refl, sym, ap, ◌∙◌, inl, inr, Bool-cases, Option-cases, true, false,
  none, some, [], ◌∷◌, ◌++◌, length, drop, arith, ◌==◌, ==_iff,
}
use cake.Text.{Text, is_prefix, find}

-- The needle stands at the offset `k`.
abbrev pub OccursAt : Text → Text → ℕ → Type 0
OccursAt needle t k = (b : Text) × (drop k t ≡ needle ++ b)

is_prefix-append : (xs b : Text) → is_prefix xs (xs ++ b) ≡ true
unfolding is_prefix
is_prefix-append [] b = refl
is_prefix-append (x ∷ xs) b = ground (arith, is_prefix-append xs b)

is_prefix-rest : (xs t : Text) → is_prefix xs t ≡ true → (b : Text) × (t ≡ xs ++ b)
unfolding is_prefix
is_prefix-rest [] t h = (t, refl)
is_prefix-rest (x ∷ xs) [] h = cc
is_prefix-rest (x ∷ xs) (y ∷ ys) h = elim (Bool-cases (x == y)) [
  | inl e ↦
      let (b, q) = is_prefix-rest xs ys (ground arith) in
      (b, ap (λ z. z ∷ ys) (sym ((==_iff x y).0 e)) ∙ ap (◌∷◌ x) q)
  | inr e ↦ ground arith
]

is_prefix_no : (xs t : Text) → is_prefix xs t ≡ false → (b : Text) → t ≢ xs ++ b
is_prefix_no xs t h b e = ground (arith, ap (is_prefix xs) e, is_prefix-append xs b)

drop_nil : (k : ℕ) → drop {A = ℕ} k [] ≡ []
drop_nil zero = refl
drop_nil (suc k) = refl

pub find-none : (needle t : Text) (k : ℕ) → find needle t ≡ none → OccursAt needle t k → ⊥
unfolding find
find-none needle [] k e (b, q) = is_prefix_no needle [] (ground arith) b (sym (drop_nil k) ∙ q)
find-none needle (x ∷ t) zero e (b, q) = is_prefix_no needle (x ∷ t) (ground arith) b q
find-none needle (x ∷ t) (suc k) e (b, q) = elim (Option-cases (find needle t)) [
  | inl h ↦ find-none needle t k h (b, q)
  | inr (i, h) ↦ ground (arith, h)
]

pub find-some :
    (needle t : Text) (k : ℕ)
    → find needle t ≡ some k
    → OccursAt needle t k × (k ≤ length t) × ((j : ℕ) → OccursAt needle t j → k ≤ j)
unfolding find
find-some needle [] k e = elim (Bool-cases (is_prefix needle [])) [
  | inl h ↦
      let z : k ≡ 0 = ground arith in
      rw z (is_prefix-rest needle [] h, omega arith, λ j o. omega arith)
  | inr h ↦ ground arith
]
find-some needle (x ∷ t) k e = elim (Bool-cases (is_prefix needle (x ∷ t))) [
  | inl h ↦
      let z : k ≡ 0 = ground arith in
      rw z (is_prefix-rest needle (x ∷ t) h, omega arith, λ j o. omega arith)
  | inr h ↦ elim (Option-cases (find needle t)) [
    | inl g ↦ ground (arith, g)
    | inr (i, g) ↦
        let (o, le, first) = find-some needle t i g in
        let z : k ≡ suc i = ground (arith, g) in rw z (o, omega (arith, le), later i h first)
  ]
]
  where
    later :
        (i : ℕ)
        → is_prefix needle (x ∷ t) ≡ false
        → ((j : ℕ) → OccursAt needle t j → i ≤ j)
        → (j : ℕ) → OccursAt needle (x ∷ t) j
        → suc i ≤ j
    later i h first zero (b, q) = absurd (is_prefix_no needle (x ∷ t) h b q)
    later i h first (suc j) o = omega (arith, first j o)
