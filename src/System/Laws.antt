-- ===== src/System/Laws.antt =====
-- Actions that come back did each of their steps.
use cake.Prelude.{◌≡◌, refl}
use cake.System.{pure, Act, Outcome, done, stopped, resume}

module _ {S A C : Type 0} where
  pub resume-done :
      (o : Outcome A) (f : A → Act S C) (s : S) {c : C}
      → (resume o f s).0 ≡ done c
      → (a : A) × (o ≡ done a) × ((f a s).0 ≡ done c)
  resume-done (done a) f s e = (a, refl, e)
  resume-done (stopped x) f s e = cc

-- A result that is made at the end leaves the state.
pub resume-last :
    {S A C : Type 0} (o : Outcome A) (f : A → C) (s : S) → (resume o (λ a. pure (f a)) s).1 ≡ s
resume-last (done a) f s = refl
resume-last (stopped x) f s = refl

pub done-injective : {A : Type 0} {a b : A} → done a ≡ done b → a ≡ b
done-injective e = cc
