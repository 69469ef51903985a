-- ===== src/Build/Keeps.antt =====
-- What holds of a build when a method comes back. A method that ends the process is not spoken of.
use cake.Text.{Text}
use cake.Prelude.{ℕ, ◌≡◌, refl, sym, subst, Bool, true, false, if◌then◌else◌, List, [], ◌∷◌}
use cake.System.{Outcome, done, stopped, ◌>>=◌, M, resume, each, fits, pure}
use cake.Build.{Build, Site, B, on_machine, of_build, on_build}

-- From a build with `P`, if `m` comes back with `a`, it leaves a build with `Q a`.
pub record Keeps {W A : Type 0} (P : Build → Type 0) (m : B W A) (Q : A → Build → Type 0)
    : Type 0 where
  pub at : (s : Site W) → P s.build → (a : A) → (m s).0 ≡ done a → Q a (m s).1.build

done-injective : {A : Type 0} {a b : A} → done a ≡ done b → a ≡ b
done-injective e = cc

module _ {W A : Type 0} {P : Build → Type 0} where
  pub Keeps-pure :
      {Q : A → Build → Type 0} (a : A) → ((b : Build) → P b → Q a b) → Keeps {W = W} P (pure a) Q
  Keeps-pure {Q} a h = record {
    at = λ s p c e. subst (λ x. Q x s.build) (done-injective e) (h s.build p);
  }

  pub Keeps-machine : (m : M W A) → Keeps P (on_machine m) (λ _. P)
  Keeps-machine m = record { at = λ s p a e. p }

  pub Keeps-of_build : (f : Build → A) → Keeps {W = W} P (of_build f) (λ _. P)
  Keeps-of_build f = record { at = λ s p a e. p }

  pub Keeps-if :
      {Q : A → Build → Type 0} (c : Bool) (m n : B W A)
      → (c ≡ true → Keeps P m Q)
      → (c ≡ false → Keeps P n Q)
      → Keeps P (if c then m else n) Q
  Keeps-if true m n hm hn = hm refl
  Keeps-if false m n hm hn = hn refl

pub Keeps-fits :
    {W : Type 0} {P : Build → Type 0} (size : ℕ) (t : Text) → Keeps {W = W} P (fits size t) (λ _. P)
Keeps-fits size t = record { at = λ s p a e. p }

-- A weaker start, and a weaker end.
pub Keeps-weaken :
    {W A : Type 0} {P P' : Build → Type 0} {Q Q' : A → Build → Type 0} (m : B W A)
    → ((b : Build) → P' b → P b)
    → ((a : A) (b : Build) → Q a b → Q' a b)
    → Keeps P m Q
    → Keeps P' m Q'
Keeps-weaken m start end h = record { at = λ s p a e. end a _ (h.at s (start s.build p) a e) }

module _ {W : Type 0} {P : Build → Type 0} {Q : Build → Type 0} where
  pub Keeps-on_build :
      (f : Build → Build) → ((b : Build) → P b → Q (f b)) → Keeps {W = W} P (on_build f) (λ _. Q)
  Keeps-on_build f h = record { at = λ s p a e. h s.build p }

module _ {W A C : Type 0} {R : A → Build → Type 0} {Q : C → Build → Type 0} where
  resumed :
      (f : A → B W C) (o : Outcome A) (s : Site W)
      → ((a : A) → Keeps (R a) (f a) Q)
      → ((a : A) → o ≡ done a → R a s.build)
      → (c : C) → (resume o f s).0 ≡ done c
      → Q c (resume o f s).1.build
  resumed f (done a) s h r c e = (h a).at s (r a refl) c e
  resumed f (stopped x) s h r c e = cc

  pub Keeps-bind :
      {P : Build → Type 0} (m : B W A) (f : A → B W C)
      → Keeps P m R
      → ((a : A) → Keeps (R a) (f a) Q)
      → Keeps P (m >>= f) Q
  Keeps-bind m f hm hf = record { at = λ s p c e. resumed f (m s).0 (m s).1 hf (hm.at s p) c e }

-- The same for the steps of a method that only the machine takes, or only the build.
module _ {W A C : Type 0} {P : Build → Type 0} {Q : C → Build → Type 0} {f : A → B W C} where
  pub Keeps-after : (m : M W A) → ((a : A) → Keeps P (f a) Q) → Keeps P (on_machine m >>= f) Q
  Keeps-after m h = Keeps-bind (on_machine m) f (Keeps-machine m) h

  pub Keeps-reading : (g : Build → A) → ((a : A) → Keeps P (f a) Q) → Keeps P (of_build g >>= f) Q
  Keeps-reading g h = Keeps-bind (of_build g) f (Keeps-of_build g) h

  -- The rest of the block may use what was read.
  pub Keeps-knowing :
      (g : Build → A)
      → ((a : A) → Keeps (λ b. P b × (a ≡ g b)) (f a) Q)
      → Keeps P (of_build g >>= f) Q
  Keeps-knowing g h =
      Keeps-bind (of_build g) f (record { at = λ s p a e. (p, sym (done-injective e)) }) h

  pub Keeps-first :
      {R : A → Build → Type 0} (m : B W A)
      → Keeps P m R
      → ((a : A) → Keeps (R a) (f a) Q)
      → Keeps P (m >>= f) Q
  Keeps-first m hm h = Keeps-bind m f hm h

module _ {W A : Type 0} {P : Build → Type 0} where
  pub Keeps-each :
      (f : A → B W (Unit {0}))
      → ((a : A) → Keeps P (f a) (λ _. P))
      → (xs : List A) → Keeps P (each f xs) (λ _. P)
  unfolding each
  Keeps-each f h [] = record { at = λ s p a e. p }
  Keeps-each f h (x ∷ xs) = Keeps-bind (f x) (λ _. each f xs) (h x) (λ _. Keeps-each f h xs)
