-- ===== src/Project/Scripts/Always.antt =====
-- What holds of `g_projects` whenever a function ends, on whatever outcome.
use cake.Prelude.{Bool, true, false, List, if◌then◌else◌}
use cake.System.{Outcome, done, stopped, Stop, M, ◌>>=◌, pure, stop, resume}
use cake.Project.{Project}
use cake.Project.Scripts.{Shop, Script, in_machine}

-- `m` keeps `P`.
pub record Always {W A : Type 0} (P : List Project → Type 0) (m : Script W A) : Type 0 where
  pub at : (s : Shop W) → P s.projects → P (m s).1.projects

module _ {W A : Type 0} {P : List Project → Type 0} where
  pub Always-pure : (a : A) → Always {W = W} P (pure a)
  Always-pure a = record { at = λ s p. p }

  pub Always-stop : (e : Stop) → Always {W = W} {A = A} P (stop e)
  Always-stop e = record { at = λ s p. p }

  pub Always-machine : (m : M W A) → Always P (in_machine m)
  Always-machine m = record { at = λ s p. p }

  pub Always-if :
      {m n : Script W A} (c : Bool) → Always P m → Always P n → Always P (if c then m else n)
  Always-if true hm hn = hm
  Always-if false hm hn = hn

module _ {W A C : Type 0} {P : List Project → Type 0} where
  resumed :
      (f : A → Script W C) (o : Outcome A) (s : Shop W)
      → ((a : A) → Always P (f a))
      → P s.projects
      → P (resume o f s).1.projects
  resumed f (done a) s h p = (h a).at s p
  resumed f (stopped e) s h p = p

  pub Always-first :
      (m : Script W A) (f : A → Script W C)
      → Always P m
      → ((a : A) → Always P (f a))
      → Always P (m >>= f)
  Always-first m f hm hf = record { at = λ s p. resumed f (m s).0 (m s).1 hf (hm.at s p) }

  pub Always-after :
      {f : A → Script W C} (m : M W A) → ((a : A) → Always P (f a)) → Always P (in_machine m >>= f)
  Always-after {f} m h = Always-first (in_machine m) f (Always-machine m) h
