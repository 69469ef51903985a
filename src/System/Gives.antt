-- ===== src/System/Gives.antt =====
-- What holds of the result of an action that comes back.
use cake.Prelude.{◌≡◌, subst, Bool, true, false, if◌then◌else◌}
use cake.System.{Act, done, ◌>>=◌, pure}
use cake.System.Laws.{resume-done, done-injective}

pub record Gives {S A : Type 0} (R : A → Type 0) (m : Act S A) : Type 0 where
  pub at : (s : S) (a : A) → (m s).0 ≡ done a → R a

module _ {S A : Type 0} {R : A → Type 0} where
  pub Gives-pure : (a : A) → R a → Gives {S = S} R (pure a)
  Gives-pure a r = record { at = λ s b e. subst R (done-injective e) r }

  pub Gives-if : {m n : Act S A} (c : Bool) → Gives R m → Gives R n → Gives R (if c then m else n)
  Gives-if true hm hn = hm
  Gives-if false hm hn = hn

  pub Gives-last :
      {C : Type 0} (m : Act S C) {f : C → Act S A} → ((c : C) → Gives R (f c)) → Gives R (m >>= f)
  Gives-last m {f} h = record {
    at = λ s a e. let (c, d, e1) = resume-done (m s).0 f (m s).1 e in (h c).at (m s).1 a e1;
  }

  pub Gives-bind :
      {C : Type 0} {R' : C → Type 0} (m : Act S C) {f : C → Act S A}
      → Gives R' m
      → ((c : C) → R' c → Gives R (f c))
      → Gives R (m >>= f)
  Gives-bind m {f} hm h = record {
    at = λ s a e.
        let (c, d, e1) = resume-done (m s).0 f (m s).1 e in (h c (hm.at s c d)).at (m s).1 a e1;
  }

  pub Gives-weaken :
      {R' : A → Type 0} {m : Act S A} → ((a : A) → R' a → R a) → Gives R' m → Gives R m
  Gives-weaken h k = record { at = λ s a e. h a (k.at s a e) }
