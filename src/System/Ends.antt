-- ===== src/System/Ends.antt =====
-- How an action ends: with a result and a state, or with the end of the process.
use cake.Prelude.{
  ℕ, ◌<◌, ◌≡◌, refl, ◌⊎◌, inl, inr, Bool, true, false, if◌then◌else◌, length, lt→ltb, ltb,
}
use cake.Text.{Text}
use cake.System.{
  Act, Outcome, done, stopped, Stop, overrun, resume, ◌>>=◌, pure, stop, gets, fits, modify,
}

-- A result with `Q`, or an end that `E` admits.
abbrev pub Ended : {S A : Type 0} → (Stop → Type 0) → (A → S → Type 0) → Outcome A → S → Type 0
Ended E Q (done a) s = Q a s
Ended E Q (stopped e) s = E e

pub record Ends {S A : Type 0} (E : Stop → Type 0) (P : S → Type 0) (m : Act S A)
    (Q : A → S → Type 0) : Type 0 where
  pub at : (s : S) → P s → Ended E Q (m s).0 (m s).1

-- Any end of the process, and none.
abbrev pub Any : Stop → Type 0
Any e = Unit

abbrev pub Never : Stop → Type 0
Never e = ⊥

-- An action that never stops comes back.
pub came_back :
    {S A : Type 0} (Q : A → S → Type 0) (o : Outcome A) (t : S)
    → Ended Never Q o t
    → (a : A) × (o ≡ done a)
came_back Q (done a) t h = (a, refl)
came_back Q (stopped c) t h = absurd h

-- A string fits a buffer, unless `E` admits that it overruns.
abbrev pub Fits : (Stop → Type 0) → ℕ → Text → Type 0
Fits E size t = (length t < size) ⊎ E overrun

module _ {S A : Type 0} {E : Stop → Type 0} {P : S → Type 0} {Q : A → S → Type 0} where
  pub Ends-pure : (a : A) → ((s : S) → P s → Q a s) → Ends E P (pure a) Q
  Ends-pure a h = record { at = λ s p. h s p }

  pub Ends-stop : (e : Stop) → E e → Ends E P (stop e) Q
  Ends-stop e h = record { at = λ s p. h }

  pub Ends-gets : (g : S → A) → ((s : S) → P s → Q (g s) s) → Ends E P (gets g) Q
  Ends-gets g h = record { at = λ s p. h s p }

  -- A fact that does not depend on the state.
  pub Ends-known : {F : Type 0} {m : Act S A} → (F → Ends E P m Q) → Ends E (λ s. P s × F) m Q
  Ends-known h = record { at = λ s (p, f). (h f).at s p }

  pub Ends-if :
      {m n : Act S A} (c : Bool)
      → (c ≡ true → Ends E P m Q)
      → (c ≡ false → Ends E P n Q)
      → Ends E P (if c then m else n) Q
  Ends-if true hm hn = hm refl
  Ends-if false hm hn = hn refl

  pub Ends-weaken :
      {P' : S → Type 0} {Q' : A → S → Type 0} {m : Act S A}
      → ((s : S) → P s → P' s)
      → ((a : A) (s : S) → Q' a s → Q a s)
      → Ends E P' m Q'
      → Ends E P m Q
  Ends-weaken {P'} {Q'} {m} start end h = record {
    at = λ s p. go (m s).0 (m s).1 (h.at s (start s p));
  }
    where
      go : (o : Outcome A) (s : S) → Ended E Q' o s → Ended E Q o s
      go (done a) s q = end a s q
      go (stopped e) s q = q

module _ {S A C : Type 0} {E : Stop → Type 0} {R : A → S → Type 0} {Q : C → S → Type 0} where
  resumed :
      (f : A → Act S C) (o : Outcome A) (s : S)
      → ((a : A) → Ends E (R a) (f a) Q)
      → Ended E R o s
      → Ended E Q (resume o f s).0 (resume o f s).1
  resumed f (done a) s h r = (h a).at s r
  resumed f (stopped e) s h r = r

  pub Ends-bind :
      {P : S → Type 0} {f : A → Act S C} (m : Act S A)
      → Ends E P m R
      → ((a : A) → Ends E (R a) (f a) Q)
      → Ends E P (m >>= f) Q
  Ends-bind {P} {f} m hm hf = record { at = λ s p. resumed f (m s).0 (m s).1 hf (hm.at s p) }

module _ {S : Type 0} {E : Stop → Type 0} {P : S → Type 0} where
  pub Ends-modify :
      {Q : Unit {0} → S → Type 0} (f : S → S) → ((s : S) → P s → Q tt (f s)) → Ends E P (modify f) Q
  Ends-modify f h = record { at = λ s p. h s p }

  pub Ends-fits :
      (size : ℕ) (t : Text) → Fits E size t → Ends E P (fits size t) (λ a s. P s × (a ≡ t))
  Ends-fits size t (inl short) = record { at = λ s p. rw (lt→ltb (length t) size short) (p, refl) }
  Ends-fits size t (inr admitted) = record { at = λ s p. go s p (ltb (length t) size) }
    where
      go :
          (s : S)
          → P s
          → (b : Bool) → Ended E (λ a s. P s × (a ≡ t)) (if b then done t else stopped overrun) s
      go s p true = (p, refl)
      go s p false = admitted
