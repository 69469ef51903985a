-- ===== src/Project/Steps/Heights.antt =====
-- The height of the interpreter's stack through the parts of a build step.
use cake.Prelude.{
  ℕ, zero, suc, ◌+◌, ◌≤◌, ◌<◌, ◌≡◌, refl, ◌∙◌, ◌⊎◌, inl, inr, Bool, true, false, not, Option, none,
  some, arith, if◌then◌else◌, Bool-cases,
}
use cake.Text.{Text}
use cake.System.{
  Os, Machine, M, Outcome, done, stopped, starved, raised, crashed, look, gets, change, system,
  skip, stop, ◌>>=◌, ◌>>◌,
}
use cake.System.Ends.{
  Any, Ends, Ended, Ends-pure, Ends-stop, Ends-gets, Ends-if, Ends-bind, Ends-weaken,
}
use cake.Utility.Print.{printerr}
use cake.Lua.{Lua, top}
use cake.Project.Scripts.{Shop, in_machine}
use cake.Project.Steps.{
  print_text, formatted, step_result, find_step, is_step, same_string, print_format,
}

-- What each call does to the height of the stack.
pub record Heights {W : Type 0} (os : Os W) (lua : Lua W) : Type 0 where
  pub rawgeti : (k : ℕ) (w : W) → lua.gettop (lua.rawgeti k w) ≡ suc (lua.gettop w)
  pub pushnil : (w : W) → lua.gettop (lua.pushnil w) ≡ suc (lua.gettop w)
  pub swap : (w : W) → lua.gettop (lua.swap w) ≡ lua.gettop w
  pub pop : (n : ℕ) (w : W) → n ≤ lua.gettop w → lua.gettop (lua.pop n w) + n ≡ lua.gettop w
  pub tostring : (i : _) (w : W) → lua.gettop (lua.tostring i w).1 ≡ lua.gettop w
  pub next_entry :
      (t : ℕ) (w : W)
      → (lua.next t w).0 ≡ some true
      → lua.gettop (lua.next t w).1 ≡ suc (lua.gettop w)
  pub next_end :
      (t : ℕ) (w : W)
      → (lua.next t w).0 ≡ some false
      → 0 < lua.gettop w
      → suc (lua.gettop (lua.next t w).1) ≡ lua.gettop w
  pub print_err : (t : Text) (w : W) → lua.gettop (os.print_err t w) ≡ lua.gettop w

module _ {W : Type 0} (os : Os W) (lua : Lua W) (heights : Heights os lua) where
  abbrev pub Height : ℕ → Machine W → Type 0
  Height n s = lua.gettop s.world ≡ n

  pub change-Height :
      {n n' : ℕ} (f : W → W)
      → ((w : W) → lua.gettop w ≡ n → lua.gettop (f w) ≡ n')
      → Ends Any (Height n) (change f) (λ _. Height n')
  change-Height f h = record { at = λ s p. h s.world p }

  pub pop-Height : (n : ℕ) → Ends Any (Height (suc n)) (change (lua.pop 1)) (λ _. Height n)
  pop-Height n = change-Height (lua.pop 1) (λ w p. omega (arith, heights.pop 1 w (omega arith)))

  pub swap-Height : (n : ℕ) → Ends Any (Height n) (change lua.swap) (λ _. Height n)
  swap-Height n = change-Height lua.swap (λ w p. heights.swap w ∙ p)

  tostring-Height : (n i : ℕ) → Ends Any (Height n) (system (lua.tostring (top i))) (λ _. Height n)
  tostring-Height n i = record { at = λ s p. heights.tostring (top i) s.world ∙ p }

  pub printerr-Height : (n : ℕ) (msg : Text) → Ends Any (Height n) (printerr os msg) (λ _. Height n)
  unfolding printerr
  printerr-Height n msg = record {
    at = λ s p. elim (Bool-cases s.silent_flag) [
      | inl e ↦ rw e p
      | inr e ↦ rw e (heights.print_err _ s.world ∙ p)
    ];
  }

  print_text-Height :
      (n : ℕ) (o : Option Text) → Ends Any (Height n) (print_text os o) (λ _. Height n)
  unfolding print_text
  print_text-Height n none = Ends-stop crashed tt
  print_text-Height n (some t) = printerr-Height n t

  pub print_format-Height :
      (n : ℕ) (o : Option Text) → Ends Any (Height n) (print_format os o) (λ _. Height n)
  unfolding print_format
  print_format-Height n o =
      Ends-bind {R = λ _. Height n} (gets (λ s. s.silent_flag)) (Ends-gets _ (λ s p. p)) λ silent.
        Ends-if silent (λ _. Ends-pure tt (λ s p. p)) (λ _. print_text-Height n (formatted os o))

  pub is_step-Height :
      (n : ℕ) (step : Text) → Ends Any (Height n) (is_step os lua step) (λ _. Height n)
  unfolding is_step same_string
  is_step-Height n step =
      Ends-bind {R = λ _. Height n} (look (lua.isstring (top 2))) (Ends-gets _ (λ s p. p)) λ string.
        Ends-if (not string) (λ _. Ends-pure false (λ s p. p))
          λ _. Ends-bind (system (lua.tostring (top 2))) (tostring-Height n 2) λ key. same key
    where
      same : (key : Option Text) → Ends Any (Height n) (same_string os lua step key) (λ _. Height n)
      same none = Ends-stop crashed tt
      same (some key) = Ends-pure _ (λ s p. p)

  -- A traversal ends where it came to: with the entry and its key above the table, or without them.
  abbrev pub Traversed : ℕ → Machine W → Type 0
  Traversed n s = (Height (suc (suc n)) s) ⊎ (Height n s)

  next-Traversed :
      (n t : ℕ)
      → Ends Any (Height (suc n)) (system (lua.next t)) (λ more s.
        ((more ≡ some true) → Height (suc (suc n)) s) × ((more ≡ some false) → Height n s))
  next-Traversed n t = record {
    at = λ s p. (
      λ e. omega (arith, heights.next_entry t s.world e, p),
      λ e. omega (arith, heights.next_end t s.world e (omega (arith, p)), p),
    );
  }

  pub find_step-Traversed :
      (fuel n t : ℕ) (step : Text)
      → Ends Any (Height (suc n)) (find_step os lua fuel t step) (λ _. Traversed n)
  unfolding find_step
  find_step-Traversed zero n t step = Ends-stop starved tt
  find_step-Traversed (suc fuel) n t step =
      Ends-bind (system (lua.next t)) (next-Traversed n t)
        λ more. go more (find_step-Traversed fuel n t step)
    where
      go :
          (more : Option Bool)
          → Ends Any (Height (suc n)) (find_step os lua fuel t step) (λ _. Traversed n)
          → Ends {A = Unit {0}} Any
              (λ s.
                ((more ≡ some true) → Height (suc (suc n)) s) × ((more ≡ some false) → Height n s))
              (elim more [
                | none ↦ stop raised
                | some true ↦
                    (is_step os lua step >>= λ hit.
                    if hit then skip else (change (lua.pop 1) >> find_step os lua fuel t step))
                | some false ↦ skip
              ])
              (λ _. Traversed n)
      go none rest = Ends-stop raised tt
      go (some false) rest = Ends-pure tt (λ s p. inr (p.1 refl))
      go (some true) rest =
          Ends-weaken {P' = Height (suc (suc n))} (λ s p. p.0 refl) (λ a s q. q)
            (Ends-bind (is_step os lua step) (is_step-Height (suc (suc n)) step) λ hit.
              Ends-if hit (λ _. Ends-pure tt (λ s p. inl p))
                λ _. Ends-bind (change (lua.pop 1)) (pop-Height (suc n)) λ _. rest)

  pub step_result-Height :
      (n : ℕ) (ok : Bool) → Ends Any (Height (suc n)) (step_result os lua ok) (λ _. Height n)
  unfolding step_result
  step_result-Height n true =
      Ends-bind {R = λ _. Height (suc n)} (look (lua.isboolean (top 1))) (Ends-gets _ (λ s p. p))
        λ b.
          Ends-bind {R = λ _. Height (suc n)} (look (lua.toboolean (top 1)))
            (Ends-gets _ (λ s p. p))
            λ v.
              Ends-bind (change (lua.pop 1)) (pop-Height n)
                λ _. Ends-pure (if b then v else true) (λ s p. p)
  step_result-Height n false =
      Ends-bind (system (lua.tostring (top 1))) (tostring-Height (suc n) 1) λ message.
        Ends-bind (print_format os message) (print_format-Height (suc n) message)
          λ _. Ends-bind (change (lua.pop 1)) (pop-Height n) λ _. Ends-pure true (λ s p. p)

  pub in_machine-Ends :
      {A : Type 0} {P : Machine W → Type 0} {Q : A → Machine W → Type 0} {m : M W A}
      → Ends Any P m Q
      → Ends Any (λ (s : Shop W). P s.machine) (in_machine m) (λ a s. Q a s.machine)
  in_machine-Ends {A} {P} {Q} {m} h = record {
    at = λ s p. go s (m s.machine).0 (m s.machine).1 (h.at s.machine p);
  }
    where
      go :
          (s : Shop W) (o : Outcome A) (t : Machine W)
          → Ended Any Q o t
          → Ended Any (λ a s. Q a s.machine) o (record s { machine = t })
      go s (done a) t q = q
      go s (stopped e) t q = q
