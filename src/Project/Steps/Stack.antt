-- ===== src/Project/Steps/Stack.antt =====
-- What a build step leaves on the stack of the interpreter.
use cake.Prelude.{
  Option, ◌==◌, none, some, ℕ, suc, ◌<◌, ◌≡◌, refl, subst, ◌⊎◌, inl, inr, Bool, true, false, arith,
  ltb, if◌then◌else◌,
}
use cake.Project.{Handle}
use cake.Text.{codes, Text}
use cake.System.{Os, Outcome, done, stopped, look, change, skip, pure, ◌>>◌}
use cake.System.Laws.{done-injective}
use cake.System.Ends.{Any, Ends, Ended, Ends-pure, Ends-if, Ends-bind, Ends-weaken, Ends-known}
use cake.Utility.Print.{printerr}
use cake.Lua.{Lua, Call}
use cake.Project.Scripts.{Shop, Script, in_machine}
use cake.Project.Steps.{
  Interpreter, plain_wrong, do_build_step, run_step, call_step, step_result, find_step, no_pointer,
}
use cake.Project.Steps.Heights.{
  printerr-Height, Heights, swap-Height, pop-Height, step_result-Height, find_step-Traversed,
  in_machine-Ends,
}

module _ {W : Type 0} (os : Os W) (lua : Lua W) (heights : Heights os lua) (run : Interpreter W)
    (calls : Call → Script W ℕ)
    (pcall_height : (s : Shop W) (ok : Bool)
      → (run.pcall calls s).0 ≡ done ok
      → 1 < lua.gettop s.machine.world
      → suc (lua.gettop (run.pcall calls s).1.machine.world) ≡ lua.gettop s.machine.world) where
  abbrev At : ℕ → Shop W → Type 0
  At n s = lua.gettop s.machine.world ≡ n

  pcall-Height : (n : ℕ) → Ends Any (At (suc (suc n))) (run.pcall calls) (λ _. At (suc n))
  pcall-Height n = record {
    at = λ s p. go s p (run.pcall calls s).0 (run.pcall calls s).1 (pcall_height s);
  }
    where
      go :
          (s : Shop W)
          → At (suc (suc n)) s
          → (o : Outcome Bool) (t : Shop W)
          → ((ok : Bool)
              → o ≡ done ok
              → 1 < lua.gettop s.machine.world
              → suc (lua.gettop t.machine.world) ≡ lua.gettop s.machine.world)
          → Ended Any (λ _. At (suc n)) o t
      go s p (done ok) t h = omega (arith, h ok refl (omega (arith, p)), p)
      go s p (stopped e) t h = tt

  call_step-Height :
      (n t : ℕ)
      → t ≡ suc n
      → Ends Any (At (suc (suc (suc n)))) (call_step os lua run calls t) (λ _. At n)
  unfolding call_step
  call_step-Height n t start =
      Ends-bind (in_machine (change lua.swap))
        (in_machine-Ends os lua heights (swap-Height os lua heights (suc (suc (suc n)))))
        λ _.
          Ends-bind (in_machine (change (lua.pop 1)))
            (in_machine-Ends os lua heights (pop-Height os lua heights (suc (suc n))))
            λ _.
              Ends-bind (in_machine (change lua.swap))
                (in_machine-Ends os lua heights (swap-Height os lua heights (suc (suc n))))
                λ _. Ends-bind (run.pcall calls) (pcall-Height n) λ ok.
                  Ends-bind (in_machine (step_result os lua ok))
                    (in_machine-Ends os lua heights (step_result-Height os lua heights n ok))
                    λ bigret.
                      Ends-bind {R = λ last s. At n s × (last ≡ n)} (in_machine (look lua.gettop))
                        (record { at = λ s p. (p, p) })
                        λ last. Ends-known λ e.
                          Ends-bind {R = λ _. At n}
                            (in_machine (if ltb t last then change (lua.pop 1) else skip))
                            (in_machine-Ends os lua heights (
                              Ends-if (ltb t last) (λ h. absurd (ground arith))
                                (λ _. Ends-pure tt (λ s p. p))))
                            λ _. Ends-pure bigret (λ s p. p)

  -- The step was found and ran, or there is none and the table is left.
  abbrev pub Left : ℕ → Bool → Shop W → Type 0
  Left n ok s = At n s ⊎ (At (suc n) s × (ok ≡ true))

  run_step-Left :
      (n k key : ℕ) (step : Text) → Ends Any (At n) (run_step os lua run calls k key step) (Left n)
  unfolding run_step
  run_step-Left n k key step =
      Ends-bind {R = λ _. At (suc n)} (in_machine (change (lua.rawgeti key)))
        (record { at = λ s p. omega (arith, heights.rawgeti key s.machine.world, p) })
        λ _.
          Ends-bind {R = λ t s. At (suc n) s × (t ≡ suc n)} (in_machine (look lua.gettop))
            (record { at = λ s p. (p, p) })
            λ t. Ends-known λ e.
              Ends-if {m = in_machine (printerr os (no_pointer os lua step k key)) >> pure false}
                (ltb t 1) (λ h. absurd (ground arith))
                λ _.
                  Ends-bind {R = λ _. At (suc (suc n))} (in_machine (change lua.pushnil))
                    (record { at = λ s p. omega (arith, heights.pushnil s.machine.world, p) })
                    λ _.
                      Ends-bind (in_machine (find_step os lua os.rounds t step))
                        (in_machine-Ends os lua heights
                          (find_step-Traversed os lua heights os.rounds (suc n) t step))
                        λ _.
                          Ends-bind
                            {R = λ last s.
                              (last ≡ suc (suc (suc n))) × At (suc (suc (suc n))) s
                              ⊎ (last ≡ suc n) × At (suc n) s}
                            (in_machine (look lua.gettop))
                            (record {
                              at = λ s p. elim p [
                                | inl high ↦ inl (high, high)
                                | inr low ↦ inr (low, low)
                              ];
                            })
                            λ last.
                              Ends-if (ltb t last)
                                (λ h.
                                  Ends-weaken
                                    (λ s p. elim p [
                                      | inl high ↦ high.1
                                      | inr low ↦ absurd (ground arith)
                                    ])
                                    (λ a s q. inl q) (call_step-Height n t e))
                                (λ h. Ends-pure true (λ s p. elim p [
                                  | inl high ↦ absurd (ground arith)
                                  | inr low ↦ inr (low.1, refl)
                                ]))

  wrong-Left : (n : ℕ) → Ends Any (At n) (plain_wrong os lua run calls) (Left n)
  unfolding plain_wrong
  wrong-Left n =
      Ends-bind (in_machine (printerr os (codes "this is just plain wrong.")))
        (in_machine-Ends os lua heights (printerr-Height os lua heights n _))
        λ _. Ends-pure false (λ s p. inl p)

  build_step-Left :
      (n k : ℕ) (registry : Option Handle) (step : Text)
      → Ends Any (At n) (do_build_step os lua run calls k registry step) (Left n)
  unfolding do_build_step
  build_step-Left n k none step = wrong-Left n
  build_step-Left n k (some handle) step =
      Ends-if (handle.state == lua.main_state) (λ _. run_step-Left n k handle.key step)
        (λ _. wrong-Left n)

  -- If the calls of the interpreter change the height of its stack as they are documented to, and a
  -- protected call takes the function and its argument and leaves a result, then a build step that
  -- comes back leaves the stack as high as it was, or, and then its result is `true`, higher by one.
  pub do_build_step-Height :
      (k : ℕ) (registry : Option Handle) (step : Text) (s : Shop W) (ok : Bool)
      → (do_build_step os lua run calls k registry step s).0 ≡ done ok
      → Left (lua.gettop s.machine.world) ok (do_build_step os lua run calls k registry step s).1
  do_build_step-Height k registry step s ok e =
      go (do_build_step os lua run calls k registry step s).0 _ e
        ((build_step-Left (lua.gettop s.machine.world) k registry step).at s refl)
    where
      go :
          (o : Outcome Bool) (t : Shop W)
          → o ≡ done ok
          → Ended Any (Left (lua.gettop s.machine.world)) o t
          → Left (lua.gettop s.machine.world) ok t
      go (done b) t e h = subst (λ b. Left (lua.gettop s.machine.world) b t) (done-injective e) h
      go (stopped c) t e h = cc
