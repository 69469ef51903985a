-- ===== src/Build/Objects/Machine.antt =====
-- What the steps of a build that only the machine takes leave: the object folder stays, and they end
-- by themselves.
use cake.Prelude.{ℕ, ◌≡◌, refl, List, [], ◌∷◌}
use cake.Text.{Text}
use cake.System.{Os, Machine, M, Stop, done, pure, gets, look, system, change, each, fits}
use cake.System.Ends.{
  Ends, Ends-pure, Ends-gets, Ends-if, Ends-bind, Ends-fits, Ends-weaken, Fits, Never, came_back,
}
use cake.Utility.Print.{cprintf, printerr, line, red}

module _ {W : Type 0} (os : Os W) (E : Stop → Type 0) (d : Text) where
  abbrev pub Stays : {A : Type 0} → M W A → Type 0
  Stays m = Ends E (λ s. s.objdir ≡ d) m (λ _ s. s.objdir ≡ d)

  module _ {A : Type 0} where
    pub Stays-pure : (a : A) → Stays (pure a)
    Stays-pure a = Ends-pure a (λ s p. p)

    pub Stays-gets : (g : Machine W → A) → Stays (gets g)
    Stays-gets g = Ends-gets g (λ s p. p)

    pub Stays-look : (f : W → A) → Stays (look f)
    Stays-look f = record { at = λ s p. p }

    pub Stays-system : (f : W → A × W) → Stays (system f)
    Stays-system f = record { at = λ s p. p }

  pub Stays-change : (f : W → W) → Stays (change f)
  Stays-change f = record { at = λ s p. p }

  pub Stays-fits : (size : ℕ) (t : Text) → Fits E size t → Stays (fits size t)
  Stays-fits size t h = Ends-weaken (λ s p. p) (λ a s p. p.0) (Ends-fits size t h)

  pub Stays-each :
      {A : Type 0} (f : A → M W (Unit {0}))
      → ((a : A) → Stays (f a))
      → (xs : List A) → Stays (each f xs)
  unfolding each
  Stays-each f h [] = Stays-pure tt
  Stays-each f h (x ∷ xs) = Ends-bind (f x) (h x) λ _. Stays-each f h xs

  pub cprintf-Stays : (color : ℕ) (msg : Text) → Stays (cprintf os color msg)
  unfolding cprintf
  cprintf-Stays color msg = Ends-bind (gets (λ s. s.silent_flag)) (Stays-gets _) λ silent.
      Ends-bind (gets (λ s. s.print_colors)) (Stays-gets _) λ colors.
        Ends-if silent (λ _. Stays-pure tt)
          (λ _. Stays-change (os.print_out (line colors color msg)))

  pub printerr-Stays : (msg : Text) → Stays (printerr os msg)
  unfolding printerr
  printerr-Stays msg = Ends-bind (gets (λ s. s.silent_flag)) (Stays-gets _) λ silent.
      Ends-bind (gets (λ s. s.print_colors)) (Stays-gets _) λ colors.
        Ends-if silent (λ _. Stays-pure tt) (λ _. Stays-change (os.print_err (line colors red msg)))

-- What ends by itself, if its names fit, comes back.
pub Stays-back :
    {W : Type 0} (os : Os W) (m : M W (Unit {0})) (s : Machine W)
    → Stays os Never s.objdir m
    → (m s).0 ≡ done tt
Stays-back os m s h =
    let (back, e) = came_back (λ _ t. t.objdir ≡ s.objdir) (m s).0 (m s).1 (h.at s refl) in e
