-- ===== src/Utility/Print/Laws.antt =====
-- The printing functions touch nothing but the world.
use cake.Prelude.{◌≡◌, Bool-cases, inl, inr}
use cake.Text.{Text}
use cake.System.{Os, Machine, done}
use cake.Utility.Print.{line, red, printerr}

module _ {W : Type 0} (os : Os W) where
  pub printerr_lem :
      (msg : Text) (s : Machine W)
      → (w : W) × (printerr os msg s ≡ (done tt, record s { world = w }))
  unfolding printerr
  printerr_lem msg s = elim (Bool-cases s.silent_flag) [
    | inl e ↦ (s.world, rw e)
    | inr e ↦ (os.print_err (line s.print_colors red msg) s.world, rw e)
  ]
