-- ===== src/Main/Places.antt =====
-- What becomes of the projects that were created.
use cake.Prelude.{ℕ, ◌≡◌, some, get_elem?}
use cake.Text.{Text}
use cake.System.{Os}
use cake.Project.{Project}
use cake.Project.Scripts.{Shop}
use cake.Project.Scripts.Grown.{IsGrown}
use cake.Project.Scripts.Places.{HasPlaces-refl, HasPlaces-at, HasPlaces-IsKept}
use cake.Project.Steps.{Interpreter}
use cake.Lua.{Lua}
use cake.Main.{calls, build_from}
use cake.Main.Calls.{Keeps}
use cake.Main.Kept.{build_from-Always}

module _ {W : Type 0} (os : Os W) (lua : Lua W) (run : Interpreter W)
    (dofile_keeps : (name : Text) → Keeps os lua (run.dofile (calls os lua) name))
    (pcall_keeps : Keeps os lua (run.pcall (calls os lua))) where
  -- If a script changes the projects only by the functions that it may call, then however the loop
  -- that builds the projects ends, each project that there was is where it was, with its name, its
  -- kind, its table, and all entries of its lists, in order and before any new ones.
  pub build_from-IsGrown :
      (fuel k : ℕ) (s : Shop W) (i : ℕ) (p : Project)
      → get_elem? s.projects i ≡ some p
      → (q : Project) × (get_elem? (build_from os lua run fuel k s).1.projects i ≡ some q)
        × IsGrown p q
  build_from-IsGrown fuel k s i p e =
      HasPlaces-at s.projects (build_from os lua run fuel k s).1.projects i p
        ((build_from-Always os lua run dofile_keeps pcall_keeps (HasPlaces-IsKept s.projects) fuel
            k).at
          s (HasPlaces-refl s.projects))
        e
