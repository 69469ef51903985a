-- ===== src/Main/Names.antt =====
-- However the program ends, no two of its projects have the same name.
use cake.Prelude.{◌≡◌, sym, subst, List, []}
use cake.Text.{Text}
use cake.System.{Os}
use cake.Project.Scripts.{Shop}
use cake.Project.Scripts.Names.{HasDistinctNames, HasDistinctNames-IsKept}
use cake.Project.Steps.{Interpreter}
use cake.Lua.{Lua}
use cake.Main.Options.{Event}
use cake.Main.{calls, main}
use cake.Main.Calls.{Keeps}
use cake.Main.Kept.{main-Always}

module _ {W : Type 0} (os : Os W) (lua : Lua W) (run : Interpreter W)
    (dofile_keeps : (name : Text) → Keeps os lua (run.dofile (calls os lua) name))
    (pcall_keeps : Keeps os lua (run.pcall (calls os lua))) where
  -- However the program ends, no two of its projects have the same name, if a script changes the
  -- projects only by the functions that it may call, and there are no projects at first.
  pub main-HasDistinctNames :
      (args : List Event) (argp_usage : W → W) (s : Shop W)
      → s.projects ≡ []
      → HasDistinctNames (main os lua run args argp_usage s).1.projects
  main-HasDistinctNames args argp_usage s e =
      (main-Always os lua run dofile_keeps pcall_keeps HasDistinctNames-IsKept args argp_usage).at s
        (subst HasDistinctNames (sym e) tt)
