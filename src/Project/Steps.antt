-- ===== src/Project/Steps.antt =====
-- project.cpp: `do_build_step`, and the calls of the interpreter that run scripts.
pub mod Heights
pub mod Stack
use cake.Prelude.{
  ℕ, zero, suc, Bool, true, false, not, Option, none, some, List, [], ◌∷◌, ◌++◌, ltb, ◌==◌,
  if◌then◌else◌,
}
use cake.Text.{Text, codes, str_eq}
use cake.System.{
  Os, M, ◌>>=◌, ◌>>◌, pure, stop, skip, gets, look, system, change, crashed, raised, starved,
}
use cake.Utility.Print.{printerr, decimal}
use cake.Project.{Handle}
use cake.Project.Scripts.{Script, in_machine}
use cake.Lua.{Lua, top, Call}

-- The calls that run a script. The script may call the functions that were registered.
pub record Interpreter (W : Type 0) : Type 0 where
  -- `lua_pcall(L, 1, 1, 0)`: whether there was no error.
  pub pcall : (Call → Script W ℕ) → Script W Bool
  -- `luaL_dofile`: whether there was no error.
  pub dofile : (Call → Script W ℕ) → Text → Script W Bool

unfoldable pub behind : ℕ → Option Text → Option Text
behind c none = none
behind c (some t) = some (c ∷ t)

-- What a format without arguments prints, from behind a percent sign or not; `none` where it has a
-- conversion other than `%%`, which reads an argument that is not there.
unfoldable pub format_from : Bool → Text → Option Text
format_from false [] = some []
format_from true [] = none
format_from false (c ∷ cs) = elim (c == b'%') [
  | true ↦ format_from true cs
  | false ↦ behind c (format_from false cs)
]
format_from true (c ∷ cs) = elim (c == b'%') [
  | true ↦ behind c (format_from false cs)
  | false ↦ none
]

module _ {W : Type 0} (os : Os W) where
  unfoldable pub print_text : Option Text → M W (Unit {0})
  print_text none = stop crashed
  print_text (some text) = printerr os text

  unfoldable pub formatted : Option Text → Option Text
  formatted none = none
  formatted (some format) = format_from false format

  -- `printerr(format)`, which does not look at a format when it is silent.
  unfoldable pub print_format : Option Text → M W (Unit {0})
  print_format format = do
    silent ← gets (λ s. s.silent_flag)
    if silent then skip else print_text (formatted format)

  unfoldable pub no_pointer : Lua W → Text → ℕ → ℕ → Text
  no_pointer lua step k key =
      step
      ++ codes ": no project pointer found in registry for "
      ++ lua.show_pointer k
      ++ codes " / "
      ++ decimal key

module _ {W : Type 0} (os : Os W) (lua : Lua W) where
  -- `strcmp(step, lua_tostring(L, -2)) == 0`
  unfoldable pub same_string : Text → Option Text → M W Bool
  same_string step none = stop crashed
  same_string step (some key) = pure (str_eq step key)

  -- Whether the key of the entry on the stack is the name of the step.
  unfoldable pub is_step : Text → M W Bool
  is_step step = do
    string ← look (lua.isstring (top 2))
    (if not string then pure false else (system (lua.tostring (top 2)) >>= same_string step))

  -- The loop over the table of the project; it ends with the entry of the step on the stack, or
  -- without an entry.
  unfoldable pub find_step : ℕ → ℕ → Text → M W (Unit {0})
  find_step zero t step = stop starved
  find_step (suc fuel) t step = do
    more ← system (lua.next t)
    elim more [
      | none ↦ stop raised
      | some true ↦
          (is_step step >>= λ hit.
          if hit then skip else (change (lua.pop 1) >> find_step fuel t step))
      | some false ↦ skip
    ]

  -- What is made of the result of the script.
  unfoldable pub step_result : Bool → M W Bool
  step_result true = do
    boolean ← look (lua.isboolean (top 1))
    value ← look (lua.toboolean (top 1))
    change (lua.pop 1)
    pure (if boolean then value else true)
  step_result false = do
    message ← system (lua.tostring (top 1))
    print_format os message
    change (lua.pop 1)
    pure true

module _ {W : Type 0} (os : Os W) (lua : Lua W) (run : Interpreter W)
    (calls : Call → Script W ℕ) where
  -- The step's function and the table are on the stack above `t`.
  unfoldable pub call_step : ℕ → Script W Bool
  call_step t = do
    in_machine (change lua.swap)
    in_machine (change (lua.pop 1))
    in_machine (change lua.swap)
    ok ← run.pcall calls
    bigret ← in_machine (step_result os lua ok)
    last ← in_machine (look lua.gettop)
    in_machine (if ltb t last then change (lua.pop 1) else skip)
    pure bigret

  unfoldable pub run_step : ℕ → ℕ → Text → Script W Bool
  run_step k key step = do
    in_machine (change (lua.rawgeti key))
    t ← in_machine (look lua.gettop)
    (if ltb t 1 then in_machine (printerr os (no_pointer os lua step k key)) >> pure false else do
      in_machine (change lua.pushnil)
      in_machine (find_step os lua os.rounds t step)
      last ← in_machine (look lua.gettop)
      if ltb t last then call_step t else pure true)

  unfoldable pub plain_wrong : Script W Bool
  plain_wrong = in_machine (printerr os (codes "this is just plain wrong.")) >> pure false

  -- Of the `k`-th project. It is called with the state that `lua_open` gave.
  unfoldable pub do_build_step : ℕ → Option Handle → Text → Script W Bool
  do_build_step k none step = plain_wrong
  do_build_step k (some handle) step =
      if handle.state == lua.main_state then run_step k handle.key step else plain_wrong

  unfoldable pub pre_build_step : ℕ → Option Handle → Script W Bool
  pre_build_step k registry = do_build_step k registry (codes "pre")

  unfoldable pub post_build_step : ℕ → Option Handle → Script W Bool
  post_build_step k registry = do_build_step k registry (codes "post")
