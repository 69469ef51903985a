-- ===== src/Lua.antt =====
-- What the program asks of the Lua interpreter (lua.h, lauxlib.h), as an interface. The state `L` is
-- part of the world, and the calls work on its stack.
use cake.Prelude.{ℕ, Bool, Option}
use cake.Text.{Text}

-- A place on the stack: the n-th from the bottom, or from the top (the index -n).
pub data Index : Type 0 where
  bottom : ℕ → Index
  top : ℕ → Index

-- The functions of project.cpp and cake.cpp that are registered.
pub data Call : Type 0 where
  s_add_libs s_add_pkgdepend s_add_flags s_add_files s_set_output_suffix s_depend : Call
  s_create_program s_create_library s_getcwd s_chdir : Call

pub record Lua (W : Type 0) : Type 0 where
  -- The state that `lua_open` gave, and that which the running function is called with: a coroutine has
  -- another one.
  pub main_state : ℕ
  pub running : W → ℕ
  pub openlibs : W → W
  pub lua_close : W → W
  pub gettop : W → ℕ
  pub pop : ℕ → W → W
  -- `lua_insert(L, -2)`
  pub swap : W → W
  pub isstring : Index → W → Bool
  pub isboolean : Index → W → Bool
  pub istable : Index → W → Bool
  pub toboolean : Index → W → Bool
  -- `none` is the null pointer. A number is changed to a string where it stands.
  pub tostring : Index → W → Option Text × W
  -- The `Project*` of a userdata, as in `Project`.
  pub touserdata : Index → W → Option ℕ
  pub pushnil : W → W
  pub pushstring : Text → W → W
  pub pushcfunction : Call → W → W
  pub pushlightuserdata : ℕ → W → W
  pub pushvalue : Index → W → W
  pub newtable : W → W
  -- `false`: an error was raised.
  pub gettable : Index → W → Bool × W
  pub settable : Index → W → W
  pub setglobal : Text → W → W
  pub rawgeti : ℕ → W → W
  -- Whether there is a next entry of the table; `none`: an error was raised.
  pub next : ℕ → W → Option Bool × W
  pub ref : W → ℕ × W
  pub unref : ℕ → W → W
  -- The message that `luaL_error` leaves for the protected call.
  pub error : Text → W → W
  -- What `%p` prints for a `Project*`.
  pub show_pointer : ℕ → Text
