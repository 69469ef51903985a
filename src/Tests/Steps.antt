-- ===== src/Tests/Steps.antt =====
-- Build steps on an interpreter whose world is the height of its stack.
use cake.Prelude.{ℕ, suc, ◌-◌, ◌≡◌, refl, arith, true, false, some}
use cake.Text.{codes, str_eq}
use cake.System.{Outcome, done}
use cake.Lua.{Lua, Call}
use cake.Project.Scripts.{Shop}
use cake.Project.Steps.{
  Interpreter, do_build_step, run_step, call_step, step_result, find_step, is_step, same_string,
}
use cake.Project.Steps.Heights.{Heights}
use cake.Project.Steps.Stack.{Left, do_build_step-Height}
use cake.Tests.World.{small}
use cake.Tests.Scripts.{tiny, shop, first_table}

-- Every table has the key `app`.
abbrev stacked : Lua ℕ
stacked = record tiny {
  gettop = λ w. w;
  pop = λ n w. w - n;
  pushnil = λ w. suc w;
  rawgeti = λ k w. suc w;
  next = λ t w. (some true, suc w);
}

-- A script leaves a result in the place of its function and its argument.
abbrev runner : Interpreter ℕ
runner = record {
  pcall = λ calls s.
      (done true, record s { machine = record s.machine { world = s.machine.world - 1 } });
  dofile = λ calls name s. (done true, s);
}

abbrev no_calls : Call → Shop ℕ → Outcome ℕ × Shop ℕ
no_calls c s = (done 0, s)

stacked-Heights : Heights small stacked
stacked-Heights = record {
  rawgeti = λ k w. refl;
  pushnil = λ w. refl;
  swap = λ w. refl;
  pop = λ n w h. omega arith;
  tostring = λ i w. refl;
  next_entry = λ t w e. refl;
  next_end = λ t w e. cc;
  print_err = λ t w. refl;
}

step_ran :
    (do_build_step small stacked runner no_calls 0 (some first_table) (codes "app") shop).0
    ≡ done true
unfolding do_build_step run_step call_step step_result find_step is_step same_string str_eq
step_ran = refl

do_build_step-Height_example :
    Left small stacked stacked-Heights runner no_calls
      (λ s ok e h. omega arith)
      0
      true
      (do_build_step small stacked runner no_calls 0 (some first_table) (codes "app") shop).1
do_build_step-Height_example =
    do_build_step-Height small stacked stacked-Heights runner no_calls (λ s ok e h. omega arith) 0
      (some first_table) (codes "app") shop true step_ran

-- Where the table is empty, it is left on the stack.
abbrev empty : Lua ℕ
empty = record stacked { next = λ t w. (some false, w - 1) }

table_left :
    (do_build_step small empty runner no_calls 0
      (some first_table)
      (codes "app")
      shop).1.machine.world
    ≡ suc shop.machine.world
unfolding do_build_step run_step call_step find_step
table_left = refl
