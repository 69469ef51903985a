-- ===== src/System.antt =====
-- What the program asks of the operating system, as an interface, and the state that it threads.
-- `world` is all that lies outside the process. The other fields of `Machine` are the program's
-- globals: cake.cpp, `makefile_time` and `newest_time` of file.cpp, and the seed of build.cpp.
pub mod Laws
pub mod Gives
pub mod Ends
use cake.Prelude.{ℕ, Bool, Option, List, [], ◌∷◌, ℤ, ltb, length, if◌then◌else◌}
use cake.Text.{Text}

-- The fields of `struct stat` that the program reads. Times are seconds from the epoch on.
pub record Stat : Type 0 where
  pub mtime : ℕ
  pub is_directory : Bool

-- Why a process goes no further: `exit(n)`, its image replaced by `execvp`, a write past the end of
-- a buffer, a null pointer read or a division by zero, or a loop on the world that takes more rounds
-- than `rounds` of `Os`. `raised` is a Lua error: control leaves the function for the protected call
-- that runs it, and where there is none, Lua ends the process.
pub data Stop : Type 0 where
  exited : ℕ → Stop
  replaced : Stop
  overrun : Stop
  crashed : Stop
  starved : Stop
  raised : Stop

pub data Outcome (A : Type 0) : Type 0 where
  done : A → Outcome A
  stopped : Stop → Outcome A

pub record Os (W : Type 0) : Type 0 where
  pub stat : Text → W → Option Stat
  pub mkdir : Text → W → Bool × W
  -- `fopen(name, "r")`, the size by `fseek` and `ftell`, `fread`, and `fclose`.
  pub fopen : Text → W → Option ℕ × W
  pub file_size : ℕ → W → ℕ
  pub fread : ℕ → ℕ → W → Text × W
  pub fclose : ℕ → W → W
  pub getenv : Text → W → Option Text
  -- `setenv` that overwrites.
  pub setenv : Text → Text → W → W
  pub getcwd : W → Text
  pub chdir : Text → W → Bool × W
  pub glob : Text → W → List Text
  -- The child runs the program that is passed; the parent gets the process id, or -1.
  pub fork : (W → Outcome (Unit {0}) × W) → W → ℤ × W
  -- `true`: the process image was replaced; `false`: the call came back.
  pub execvp : List Text → W → Bool × W
  -- The id that `waitpid` returns and the status that it stores. The flag is `WNOHANG`.
  pub waitpid : ℤ → Bool → W → (ℤ × ℕ) × W
  pub pipe : W → Option (ℤ × ℤ) × W
  -- `none` is the result -1, and no bytes are the end of the stream.
  pub read : ℤ → ℕ → W → Option Text × W
  pub close : ℤ → W → W
  pub dup : ℤ → W → W
  pub print_out : Text → W → W
  pub print_err : Text → W → W
  -- What lies behind a stack buffer that holds no NUL.
  pub beyond : Text
  -- How many rounds of a loop that reads from a process are followed.
  pub rounds : ℕ

pub record Machine (W : Type 0) : Type 0 where
  pub world : W
  pub makefile_time : ℕ
  pub newest_time : ℕ
  pub seed : ℕ
  pub objdir : Text
  pub makefile : Text
  pub verbose_flag : Bool
  pub silent_flag : Bool
  pub rebuild_flag : Bool
  pub making_cpp : Bool
  pub print_colors : Bool
  pub target : Option Text
  pub home : Option Text

-- Code that reads and changes a state, and may end the process.
abbrev pub Act : Type 0 → Type 0 → Type 0
Act S A = S → Outcome A × S

abbrev pub resume : {S A B : Type 0} → Outcome A → (A → Act S B) → Act S B
resume (done a) f s = f a s
resume (stopped e) f s = (stopped e, s)

infixl 5 ◌>>=◌ ◌>>◌
abbrev pub ◌>>=◌ : {S A B : Type 0} → Act S A → (A → Act S B) → Act S B
◌>>=◌ m f s = resume (m s).0 f (m s).1

abbrev pub ◌>>◌ : {S A B : Type 0} → Act S A → Act S B → Act S B
◌>>◌ m k s = resume (m s).0 (λ _. k) (m s).1

module _ {S A : Type 0} where
  abbrev pub pure : A → Act S A
  pure a s = (done a, s)

  abbrev pub stop : Stop → Act S A
  stop e s = (stopped e, s)

  abbrev pub gets : (S → A) → Act S A
  gets f s = (done (f s), s)

abbrev pub modify : {S : Type 0} → (S → S) → Act S (Unit {0})
modify f s = (done tt, f s)

abbrev pub skip : {S : Type 0} → Act S (Unit {0})
skip s = (done tt, s)

-- A write of a string into a buffer of `size` bytes: the NUL has to fit too.
abbrev pub fits : {S : Type 0} → ℕ → Text → Act S Text
fits size t s = (if ltb (length t) size then done t else stopped overrun, s)

-- An action for each entry, in order.
unfoldable pub each : {S A : Type 0} → (A → Act S (Unit {0})) → List A → Act S (Unit {0})
each f [] = skip
each f (x ∷ xs) = f x >> each f xs

abbrev pub M : Type 0 → Type 0 → Type 0
M W A = Act (Machine W) A

-- A call that looks at the world.
abbrev pub look : {W A : Type 0} → (W → A) → M W A
look f s = (done (f s.world), s)

-- A call that changes the world.
abbrev pub system : {W A : Type 0} → (W → A × W) → M W A
system f s = (done (f s.world).0, record s { world = (f s.world).1 })

abbrev pub change : {W : Type 0} → (W → W) → M W (Unit {0})
change f s = (done tt, record s { world = f s.world })
