-- ===== src/Command/Output.antt =====
-- The loop that collects what a child prints.
use cake.Prelude.{
  ℕ, zero, suc, ◌≡◌, ◌≢◌, refl, ◌∙◌, ◌<◌, Option, none, some, List, [], ◌∷◌, ◌++◌, arith, length, ℤ,
  append-nil, append_assoc, ◌⊎◌, inl, inr, false, int_eq_of_eq, int_eq_of_ne, pos, negsuc, true,
}
use cake.Text.{Text, c_str}
use cake.System.{Os, Machine, done}
use cake.Command.{
  Command, exit_status, run_child, grab_child, read_all, wait, begin_grab_stdout, execute_grab,
}

module _ {W : Type 0} (os : Os W) where
  -- From the world `w` on, reads from `fd` give these chunks, none of them empty, and then the end
  -- of the stream or an error; `w'` is the world after that.
  abbrev pub Streams : ℤ → List Text → W → W → Type 0
  Streams fd [] w w' =
      (r : Option Text) × ((r ≡ none) ⊎ (r ≡ some [])) × (os.read fd 512 w ≡ (r, w'))
  Streams fd (chunk ∷ chunks) w w' =
      (next : W) × (chunk ≢ [])
      × (os.read fd 512 w ≡ (some chunk, next))
      × Streams fd chunks next w'

  -- Each chunk counts up to its first NUL.
  abbrev pub collected : List Text → Text
  collected [] = []
  collected (chunk ∷ chunks) = c_str chunk ++ collected chunks

  -- With a round for each chunk and one for the end, the loop ends, and collects all chunks.
  read_all-from :
      (fuel : ℕ) (cmd : Command) (out : Text) (s : Machine W) (chunks : List Text) (w' : W)
      → length chunks < fuel
      → Streams cmd.read_end chunks s.world w'
      → read_all os fuel cmd out s ≡ (done (out ++ collected chunks), record s { world = w' })
  unfolding read_all
  read_all-from zero cmd out s chunks w' h t = absurd (omega arith)
  read_all-from (suc fuel) cmd out s [] w' h (r, inl e, q) = rw (q, e, append-nil)
  read_all-from (suc fuel) cmd out s [] w' h (r, inr e, q) = rw (q, e, append-nil)
  read_all-from (suc fuel) cmd out s ([] ∷ chunks) w' h (next, n, q, t) = absurd (n refl)
  read_all-from (suc fuel) cmd out s ((b ∷ bs) ∷ chunks) w' h (next, n, q, t) = rw q (
      read_all-from fuel cmd (out ++ c_str (b ∷ bs)) (record s { world = next }) chunks w'
        (omega arith) t
      ∙ rw append_assoc)

  -- If there is a pipe and a child, the child's output comes in fewer chunks than rounds of the loop
  -- are followed, and `waitpid` finds the child, then the result is a success with its exit status
  -- and its output, each chunk up to its first NUL.
  pub execute_grab-collects :
      (argv : List Text) (dir : Option Text) (s : Machine W) (rd wr : ℤ) (w1 w' : W)
      (chunks : List Text)
      → os.pipe s.world ≡ (some (rd, wr), w1)
      → let f =
          os.fork (run_child os (record s { world = w1 }) (grab_child os argv dir rd wr)) w1 in
        let r = os.waitpid f.0 false w' in
        f.0 ≢ pos 0
        → f.0 ≢ negsuc 0
        → Streams rd chunks (os.close wr f.1) w'
        → length chunks < os.rounds
        → r.0.0 ≡ f.0
        → execute_grab os argv dir s
          ≡ (done (true, exit_status r.0.1, collected chunks), record s { world = r.1 })
  unfolding execute_grab begin_grab_stdout wait
  execute_grab-collects argv dir s rd wr w1 w' chunks p a b t h e =
      let f = os.fork (run_child os (record s { world = w1 }) (grab_child os argv dir rd wr)) w1 in
      let cmd : Command = record { pid = f.0; exitcode = 0; read_end = rd; write_end = wr } in
      let reading = record s { world = os.close wr f.1 } in
      rw (
        p,
        int_eq_of_ne _ _ b,
        read_all-from os.rounds cmd [] reading chunks w' h t,
        wait,
        int_eq_of_ne _ _ a,
        int_eq_of_eq _ _ e,
      )
